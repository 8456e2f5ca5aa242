-- ===== src/Service/Chatting.antt =====
-- What a chat line does.
use cc_be_chat_test.Common.{
  ℕ, ◌≡◌, refl, true, false, ◌&&◌, Bool-cases, inl, inr, Option, some, List, [], ◌∷◌, length, take,
  drop, none, ltb, ◌==◌, ==_iff, if◌then◌else◌, eq_text,
}
use cc_be_chat_test.Badwords.{search, star}
use cc_be_chat_test.Badwords.Search.{search_clean}
use cc_be_chat_test.Service.{
  Message, net_message, ChatState, send_and_stop, auth_failed, cmd_chat, popular_task, stats_task,
  record_task, chat_req, broadcast, post, on_chat, popular_command, stats_command,
}

-- The branches before the filter.
pub chat_failed :
    (json : Message → Option (List ℕ)) (unmarshal : List ℕ → Option (List ℕ)) (client : ℕ)
    (body : List ℕ) (s : ChatState)
    → unmarshal body ≡ none
    → on_chat json unmarshal client body s
      ≡ (post s (send_and_stop client (net_message json (auth_failed cmd_chat)) ∷ []), [])
unfolding on_chat
chat_failed json unmarshal client body s e = rw (on_chat, e) refl

pub chat_popular :
    (json : Message → Option (List ℕ)) (unmarshal : List ℕ → Option (List ℕ)) (client : ℕ)
    (body msg : List ℕ) (s : ChatState)
    → unmarshal body ≡ some msg
    → eq_text msg popular_command ≡ true
    → on_chat json unmarshal client body s ≡ (s, popular_task client ∷ [])
unfolding on_chat
chat_popular json unmarshal client body msg s e p = rw (on_chat, e, p) refl

pub chat_stats :
    (json : Message → Option (List ℕ)) (unmarshal : List ℕ → Option (List ℕ)) (client : ℕ)
    (body msg : List ℕ) (s : ChatState)
    → unmarshal body ≡ some msg
    → eq_text msg popular_command ≡ false
    → (ltb 7 (length msg) && eq_text (take 7 msg) stats_command) ≡ true
    → on_chat json unmarshal client body s ≡ (s, stats_task client (drop 6 msg) ∷ [])
unfolding on_chat
chat_stats json unmarshal client body msg s e p q = rw (on_chat, e, p, q) refl

-- The two outcomes of the filter.
chat_clean :
    (json : Message → Option (List ℕ)) (unmarshal : List ℕ → Option (List ℕ)) (client : ℕ)
    (body msg : List ℕ) (s : ChatState)
    → unmarshal body ≡ some msg
    → eq_text msg popular_command ≡ false
    → (ltb 7 (length msg) && eq_text (take 7 msg) stats_command) ≡ false
    → (length (search s.filter msg (some star)).1 == 0) ≡ true
    → on_chat json unmarshal client body s
      ≡ (post s (broadcast s.service (net_message json (chat_req msg))), record_task msg ∷ [])
unfolding on_chat
chat_clean json unmarshal client body msg s e p q clean = rw (on_chat, e, p, q, clean) refl

chat_masked :
    (json : Message → Option (List ℕ)) (unmarshal : List ℕ → Option (List ℕ)) (client : ℕ)
    (body msg : List ℕ) (s : ChatState)
    → unmarshal body ≡ some msg
    → eq_text msg popular_command ≡ false
    → (ltb 7 (length msg) && eq_text (take 7 msg) stats_command) ≡ false
    → (length (search s.filter msg (some star)).1 == 0) ≡ false
    → on_chat json unmarshal client body s ≡ (
      post s
          (broadcast s.service (net_message json (chat_req (search s.filter msg (some star)).0))),
      [],
    )
unfolding on_chat
chat_masked json unmarshal client body msg s e p q dirty = rw (on_chat, e, p, q, dirty) refl

-- A chat line that is no command hands every client that is logged in the message of what the search for
-- bad words makes of it, and nothing else; its own text is to be recorded exactly if no bad word was found.
pub on_chat_lem :
    (json : Message → Option (List ℕ)) (unmarshal : List ℕ → Option (List ℕ)) (client : ℕ)
    (body msg : List ℕ) (s : ChatState)
    → unmarshal body ≡ some msg
    → eq_text msg popular_command ≡ false
    → (ltb 7 (length msg) && eq_text (take 7 msg) stats_command) ≡ false
    → on_chat json unmarshal client body s ≡ (
      post s
          (broadcast s.service (net_message json (chat_req (search s.filter msg (some star)).0))),
      if length (search s.filter msg (some star)).1 == 0 then record_task msg ∷ [] else [],
    )
on_chat_lem json unmarshal client body msg s e p q =
    let found = search s.filter msg (some star) in
    elim (Bool-cases (length found.1 == 0)) [
      | inl clean ↦
          let same =
            (search_clean s.filter msg (some star) ((==_iff (length found.1) 0).0 clean)).1 in
          rw (clean, same) (chat_clean json unmarshal client body msg s e p q clean)
      | inr dirty ↦ rw (dirty) (chat_masked json unmarshal client body msg s e p q dirty)
    ]
