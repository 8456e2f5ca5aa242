-- ===== src/Service/Clean/Steps.antt =====
-- Every step of the service keeps what it has and sends clean.
use mathlib.Core.Path.{subst⁻¹}
use cc_be_chat_test.Common.{
  ℕ, ◌≡◌, ◌≢◌, refl, Bool, ◌&&◌, Bool-cases, Option-cases, inl, inr, Option, none, some, List, [],
  ◌∷◌, ◌++◌, length, take, drop, ltb, ◌==◌, ==_iff, if◌then◌else◌, eq_text, All, All-parts, Outcome,
  ok, err, panic,
}
use cc_be_chat_test.NetMsg.{NetMsg, body}
use cc_be_chat_test.Badwords.{WordTree, star, init, search}
use cc_be_chat_test.Badwords.Masking.{search-NoneIn}
use cc_be_chat_test.Badwords.Occurrences.{NoneIn, search_complete}
use cc_be_chat_test.Badwords.Dictionary.Lengths.{Member}
use cc_be_chat_test.Delegate.Dispatch.{handle_msg}
use cc_be_chat_test.Delegate.Dispatch.Found.{Holds, handle_msg-Holds, handle-All}
use cc_be_chat_test.Service.{
  net_message, auth_failed, Message, ChatState, chat_req, Task, popular_task, stats_task,
  record_task, broadcast, on_chat, popular_command, stats_command, cmd_auth, cmd_chat, cmd_echo,
}
use cc_be_chat_test.Service.Chatting.{chat_failed, chat_popular, chat_stats, on_chat_lem}
use cc_be_chat_test.Service.Serving.{
  Libraries, Handler, on_echo, with_body, auth_handler, chat_handler, handlers, handled, serve,
  System, receive, run_one, cmd_main, Served, at_start, message, task,
}
use cc_be_chat_test.Service.Clean.{
  IsCleanSending, IsCleanTask, IsClean, posted, kept, refused, broadcast_clean,
}
use cc_be_chat_test.Service.Clean.Tasks.{on_auth_clean, run_task_clean}

module _ {E : Type 0} (lines : List (List ℕ)) (filter : WordTree)
    (built : init {E = E} lines ≡ ok filter)
    (plain : (word : List ℕ) → Member word lines → All (λ c. c ≢ star) word) where
  Keeps : List Task → ChatState × List Task → Type 0
  Keeps tasks r = IsClean lines filter r.0 (tasks ++ r.1)

  module _ (tasks : List Task) (s : ChatState) (h : IsClean lines filter s tasks) where
    recorded_clean :
        (msg : List ℕ)
        → All
            (IsCleanTask lines)
            (if length (search s.filter msg (some star)).1 == 0 then record_task msg ∷ [] else [])
    recorded_clean msg = elim (Bool-cases (length (search s.filter msg (some star)).1 == 0)) [
      | inl clean ↦
          let none_found : length (search filter msg (some star)).1 ≡ 0 =
            rw (← h.dictionary) ((==_iff (length (search s.filter msg (some star)).1) 0).0 clean) in
          rw (clean) ((search_complete lines filter msg (some star) built none_found).1, tt)
      | inr found ↦ rw (found) tt
    ]

    on_chat_clean :
        (json : Message → Option (List ℕ)) (unmarshal : List ℕ → Option (List ℕ)) (client : ℕ)
        (content : List ℕ)
        → Keeps tasks (on_chat json unmarshal client content s)
    unfolding Keeps
    on_chat_clean json unmarshal client content = elim (Option-cases (unmarshal content)) [
      | inl failed ↦ subst⁻¹ (Keeps tasks) (chat_failed json unmarshal client content s failed) (
          kept lines filter tasks _ []
            (refused lines filter tasks s h client (net_message json (auth_failed cmd_chat))) tt)
      | inr (msg, e) ↦ elim (Bool-cases (eq_text msg popular_command)) [
        | inl p ↦
            subst⁻¹ (Keeps tasks) (chat_popular json unmarshal client content msg s e p)
              (kept lines filter tasks s (popular_task client ∷ []) h (tt, tt))
        | inr p ↦ elim (Bool-cases (ltb 7 (length msg) && eq_text (take 7 msg) stats_command)) [
          | inl q ↦
              subst⁻¹ (Keeps tasks) (chat_stats json unmarshal client content msg s e p q)
                (kept lines filter tasks s (stats_task client (drop 6 msg) ∷ []) h (tt, tt))
          | inr q ↦
              let masked = (search s.filter msg (some star)).0 in
              let free : NoneIn lines masked =
                rw (h.dictionary) (search-NoneIn lines filter msg built plain) in
              subst⁻¹ (Keeps tasks) (on_chat_lem json unmarshal client content msg s e p q) (
                kept lines filter tasks _ _
                  (posted lines filter tasks s
                    (broadcast s.service (net_message json (chat_req masked))) h
                    (broadcast_clean lines json s.service masked free))
                  (recorded_clean msg))
        ]
      ]
    ]

    -- What a handler with a body does.
    body_clean :
        (o : Outcome (Unit {0}) (List ℕ)) (k : List ℕ → ChatState × List Task)
        → ((content : List ℕ) → Keeps tasks (k content))
        → Keeps tasks (with_body o s k)
    unfolding with_body Keeps
    body_clean (ok content) k each = each content
    body_clean (err e) k each = kept lines filter tasks s [] h tt
    body_clean panic k each = kept lines filter tasks s [] h tt

  -- A handler that keeps everything clean.
  KeepsClean : Handler → Type 0
  KeepsClean cb =
      (now client : ℕ) (msg : NetMsg) (s : ChatState) (tasks : List Task)
      → IsClean lines filter s tasks
      → Keeps tasks (cb now client msg s)

  on_echo_clean : KeepsClean on_echo
  unfolding KeepsClean on_echo Keeps
  on_echo_clean now client msg s tasks h =
      body_clean tasks s h (body msg) _
        (λ content. kept lines filter tasks _ [] (posted lines filter tasks s _ h (tt, tt)) tt)

  module _ (lib : Libraries) where
    auth_handler_clean : KeepsClean (auth_handler lib)
    unfolding KeepsClean auth_handler Keeps
    auth_handler_clean now client msg s tasks h = body_clean tasks s h (body msg) _ (λ content.
        kept lines filter tasks _ []
          (on_auth_clean lines filter tasks s h lib.json lib.unmarshal_auth lib.marshal now client
            content)
          tt)

    chat_handler_clean : KeepsClean (chat_handler lib)
    unfolding KeepsClean chat_handler
    chat_handler_clean now client msg s tasks h =
        body_clean tasks s h (body msg) _
          (λ content. on_chat_clean tasks s h lib.json lib.unmarshal_chat client content)

    handlers_clean : All (λ e. KeepsClean e.1) (handlers lib)
    unfolding handlers
    handlers_clean =
        handle-All KeepsClean _ cmd_main cmd_chat (chat_handler lib)
          (handle-All KeepsClean _ cmd_main cmd_auth (auth_handler lib)
            (handle-All KeepsClean [] cmd_main cmd_echo on_echo tt on_echo_clean)
            auth_handler_clean)
          chat_handler_clean

    handled_clean : (o : Option Handler) → Holds KeepsClean o → KeepsClean (handled lib o)
    unfolding handled KeepsClean Keeps
    handled_clean none holds now client msg s tasks h = kept lines filter tasks s [] h tt
    handled_clean (some cb) holds now client msg s tasks h = holds now client msg s tasks h

    receive_clean :
        (running : Bool) (now client : ℕ) (msg : NetMsg) (y : System)
        → IsClean lines filter y.state y.tasks
        → IsClean lines filter
            (receive lib running now client msg y).state
            (receive lib running now client msg y).tasks
    unfolding receive serve KeepsClean Keeps
    receive_clean running now client msg y h =
        handled_clean (handle_msg (handlers lib) (some running) msg)
          (handle_msg-Holds KeepsClean (handlers lib) running msg handlers_clean) now client msg
          y.state y.tasks h

    run_one_clean :
        (clock : ℕ → ℕ) (t : Task) (before others : List Task) (s : ChatState)
        → IsClean lines filter s (before ++ (t ∷ others))
        → IsClean lines filter
            (run_one lib clock t (before ++ others) s).state
            (run_one lib clock t (before ++ others) s).tasks
    unfolding run_one
    run_one_clean clock t before others s h =
        let (free, pending) = All-parts (IsCleanTask lines) before t others h.pending in
        run_task_clean lines filter (before ++ others) s
          (record {
            dictionary = h.dictionary;
            recorded = h.recorded;
            sent = h.sent;
            pending = pending;
          })
          lib clock t free

    served_clean : (y : System) → Served lib filter y → IsClean lines filter y.state y.tasks
    served_clean y at_start = record { dictionary = refl; recorded = tt; sent = tt; pending = tt }
    served_clean y (message z running now client msg r) =
        receive_clean running now client msg z (served_clean z r)
    served_clean y (task s clock before t others r) =
        run_one_clean clock t before others s (served_clean _ r)

-- The service, with a dictionary that Init built from lines without stars: whatever messages its
-- clients send, in any order, and whenever the tasks run, the history holds no line with a line of
-- the dictionary in it, no such line waits to be recorded, and none was sent to all; and each line
-- was sent only to clients that had logged in.
pub Served-IsClean :
    {E : Type 0} (lines : List (List ℕ)) (filter : WordTree) (lib : Libraries) (y : System)
    → init {E = E} lines ≡ ok filter
    → ((word : List ℕ) → Member word lines → All (λ c. c ≢ star) word)
    → Served lib filter y
    → All (NoneIn lines) y.state.history
      × All (IsCleanTask lines) y.tasks
      × All (IsCleanSending lines y.state.service) y.state.sent
Served-IsClean lines filter lib y built plain r =
    let h = served_clean lines filter built plain lib y r in (h.recorded, h.pending, h.sent)
