-- ===== src/Service/Clean.antt =====
-- What the service keeps and sends to all, whatever its clients send it.
use native.Mathlib.Decide.{ℕ_discrete}
use mathlib.Core.Path.{subst⁻¹}
use cc_be_chat_test.Common.{
  leb, length, Bool-cases, Option-cases, Option, some, none, inl, inr, ℕ, ◌-◌, ◌≡◌, ◌≢◌, refl, ap,
  sym, ◌∙◌, Bool, true, false, ◌&&◌, Bool-cases, Option-cases, inl, inr, Option, none, some, List,
  [], ◌∷◌, ◌++◌, map, length, take, drop, ltb, ◌==◌, ==_iff, if◌then◌else◌, eq_text, All,
  All-append, All-drop, Outcome, ok, err, panic,
}
use cc_be_chat_test.Common.Maps.{lookup, insert, lookup-insert, lookup-insert_other}
use cc_be_chat_test.NetMsg.{NetMsg, body}
use cc_be_chat_test.Popular
use cc_be_chat_test.History.{add_history, get_history}
use cc_be_chat_test.History.Laws.{add_history_lem}
use cc_be_chat_test.Badwords.{WordTree, star, init, search}
use cc_be_chat_test.Badwords.Masking.{search-NoneIn}
use cc_be_chat_test.Badwords.Occurrences.{NoneIn, search_complete}
use cc_be_chat_test.Badwords.Dictionary.Lengths.{Member}
use cc_be_chat_test.Delegate.Dispatch.{handle_msg}
use cc_be_chat_test.Delegate.Dispatch.Found.{Holds, handle_msg-Holds, handle-All}
use cc_be_chat_test.NetMsg.{default_max_body_len}
use cc_be_chat_test.Service.{
  no_body, sub_of, net_message, User, TcpService, ChatState, Message, auth_failed, chat_rsp,
  chat_req, echoed, Sending, send, send_and_stop, Task, popular_task, stats_task, record_task,
  add_client, broadcast, post, on_auth, on_chat, on_popular, on_stats, run_task, popular_command,
  stats_command, cmd_auth, cmd_chat, get_login_time,
}
use cc_be_chat_test.Service.Chatting.{chat_failed, chat_popular, chat_stats, on_chat_lem}
use cc_be_chat_test.Service.Serving.{
  Libraries, Handler, on_echo, with_body, auth_handler, chat_handler, handlers, handled, serve,
  System, started, receive, run_one, Served, at_start, message, task,
}
mod Tasks
pub mod Steps

-- A client that is in the map of those that have logged in.
abbrev pub Known : TcpService → ℕ → Type 0
Known service client = lookup ◌==◌ service.clients client ≢ none

module _ (lines : List (List ℕ)) where
  -- A line that was handed to a client has no line of the dictionary in it, and the client had
  -- logged in.
  abbrev pub IsCleanSending : TcpService → Sending → Type 0
  IsCleanSending service (send client (chat_req msg)) = NoneIn lines msg × Known service client
  IsCleanSending service (send client (chat_rsp text)) = Unit {0}
  IsCleanSending service (send client (auth_failed sub)) = Unit {0}
  IsCleanSending service (send client (echoed msg)) = Unit {0}
  IsCleanSending service (send client (no_body sub)) = Unit {0}
  IsCleanSending service (send_and_stop client msg) = Unit {0}

  abbrev pub IsCleanTask : Task → Type 0
  IsCleanTask (popular_task client) = Unit {0}
  IsCleanTask (stats_task client text) = Unit {0}
  IsCleanTask (record_task msg) = NoneIn lines msg

  pub record IsClean (filter : WordTree) (s : ChatState) (tasks : List Task) : Type 0 where
    pub dictionary : s.filter ≡ filter
    pub recorded : All (NoneIn lines) s.history
    pub sent : All (IsCleanSending s.service) s.sent
    pub pending : All IsCleanTask tasks

-- What holds for every entry because of something that holds for every entry.
module _ {A : Type 0} (P Q : A → Type 0) (f : (a : A) → P a → Q a) where
  All-implies : (xs : List A) → All P xs → All Q xs
  All-implies [] h = tt
  All-implies (x ∷ xs) h = (f x h.0, All-implies xs h.1)

some_known : (user : User) → some user ≢ none
some_known user e = absurd (cc)

entry_known :
    (b : Bool) (user : User) (o : Option User) → o ≢ none → (if b then some user else o) ≢ none
entry_known true user o h = some_known user
entry_known false user o h = h

-- A login forgets nobody.
login-Known :
    (service : TcpService) (now client other : ℕ) (user_name : List ℕ)
    → Known service other
    → Known (add_client service now client user_name) other
unfolding add_client
login-Known service now client other user_name known e =
    let user : User = record { user_name = user_name; login_time = now } in
    let clients = service.clients in
    elim (ℕ_discrete client other) [
      | yes same ↦
          some_known user (sym (rw (← same) (lookup-insert ◌==◌ ==_iff clients client user)) ∙ e)
      | no differ ↦
          known (sym (lookup-insert_other ◌==◌ ==_iff clients client other user differ) ∙ e)
    ]

-- The keys of a map are known to it.
keys-Known : (m : List (ℕ × User)) → All (λ entry. lookup ◌==◌ m entry.0 ≢ none) m
keys-Known [] = tt
keys-Known ((key, user) ∷ m) = (
  rw ((==_iff key key).1 refl) (some_known user),
  All-implies (λ entry. lookup ◌==◌ m entry.0 ≢ none)
      (λ entry. lookup ◌==◌ ((key, user) ∷ m) entry.0 ≢ none)
      (λ entry h. entry_known (key == entry.0) user (lookup ◌==◌ m entry.0) h) m (keys-Known m),
)

-- What holds of a value and of a message without a body holds of what NewNetMsg makes of the value.
net_message-Keeps :
    (P : Message → Type 0) (json : Message → Option (List ℕ)) (msg : Message)
    → P msg
    → P (no_body (sub_of msg))
    → P (net_message json msg)
unfolding net_message
net_message-Keeps P json msg whole empty = elim (Option-cases (json msg)) [
  | inl failed ↦ rw (net_message, failed) empty
  | inr (body, e) ↦ elim (Bool-cases (leb (length body) default_max_body_len)) [
    | inl fits ↦ rw (net_message, e, fits) whole
    | inr too_long ↦ rw (net_message, e, too_long) empty
  ]
]

module _ (lines : List (List ℕ)) (json : Message → Option (List ℕ)) where
  pub broadcast_clean :
      (service : TcpService) (msg : List ℕ)
      → NoneIn lines msg
      → All (IsCleanSending lines service) (broadcast service (net_message json (chat_req msg)))
  unfolding broadcast
  broadcast_clean service msg free = to_each service.clients (keys-Known service.clients)
    where
      to_each :
          (m : List (ℕ × User))
          → All (λ entry. Known service entry.0) m
          → All
              (IsCleanSending lines service)
              (map (λ entry. send entry.0 (net_message json (chat_req msg))) m)
      to_each [] h = tt
      to_each (entry ∷ m) h = (
        net_message-Keeps (λ sent. IsCleanSending lines service (send entry.0 sent)) json
            (chat_req msg) (free, h.0) tt,
        to_each m h.1,
      )

module _ (lines : List (List ℕ)) where
  still_clean :
      (service : TcpService) (now client : ℕ) (user_name : List ℕ) (sending : Sending)
      → IsCleanSending lines service sending
      → IsCleanSending lines (add_client service now client user_name) sending
  still_clean service now client user_name (send other (chat_req msg)) h =
      (h.0, login-Known service now client other user_name h.1)
  still_clean service now client user_name (send other (chat_rsp text)) h = tt
  still_clean service now client user_name (send other (auth_failed sub)) h = tt
  still_clean service now client user_name (send other (echoed msg)) h = tt
  still_clean service now client user_name (send other (no_body sub)) h = tt
  still_clean service now client user_name (send_and_stop other msg) h = tt

  module _ (filter : WordTree) (tasks : List Task) where
    pub posted :
        (s : ChatState) (sendings : List Sending)
        → IsClean lines filter s tasks
        → All (IsCleanSending lines s.service) sendings
        → IsClean lines filter (post s sendings) tasks
    unfolding post
    posted s sendings h clean = record {
      dictionary = h.dictionary;
      recorded = h.recorded;
      sent = All-append (IsCleanSending lines s.service) s.sent sendings h.sent clean;
      pending = h.pending;
    }

    pub kept :
        (s : ChatState) (new : List Task)
        → IsClean lines filter s tasks
        → All (IsCleanTask lines) new
        → IsClean lines filter s (tasks ++ new)
    kept s new h new_clean = record {
      dictionary = h.dictionary;
      recorded = h.recorded;
      sent = h.sent;
      pending = All-append (IsCleanTask lines) tasks new h.pending new_clean;
    }

    pub logged_in :
        (s : ChatState) (now client : ℕ) (user_name : List ℕ)
        → IsClean lines filter s tasks
        → IsClean lines filter
            (record s { service = add_client s.service now client user_name })
            tasks
    logged_in s now client user_name h = record {
      dictionary = h.dictionary;
      recorded = h.recorded;
      sent =
          All-implies (IsCleanSending lines s.service)
            (IsCleanSending lines (add_client s.service now client user_name))
            (still_clean s.service now client user_name) s.sent h.sent;
      pending = h.pending;
    }

  module _ (filter : WordTree) (tasks : List Task) (s : ChatState)
      (h : IsClean lines filter s tasks) where
    pub replied :
        (json : Message → Option (List ℕ)) (client : ℕ) (text : List ℕ)
        → IsClean lines filter (post s (send client (net_message json (chat_rsp text)) ∷ [])) tasks
    replied json client text =
        posted filter tasks s (send client (net_message json (chat_rsp text)) ∷ []) h (
          net_message-Keeps (λ msg. IsCleanSending lines s.service (send client msg)) json
              (chat_rsp text) tt tt,
          tt,
        )

    pub refused :
        (client : ℕ) (msg : Message)
        → IsClean lines filter (post s (send_and_stop client msg ∷ [])) tasks
    refused client msg = posted filter tasks s (send_and_stop client msg ∷ []) h (tt, tt)
