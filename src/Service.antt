-- ===== src/Service.antt =====
-- service.go, with the command numbers of main.go and the messages of proto/json_struct.go: who is
-- logged in, and what each message does. A client is a number; a time is its Unix second; the mutexes
-- make each call one step. A `go` statement is a task that runs later. `unmarshal` and `marshal` are
-- the JSON library's: the text in a request, and the text of a list of lines, unless they fail.
use mathlib.Core.Option
use cc_be_chat_test.Common.{
  ℕ, zero, suc, ◌+◌, ◌-◌, Bool, true, false, ◌&&◌, Option, none, some, List, [], ◌∷◌, ◌++◌, map,
  length, take, drop, ltb, leb, ◌==◌, if◌then◌else◌, eq_text, split_on,
}
use cc_be_chat_test.Common.Maps.{lookup, insert, delete}
use cc_be_chat_test.NetMsg.{NetMsg, default_max_body_len}
use cc_be_chat_test.Common.Integers.{ℤ, pos, difference}
use cc_be_chat_test.History.{add_history, get_history}
use cc_be_chat_test.Popular.{PopularWords}
use cc_be_chat_test.Popular
use cc_be_chat_test.Badwords.{WordTree, search, star}
pub mod Clients
pub mod Chatting
pub mod Serving
pub mod Clean
pub mod Requests

abbrev pub cmd_echo : ℕ
cmd_echo = 1

abbrev pub cmd_auth : ℕ
cmd_auth = 2

abbrev pub cmd_chat : ℕ
cmd_chat = 3

pub record User : Type 0 where
  pub user_name : List ℕ
  pub login_time : ℕ

pub record TcpService : Type 0 where
  pub clients : List (ℕ × User)
  pub name_verb : List (List ℕ × User)

-- The messages that the handlers send: an AuthRsp with the code -1 under a sub command, a ChatRsp
-- and a ChatReq with a text, a message sent back as it came, and a message without a body.
pub data Message : Type 0 where
  auth_failed : ℕ → Message
  chat_rsp : List ℕ → Message
  chat_req : List ℕ → Message
  echoed : NetMsg → Message
  no_body : ℕ → Message

abbrev pub sub_of : Message → ℕ
sub_of (auth_failed sub) = sub
sub_of (chat_rsp text) = cmd_chat
sub_of (chat_req text) = cmd_chat
sub_of (echoed msg) = cmd_echo
sub_of (no_body sub) = sub

-- NewNetMsg of a value, which `json` encodes: without a body if that fails, or if the body is longer
-- than a message may be.
unfoldable pub net_message : (Message → Option (List ℕ)) → Message → Message
net_message json msg = elim (json msg) [
  | none ↦ no_body (sub_of msg)
  | some body ↦ if leb (length body) default_max_body_len then msg else no_body (sub_of msg)
]

-- What a handler hands to a client: a message, or a last message, behind which it is stopped.
pub data Sending : Type 0 where
  send : ℕ → Message → Sending
  send_and_stop : ℕ → Message → Sending

-- The goroutines that onChat starts.
pub data Task : Type 0 where
  popular_task : ℕ → Task
  stats_task : ℕ → List ℕ → Task
  record_task : List ℕ → Task

-- The program's variables, and all that was sent so far.
pub record ChatState : Type 0 where
  pub service : TcpService
  pub history : List (List ℕ)
  pub popular : PopularWords
  pub filter : WordTree
  pub sent : List Sending

unfoldable pub add_client : TcpService → ℕ → ℕ → List ℕ → TcpService
add_client s now client user_name =
    let user : User = record { user_name = user_name; login_time = now } in
    record {
      clients = insert ◌==◌ s.clients client user;
      name_verb = insert eq_text s.name_verb user_name user;
    }

unfoldable pub delete_client : TcpService → ℕ → TcpService
delete_client s client = record {
  clients = delete ◌==◌ s.clients client;
  name_verb = elim (lookup ◌==◌ s.clients client) [
    | some user ↦ delete eq_text s.name_verb user.user_name
    | none ↦ s.name_verb
  ];
}

-- Each client in the map gets the message; none of them is nil.
unfoldable pub broadcast : TcpService → Message → List Sending
broadcast s msg = map (λ entry. send entry.0 msg) s.clients

-- Seconds since the login, negative if the clock was set back; 0 for a client that is not logged in.
unfoldable pub get_login_time : TcpService → ℕ → ℕ → ℤ
get_login_time s now client = elim (lookup ◌==◌ s.clients client) [
  | some user ↦ difference now user.login_time
  | none ↦ pos 0
]

unfoldable pub post : ChatState → List Sending → ChatState
post s sendings = record s { sent = s.sent ++ sendings }

unfoldable pub on_auth :
    (Message → Option (List ℕ))
    → (List ℕ → Option (List ℕ))
    → (List (List ℕ) → Option (List ℕ))
    → ℕ
    → ℕ
    → List ℕ
    → ChatState
    → ChatState
on_auth json unmarshal marshal now client body s = elim (unmarshal body) [
  | none ↦ post s (send_and_stop client (net_message json (auth_failed cmd_auth)) ∷ [])
  | some user_name ↦
      if length user_name == 0
      then post s (send_and_stop client (net_message json (auth_failed cmd_auth)) ∷ [])
      else let s' = record s { service = add_client s.service now client user_name } in
        elim (marshal (get_history s.history)) [
          | none ↦ s'
          | some history_str ↦ post s' (send client (net_message json (chat_rsp history_str)) ∷ [])
        ]
]

-- Each word reads the clock twice: `clock` is what the readings give, in order, from the one of the
-- number `n` on.
unfoldable pub add_words : PopularWords → (ℕ → ℕ) → ℕ → List (List ℕ) → PopularWords
add_words popular clock n [] = popular
add_words popular clock n (word ∷ words) =
    add_words (Popular.add popular (clock n) (clock (n + 1)) word) clock (n + 2) words

unfoldable pub make_popular : PopularWords → (ℕ → ℕ) → List ℕ → PopularWords
make_popular popular clock msg = add_words popular clock 0 (split_on 32 msg)

unfoldable pub on_popular :
    (Message → Option (List ℕ))
    → (Popular.Words → Popular.Words)
    → (List (List ℕ) → Option (List ℕ))
    → ℕ
    → ℕ
    → ChatState
    → ChatState
on_popular json arrange marshal now client s =
    let words = Popular.get arrange s.popular now in
    if length words == 0 then s else elim (marshal words) [
      | none ↦ s
      | some text ↦ post s (send client (net_message json (chat_rsp text)) ∷ [])
    ]

-- `format` is `time.Unix(n, 0).Format(...)`; the text behind `/stats` is only logged.
unfoldable pub on_stats :
    (Message → Option (List ℕ)) → (ℤ → List ℕ) → ℕ → ℕ → List ℕ → ChatState → ChatState
on_stats json format now client text s =
    post s (
      send client (net_message json (chat_rsp (format (get_login_time s.service now client)))) ∷ [])

-- "/popular" and "/stats "
abbrev pub popular_command : List ℕ
popular_command = 47 ∷ 112 ∷ 111 ∷ 112 ∷ 117 ∷ 108 ∷ 97 ∷ 114 ∷ []

abbrev pub stats_command : List ℕ
stats_command = 47 ∷ 115 ∷ 116 ∷ 97 ∷ 116 ∷ 115 ∷ 32 ∷ []

-- The handler of a chat line: the new state, and the task it starts, if any.
unfoldable pub on_chat :
    (Message → Option (List ℕ))
    → (List ℕ → Option (List ℕ))
    → ℕ
    → List ℕ
    → ChatState
    → ChatState × List Task
on_chat json unmarshal client body s = elim (unmarshal body) [
  | none ↦ (post s (send_and_stop client (net_message json (auth_failed cmd_chat)) ∷ []), [])
  | some msg ↦
      if eq_text msg popular_command
      then (s, popular_task client ∷ [])
      else if ltb 7 (length msg) && eq_text (take 7 msg) stats_command
      then (s, stats_task client (drop 6 msg) ∷ [])
      else let (result, bad_words) = search s.filter msg (some star) in
        if length bad_words == 0
        then (post s (broadcast s.service (net_message json (chat_req msg))), record_task msg ∷ [])
        else (post s (broadcast s.service (net_message json (chat_req result))), [])
]

-- A task, when it runs; `clock` is what its readings of the clock give.
unfoldable pub run_task :
    (Message → Option (List ℕ))
    → (Popular.Words → Popular.Words)
    → (List (List ℕ) → Option (List ℕ))
    → (ℤ → List ℕ)
    → (ℕ → ℕ)
    → Task
    → ChatState
    → ChatState
run_task json arrange marshal format clock (popular_task client) s =
    on_popular json arrange marshal (clock 0) client s
run_task json arrange marshal format clock (stats_task client text) s =
    on_stats json format (clock 0) client text s
run_task json arrange marshal format clock (record_task msg) s = record s {
  history = add_history s.history msg;
  popular = make_popular s.popular clock msg;
}
