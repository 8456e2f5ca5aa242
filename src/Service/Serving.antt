-- ===== src/Service/Serving.antt =====
-- start of service.go, onEcho and onHeartBeat, and the command numbers of main.go: the table of handlers
-- that the service gives to its delegate, and the service at work. A step is a message that a
-- client's goroutine hands to HandleMsg, or a task that runs; any task that was started may be next.
use cc_be_chat_test.Common.{
  ℕ, Bool, Option, none, some, List, [], ◌∷◌, ◌++◌, Outcome, ok, err, panic,
}
use cc_be_chat_test.Common.Integers.{ℤ}
use cc_be_chat_test.NetMsg.{NetMsg, body, clone}
use cc_be_chat_test.Delegate.Dispatch.{handle, handle_msg}
use cc_be_chat_test.Popular
use cc_be_chat_test.Badwords.{WordTree}
use cc_be_chat_test.Service.{
  Message, ChatState, Task, send, echoed, post, cmd_echo, cmd_auth, cmd_chat, on_auth, on_chat,
  run_task,
}

abbrev pub cmd_main : ℕ
cmd_main = 1

-- The libraries that the handlers call: json.Unmarshal into an AuthReq and into a ChatReq,
-- json.Marshal of a list of texts and of a message's value, the text of a login time, and what the
-- order of a map and an unstable sort make of the counts.
pub record Libraries : Type 0 where
  pub unmarshal_auth : List ℕ → Option (List ℕ)
  pub unmarshal_chat : List ℕ → Option (List ℕ)
  pub marshal : List (List ℕ) → Option (List ℕ)
  pub format : ℤ → List ℕ
  pub json : Message → Option (List ℕ)
  pub arrange : Popular.Words → Popular.Words

-- A handler, at a time and for a client: the new state, and the tasks it starts.
abbrev pub Handler : Type 0
Handler = ℕ → ℕ → NetMsg → ChatState → ChatState × List Task

-- `start` does not register it.
unfoldable pub on_heart_beat : Handler
on_heart_beat now client msg s = (post s (send client (echoed msg) ∷ []), [])

-- What a handler does with a body: a message without one makes it panic, which HandleMsg recovers.
unfoldable pub with_body :
    Outcome (Unit {0}) (List ℕ)
    → ChatState
    → (List ℕ → ChatState × List Task)
    → ChatState × List Task
with_body (ok content) s k = k content
with_body (err e) s k = (s, [])
with_body panic s k = (s, [])

unfoldable pub on_echo : Handler
on_echo now client msg s =
    with_body (body msg) s (λ content. (post s (send client (echoed (clone msg)) ∷ []), []))

module _ (lib : Libraries) where
  unfoldable pub auth_handler : Handler
  auth_handler now client msg s =
      with_body (body msg) s
        (λ content. (on_auth lib.json lib.unmarshal_auth lib.marshal now client content s, []))

  unfoldable pub chat_handler : Handler
  chat_handler now client msg s =
      with_body (body msg) s (λ content. on_chat lib.json lib.unmarshal_chat client content s)

  unfoldable pub handlers : List (ℕ × Handler)
  handlers =
      handle (handle (handle [] cmd_main cmd_echo on_echo) cmd_main cmd_auth auth_handler) cmd_main
        cmd_chat chat_handler

  unfoldable pub handled : Option Handler → Handler
  handled none now client msg s = (s, [])
  handled (some cb) now client msg s = cb now client msg s

  -- HandleMsg, for the delegate of a server that runs or does not.
  unfoldable pub serve : Bool → Handler
  serve running now client msg s = handled (handle_msg handlers (some running) msg) now client msg s

-- The state, and the tasks that were started and have not run.
pub record System : Type 0 where
  pub state : ChatState
  pub tasks : List Task

-- The program before the first client: the dictionary is read.
abbrev pub started : WordTree → System
started filter = record {
  state = record {
    service = record { clients = []; name_verb = [] };
    history = [];
    popular = [];
    filter = filter;
    sent = [];
  };
  tasks = [];
}

module _ (lib : Libraries) where
  unfoldable pub receive : Bool → ℕ → ℕ → NetMsg → System → System
  receive running now client msg y =
      let (s, new) = serve lib running now client msg y.state in
      record { state = s; tasks = y.tasks ++ new }

  unfoldable pub run_one : (ℕ → ℕ) → Task → List Task → ChatState → System
  run_one clock task others s = record {
    state = run_task lib.json lib.arrange lib.marshal lib.format clock task s;
    tasks = others;
  }

  pub data Served (filter : WordTree) : System → Type 0 where
    at_start : Served filter (started filter)
    message :
        (y : System) (running : Bool) (now client : ℕ) (msg : NetMsg)
        → Served filter y
        → Served filter (receive running now client msg y)
    task :
        (s : ChatState) (clock : ℕ → ℕ) (before : List Task) (t : Task) (others : List Task)
        → Served filter (record { state = s; tasks = before ++ (t ∷ others) })
        → Served filter (run_one clock t (before ++ others) s)
