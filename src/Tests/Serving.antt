-- ===== src/Tests/Serving.antt =====
-- The service at work on concrete messages: a login, a bad line, a clean line.
use cc_be_chat_test.Common.{
  ℕ, ◌≡◌, ◌≢◌, refl, inl, inr, true, some, List, [], ◌∷◌, All, arith, length,
}
use cc_be_chat_test.NetMsg.{NetMsg}
use cc_be_chat_test.NetMsg
use cc_be_chat_test.Badwords
use cc_be_chat_test.Badwords.{WordTree, star}
use cc_be_chat_test.Badwords.Masking.{search-NoneIn}
use cc_be_chat_test.Badwords.Occurrences.{NoneIn}
use cc_be_chat_test.Badwords.Dictionary.Lengths.{Member}
use cc_be_chat_test.Delegate.Dispatch
use cc_be_chat_test.History.{get_history}
use cc_be_chat_test.Service.{
  net_message, on_chat, on_auth, add_client, broadcast, post, send, chat_req, chat_rsp,
}
use cc_be_chat_test.Service.Serving.{
  Libraries, System, started, receive, at_start, message, serve, handled, handlers, with_body,
  auth_handler, chat_handler,
}
use cc_be_chat_test.TcpClient.Loops.Letters.{Letter}
use cc_be_chat_test.Service.Clean.{IsCleanTask, IsCleanSending}
use cc_be_chat_test.Service.Clean.Steps.{Served-IsClean}
use cc_be_chat_test.Tests.Chat.{ab_lines, ab_tree, init_ab}

plain_ab : (word : List ℕ) → Member word ab_lines → All (λ c. c ≢ star) word
plain_ab word (inl e) = rw (← e) ((λ z. omega (arith, z)), ((λ z. omega (arith, z)), tt))
plain_ab word (inr e) = elim e [ ]

abbrev libraries : Libraries
libraries = record {
  unmarshal_auth = some;
  unmarshal_chat = some;
  marshal = λ texts. some (length texts ∷ []);
  format = λ seconds. [];
  json = λ msg. some [];
  arrange = λ words. words;
}

-- A message with a sub command and a body of one or two characters.
abbrev packet : ℕ → List ℕ → NetMsg
packet sub content = record { buf = 137 ∷ 0 ∷ 10 ∷ 0 ∷ 1 ∷ 0 ∷ sub ∷ 0 ∷ content }

abbrev logged_in : System
logged_in = receive libraries true 100 7 (packet 2 (104 ∷ 105 ∷ [])) (started ab_tree)

abbrev bad_line : System
bad_line = receive libraries true 101 7 (packet 3 (97 ∷ 98 ∷ 99 ∷ [])) logged_in

abbrev clean_line : System
clean_line = receive libraries true 102 7 (packet 3 (97 ∷ 99 ∷ [])) bad_line

what_was_sent :
    clean_line.state.sent
    ≡ send 7 (chat_rsp (0 ∷ []))
      ∷ send 7 (chat_req (42 ∷ 42 ∷ 99 ∷ []))
      ∷ send 7 (chat_req (97 ∷ 99 ∷ []))
      ∷ []
unfolding receive serve handled handlers Dispatch.handle_msg Dispatch.handle Dispatch.command
    Dispatch.find Dispatch.insert NetMsg.main_cmd NetMsg.sub_cmd NetMsg.body NetMsg.get_uint16
    with_body auth_handler chat_handler on_auth on_chat add_client broadcast post Badwords.search
    Badwords.run Badwords.match_at Badwords.match_length Badwords.masked Badwords.count_word
    get_history net_message
what_was_sent = refl

Served-IsClean_example :
    All (NoneIn ab_lines) clean_line.state.history
    × All (IsCleanTask ab_lines) clean_line.tasks
    × All (IsCleanSending ab_lines clean_line.state.service) clean_line.state.sent
Served-IsClean_example = Served-IsClean ab_lines ab_tree libraries clean_line init_ab plain_ab (
    message bad_line true 102 7 (packet 3 (97 ∷ 99 ∷ [])) (
      message logged_in true 101 7 (packet 3 (97 ∷ 98 ∷ 99 ∷ []))
        (message (started ab_tree) true 100 7 (packet 2 (104 ∷ 105 ∷ [])) at_start)))

search-NoneIn_example : NoneIn ab_lines (Badwords.search ab_tree (97 ∷ 97 ∷ 98 ∷ []) (some star)).0
search-NoneIn_example = search-NoneIn ab_lines ab_tree (97 ∷ 97 ∷ 98 ∷ []) init_ab plain_ab

-- A login, a bad line, an echo, a heartbeat with no handler.
abbrev letters : List Letter
letters =
    record { main = 1; sub = 2; content = 104 ∷ 105 ∷ [] }
    ∷ record { main = 1; sub = 3; content = 97 ∷ 98 ∷ 99 ∷ [] }
    ∷ record { main = 1; sub = 1; content = 33 ∷ [] }
    ∷ record { main = 0; sub = 0; content = [] }
    ∷ []
