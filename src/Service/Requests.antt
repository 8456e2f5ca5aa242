-- ===== src/Service/Requests.antt =====
-- The service behind the network: what the requests of a client do to it, said without bytes, coders
-- and tables, and that this is what the server does with the bytes that the client sends.
use cc_be_chat_test.Common.{
  ℕ, ◌+◌, ◌≡◌, true, Option, none, some, List, [], ◌∷◌, ◌++◌, ◌==◌, if◌then◌else◌, ok,
}
use cc_be_chat_test.Coder.InStep.{InStep}
use cc_be_chat_test.Coder.Client.{ClientCoder}
use cc_be_chat_test.Coder.Server.{ServerCoder}
use cc_be_chat_test.NetMsg.{NetMsg}
use cc_be_chat_test.Delegate.{TcpClient, default_max_pack_len}
use cc_be_chat_test.Delegate.Crossing.{client_coder, server_coder}
use cc_be_chat_test.TcpClient.Loops.{AsyncMsg, reader, writer, stopping}
use cc_be_chat_test.TcpClient.Loops.Letters.{Letter, compose, as_received}
use cc_be_chat_test.TcpClient.Loops.Delivers.{always, open_conn}
use cc_be_chat_test.Service.{
  ChatState, Task, send, echoed, post, cmd_auth, cmd_chat, cmd_echo, on_auth, on_chat,
}
use cc_be_chat_test.Service.Serving.{
  Libraries, Handler, System, cmd_main, on_echo, auth_handler, chat_handler, receive,
}

module _ (lib : Libraries) where
  -- An echo, a login or a chat line; any other request does nothing.
  unfoldable pub request : ℕ → ℕ → Letter → ChatState → ChatState × List Task
  request now client l s =
      if l.main == cmd_main
      then (if l.sub == cmd_echo
          then (post s (send client (echoed (as_received l)) ∷ []), [])
          else if l.sub == cmd_auth
          then (on_auth lib.json lib.unmarshal_auth lib.marshal now client l.content s, [])
          else if l.sub == cmd_chat
          then on_chat lib.json lib.unmarshal_chat client l.content s
          else (s, []))
      else (s, [])

  -- The requests of a client, one after the other; `times` is when each of them arrives.
  unfoldable pub requests : (ℕ → ℕ) → ℕ → ℕ → List Letter → System → System
  requests times client round [] y = y
  requests times client round (l ∷ letters) y =
      let (s, new) = request (times round) client l y.state in
      requests times client (round + 1) letters (record { state = s; tasks = y.tasks ++ new })

  -- HandleMsg of each message that the reader hands on.
  unfoldable pub receive_all : (ℕ → ℕ) → ℕ → ℕ → List NetMsg → System → System
  receive_all times client round [] y = y
  receive_all times client round (msg ∷ msgs) y =
      receive_all times client (round + 1) msgs (receive lib true (times round) client msg y)

  -- The handler for two commands.
  chosen : ℕ → ℕ → Option Handler
  chosen main sub =
      if main == cmd_main
      then (if sub == cmd_echo
          then some on_echo
          else if sub == cmd_auth
          then some (auth_handler lib)
          else if sub == cmd_chat
          then some (chat_handler lib)
          else none)
      else none

-- What the server's reader and HandleMsg make of the bytes that a client's writer sends.
pub record Carried (random : ℕ) (cc : TcpClient ClientCoder) (sc : TcpClient ServerCoder)
    (lib : Libraries) (times : ℕ → ℕ) (client : ℕ) (letters : List Letter) (fuel : ℕ) (y : System)
    : Type 0 where
  pub values : List AsyncMsg
  pub composed : compose letters ≡ ok values
  pub wire : List ℕ
  pub written :
      (writer (some (client_coder random)) default_max_pack_len open_conn 0 values cc).outgoing
      ≡ cc.outgoing ++ wire
  pub served :
      receive_all lib times client 0
        (reader
          (some server_coder)
          default_max_pack_len
          always
          fuel
          0
          (record sc { incoming = wire })).0
        y
      ≡ requests lib times client 0 letters y
  pub ended :
      (reader
        (some server_coder)
        default_max_pack_len
        always
        fuel
        0
        (record sc { incoming = wire })).1.1
      ≡ stopping
