-- ===== src/Delegate/Exchange.antt =====
-- A message from the client's program to the server's: NewNetMsg, SendMsg with a ClientCoder, the
-- connection, RecvMsg with a ServerCoder.
use cc_be_chat_test.Common.{ℕ, ◌≤◌, ◌<◌, ◌≡◌, refl, true, some, List, ◌++◌, length, IsByte, All, ok}
use cc_be_chat_test.Coder.Packet.{CoderError}
use cc_be_chat_test.Coder.InStep.{InStep}
use cc_be_chat_test.Coder.Client.{ClientCoder}
use cc_be_chat_test.Coder.Server.{ServerCoder}
use cc_be_chat_test.NetMsg.{NetMsg, Payload, data_to_buf, new_net_msg, main_cmd, sub_cmd, body}
use cc_be_chat_test.Delegate.{TcpClient, recv_msg, send_msg, default_max_pack_len}
use cc_be_chat_test.Delegate.Crossing.{client_coder, server_coder, write_all, message_crosses}

-- What SendMsg and RecvMsg make of the message with `content`, the server's connection having
-- `rest` behind it.
pub record Arrived (random : ℕ) (client : TcpClient ClientCoder) (server : TcpClient ServerCoder)
    (main sub : ℕ) (content rest : List ℕ) (msg : NetMsg) : Type 0 where
  pub wire : List ℕ
  pub client' : TcpClient ClientCoder
  pub server' : TcpClient ServerCoder
  pub received : NetMsg
  pub sent :
      send_msg (some (client_coder random)) default_max_pack_len true write_all msg client
      ≡ (client', ok tt)
  pub written : client'.outgoing ≡ client.outgoing ++ wire
  pub got :
      recv_msg
        (some server_coder)
        default_max_pack_len
        true
        true
        (record server { incoming = wire ++ rest })
      ≡ (server', ok received)
  pub left : server'.incoming ≡ rest
  pub main_kept : main_cmd {E = CoderError} received ≡ ok main
  pub sub_kept : sub_cmd {E = CoderError} received ≡ ok sub
  pub body_kept : body {E = CoderError} received ≡ ok content
  pub in_step : InStep client'.coder server'.coder

-- A client and a server whose coders are in step: the message that NewNetMsg makes of two 16-bit
-- commands and a body of at most 16376 bytes is sent without an error, and RecvMsg on the other
-- side, whatever bytes follow, gives a message with the same commands and body, leaves exactly the
-- bytes that follow, and keeps the coders in step.
pub message_arrives :
    (random : ℕ) (client : TcpClient ClientCoder) (server : TcpClient ServerCoder) (main sub : ℕ)
    (payload : Payload) (content rest : List ℕ)
    → InStep client.coder server.coder
    → main < 65536
    → sub < 65536
    → data_to_buf payload ≡ some content
    → length content ≤ 16376
    → All IsByte content
    → (msg : NetMsg) × (new_net_msg {E = CoderError} main sub (some payload) ≡ ok msg)
      × Arrived random client server main sub content rest msg
message_arrives random client server main sub payload content rest r hm hs e fits bytes =
    let (msg, made, c) =
      message_crosses random client server main sub payload content r hm hs e fits bytes in
    (
      msg,
      made,
      record {
        wire = c.wire;
        client' = c.client';
        server' = record c.server' { incoming = rest };
        received = c.received;
        sent = c.sent;
        written = c.written;
        got = c.got rest;
        left = refl;
        main_kept = c.main_kept;
        sub_kept = c.sub_kept;
        body_kept = c.body_kept;
        in_step = c.in_step;
      },
    )
