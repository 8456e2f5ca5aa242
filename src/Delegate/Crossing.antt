-- ===== src/Delegate/Crossing.antt =====
-- The steps of an exchange: a message is encrypted and sent, and read and decrypted on the other side,
-- whatever bytes follow it.
use cc_be_chat_test.Common.{
  ℕ, suc, ◌+◌, ◌-◌, ◌≤◌, ◌<◌, ◌≡◌, refl, ap, ◌∙◌, Bool, true, false, some, List, ◌++◌, length,
  take-all, ltb, arith, IsByte, All, ok, err, panic, ◌>>=◌, byte0, byte1, le16,
}
use cc_be_chat_test.Coder.Packet.{CoderError}
use cc_be_chat_test.Coder.InStep.{InStep}
use cc_be_chat_test.Coder.Stamp.{IsFrame, stamp}
use cc_be_chat_test.Coder.Client.{ClientCoder}
use cc_be_chat_test.Coder.Client
use cc_be_chat_test.Coder.Server.{ServerCoder}
use cc_be_chat_test.Coder.Server
use cc_be_chat_test.Coder.RoundTrip.{upstream}
use cc_be_chat_test.NetMsg.{
  NetMsg, Payload, data_to_buf, new_net_msg, main_cmd, sub_cmd, body, get_uint16,
}
use cc_be_chat_test.NetMsg
use cc_be_chat_test.NetMsg.Laws.{message, new_net_msg_buf, message-IsPacket}
use cc_be_chat_test.Delegate.{
  TcpClient, recv_msg, recv_decrypt, recv_decrypted, send_msg, send_encrypted, add_write_len,
  default_max_pack_len,
}
use cc_be_chat_test.Delegate.Framing.{recv_frame, after}

-- The coders as tcp uses them. `random` is what `rand.Int31` gives.
abbrev pub client_coder : ℕ → NetMsg.Coder CoderError ClientCoder
client_coder random = record { encrypt = Client.encrypt random; decrypt = Client.decrypt }

abbrev pub server_coder : NetMsg.Coder CoderError ServerCoder
server_coder = record { encrypt = Server.encrypt; decrypt = Server.decrypt }

-- A connection that takes all it is given.
abbrev pub write_all : List ℕ → ℕ × Bool
write_all bytes = (length bytes, true)

encrypted :
    (random : ℕ) (cc : ClientCoder) (msg : NetMsg) (cc' : ClientCoder) (wire : List ℕ)
    → Client.encrypt random cc msg.buf ≡ (cc', ok wire)
    → NetMsg.encrypt (some (client_coder random)) cc msg ≡ (cc', ok wire)
unfolding NetMsg.encrypt
encrypted random cc msg cc' wire e =
    ap (λ r. (r.0, elim r.1 [ ok bytes ↦ ok bytes | err e ↦ ok msg.buf | panic ↦ panic ])) e

decrypted :
    (sc : ServerCoder) (wire : List ℕ) (sc' : ServerCoder) (expected : List ℕ)
    → Server.decrypt sc wire ≡ (sc', ok expected)
    → NetMsg.decrypt (some server_coder) sc (record { buf = wire })
      ≡ (sc', ok (record { buf = expected }))
unfolding NetMsg.decrypt
decrypted sc wire sc' expected e = ap (λ r. (r.0, r.1 >>= λ bytes. ok (record { buf = bytes }))) e

module _ (random : ℕ) (client : TcpClient ClientCoder) (server : TcpClient ServerCoder) where
  sends :
      (msg : NetMsg) (cc' : ClientCoder) (wire : List ℕ)
      → Client.encrypt random client.coder msg.buf ≡ (cc', ok wire)
      → 8 ≤ length wire
      → length wire ≤ 16388
      → send_msg (some (client_coder random)) default_max_pack_len true write_all msg client ≡ (
        record client {
          coder = cc';
          outgoing = client.outgoing ++ wire;
          write_len = client.write_len + length wire;
        },
        ok tt,
      )
  unfolding send_msg send_encrypted add_write_len
  sends msg cc' wire e has_head fits =
      let not_long : ltb 1048576 (length wire) ≡ false = ground arith in
      let not_short : ltb (length wire) 8 ≡ false = ground arith in
      rw
        (
          encrypted random client.coder msg cc' wire e,
          not_long,
          not_short,
          take-all (length wire) wire (omega arith),
        )
        refl

  receives :
      (sc' : ServerCoder) (wire rest expected : List ℕ)
      → Server.decrypt server.coder wire ≡ (sc', ok expected)
      → IsFrame 0x89 wire
      → recv_msg
          (some server_coder)
          default_max_pack_len
          true
          true
          (record server { incoming = wire ++ rest })
        ≡ (
          record server {
            coder = sc';
            incoming = rest;
            read_len = server.read_len + 4 + (length wire - 8);
          },
          ok (record { buf = expected }),
        )
  unfolding recv_decrypt recv_decrypted
  receives sc' wire rest expected e frame =
      let read = after (some server_coder) default_max_pack_len server (length wire - 8) rest in
      recv_frame (some server_coder) default_max_pack_len server wire rest frame
        (omega (arith, frame.fits))
      ∙ ap (recv_decrypted (some server_coder) default_max_pack_len read)
          (decrypted server.coder wire sc' expected e)

module _ (main sub : ℕ) (content : List ℕ) where
  pub main_kept :
      {E : Type 0}
      → main < 65536
      → main_cmd {E = E} (record { buf = stamp (message main sub content) }) ≡ ok main
  unfolding main_cmd get_uint16
  main_kept h = let e : le16 (byte0 main) (byte1 main) ≡ main = omega arith in ap ok e

  pub sub_kept :
      {E : Type 0}
      → sub < 65536
      → sub_cmd {E = E} (record { buf = stamp (message main sub content) }) ≡ ok sub
  unfolding sub_cmd get_uint16
  sub_kept h = let e : le16 (byte0 sub) (byte1 sub) ≡ sub = omega arith in ap ok e

  pub body_kept :
      {E : Type 0} → body {E = E} (record { buf = stamp (message main sub content) }) ≡ ok content
  unfolding body
  body_kept =
      let m = length content in
      let has_head : ltb (suc (suc (suc (suc (suc (suc (suc (suc m)))))))) 8 ≡ false =
        ground arith in
      rw (has_head) refl

-- The same for whatever bytes follow: what is sent and the state of the coders do not depend on them.
pub record Crossed (random : ℕ) (client : TcpClient ClientCoder) (server : TcpClient ServerCoder)
    (main sub : ℕ) (content : List ℕ) (msg : NetMsg) : Type 0 where
  pub wire : List ℕ
  pub client' : TcpClient ClientCoder
  pub server' : TcpClient ServerCoder
  pub received : NetMsg
  pub sent :
      send_msg (some (client_coder random)) default_max_pack_len true write_all msg client
      ≡ (client', ok tt)
  pub written : client'.outgoing ≡ client.outgoing ++ wire
  pub got :
      (rest : List ℕ)
      → recv_msg
          (some server_coder)
          default_max_pack_len
          true
          true
          (record server { incoming = wire ++ rest })
        ≡ (record server' { incoming = rest }, ok received)
  pub exact : received ≡ record { buf = stamp (message main sub content) }
  pub main_kept : main_cmd {E = CoderError} received ≡ ok main
  pub sub_kept : sub_cmd {E = CoderError} received ≡ ok sub
  pub body_kept : body {E = CoderError} received ≡ ok content
  pub in_step : InStep client'.coder server'.coder

pub message_crosses :
    (random : ℕ) (client : TcpClient ClientCoder) (server : TcpClient ServerCoder) (main sub : ℕ)
    (payload : Payload) (content : List ℕ)
    → InStep client.coder server.coder
    → main < 65536
    → sub < 65536
    → data_to_buf payload ≡ some content
    → length content ≤ 16376
    → All IsByte content
    → (msg : NetMsg) × (new_net_msg {E = CoderError} main sub (some payload) ≡ ok msg)
      × Crossed random client server main sub content msg
message_crosses random client server main sub payload content r hm hs e fits bytes =
    let buffer = message main sub content in
    let d =
      upstream random client.coder server.coder buffer r
        (message-IsPacket main sub content fits bytes) in
    (
      record { buf = buffer },
      new_net_msg_buf main sub content fits payload e,
      record {
        wire = d.wire;
        client' = record client {
          coder = d.cc';
          outgoing = client.outgoing ++ d.wire;
          write_len = client.write_len + length d.wire;
        };
        server' = record server {
          coder = d.sc';
          read_len = server.read_len + 4 + (length d.wire - 8);
        };
        received = record { buf = stamp buffer };
        sent =
            sends random client server (record { buf = buffer }) d.cc' d.wire d.sent
              (omega (arith, d.framed.has_head)) (omega (arith, d.framed.fits));
        written = refl;
        got = λ rest. receives random client server d.sc' d.wire rest (stamp buffer) d.got d.framed;
        exact = refl;
        main_kept = main_kept main sub content hm;
        sub_kept = sub_kept main sub content hs;
        body_kept = body_kept main sub content;
        in_step = d.in_step;
      },
    )
