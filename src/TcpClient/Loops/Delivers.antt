-- ===== src/TcpClient/Loops/Delivers.antt =====
-- From one writer to the other side's reader: a list of messages, sent and read.
use mathlib.Core.List.{append-nil, append_assoc}
use cc_be_chat_test.Common.{
  ℕ, zero, suc, ◌+◌, ◌≡◌, ◌<◌, refl, map, ap₂, ap, sym, ◌∙◌, Bool, true, some, List, [], ◌∷◌, ◌++◌,
  length, All, ok, arith,
}
use cc_be_chat_test.Coder.Packet.{CoderError}
use cc_be_chat_test.Coder.InStep.{InStep}
use cc_be_chat_test.Coder.Client.{ClientCoder}
use cc_be_chat_test.Coder.Server.{ServerCoder}
use cc_be_chat_test.NetMsg.{NetMsg, bytes, new_net_msg, main_cmd, sub_cmd, body, data_to_buf}
use cc_be_chat_test.Delegate.{
  TcpClient, recv_msg, send_msg, default_max_pack_len, read_full, add_read_len,
}
use cc_be_chat_test.Delegate.Crossing.{client_coder, server_coder, write_all, message_crosses}
use cc_be_chat_test.TcpClient.Loops.{
  AsyncMsg, net_msg, stopping, read_on, reader, write_value, writer,
}
use cc_be_chat_test.TcpClient.Loops.Letters.{Letter, IsLetter, compose, opened, as_received}

abbrev pub always : ℕ → Bool × Bool
always round = (true, true)

abbrev pub open_conn : ℕ → Bool × (List ℕ → ℕ × Bool)
open_conn round = (true, write_all)

-- A connection with nothing left to read stops the reader.
at_end :
    (fuel round : ℕ) (server : TcpClient ServerCoder)
    → let ended =
        reader
          (some server_coder)
          default_max_pack_len
          always
          (suc fuel)
          round
          (record server { incoming = [] }) in
      (ended.0 ≡ []) × (ended.1.1 ≡ stopping)
unfolding reader recv_msg read_full add_read_len read_on
at_end fuel round server = (refl, refl)

module _ (random : ℕ) where
  -- What the writer sends, and what the other side's reader hands on.
  pub record Delivered (client : TcpClient ClientCoder) (server : TcpClient ServerCoder)
      (letters : List Letter) (fuel sent read : ℕ) : Type 0 where
    pub values : List AsyncMsg
    pub composed : compose letters ≡ ok values
    pub wire : List ℕ
    pub written :
        (writer
          (some (client_coder random))
          default_max_pack_len
          open_conn
          sent
          values
          client).outgoing
        ≡ client.outgoing ++ wire
    pub handed_on :
        opened
          (reader
            (some server_coder)
            default_max_pack_len
            always
            fuel
            read
            (record server { incoming = wire })).0
        ≡ ok letters
    pub exact :
        (reader
          (some server_coder)
          default_max_pack_len
          always
          fuel
          read
          (record server { incoming = wire })).0
        ≡ map as_received letters
    pub ended :
        (reader
          (some server_coder)
          default_max_pack_len
          always
          fuel
          read
          (record server { incoming = wire })).1.1
        ≡ stopping

module _ (random : ℕ) (client : TcpClient ClientCoder) (server : TcpClient ServerCoder)
    (l : Letter) where
  composed_more :
      (letters : List Letter) (msg : NetMsg) (values : List AsyncMsg)
      → new_net_msg {E = CoderError} l.main l.sub (some (bytes l.content)) ≡ ok msg
      → compose letters ≡ ok values
      → compose (l ∷ letters) ≡ ok (net_msg msg ∷ values)
  composed_more letters msg values made rest = rw (made, rest) refl

  opened_more :
      (letters : List Letter) (msg : NetMsg) (msgs : List NetMsg)
      → main_cmd {E = CoderError} msg ≡ ok l.main
      → sub_cmd {E = CoderError} msg ≡ ok l.sub
      → body {E = CoderError} msg ≡ ok l.content
      → opened msgs ≡ ok letters
      → opened (msg ∷ msgs) ≡ ok (l ∷ letters)
  opened_more letters msg msgs m s b rest = rw (m, s, b, rest) refl

-- One round of each loop.
value_written :
    (random : ℕ) (client : TcpClient ClientCoder) (msg : NetMsg) (client' : TcpClient ClientCoder)
    → send_msg (some (client_coder random)) default_max_pack_len true write_all msg client
      ≡ (client', ok tt)
    → write_value
        (some (client_coder random))
        default_max_pack_len
        true
        write_all
        (net_msg msg)
        client
      ≡ client'
unfolding write_value
value_written random client msg client' e = ap (λ r. r.0) e

round_read :
    (fuel round : ℕ) (server : TcpClient ServerCoder) (wire rest : List ℕ)
    (server' : TcpClient ServerCoder) (received : NetMsg)
    → ((others : List ℕ)
        → recv_msg
            (some server_coder)
            default_max_pack_len
            true
            true
            (record server { incoming = wire ++ others })
          ≡ (record server' { incoming = others }, ok received))
    → let after =
        reader
          (some server_coder)
          default_max_pack_len
          always
          fuel
          (round + 1)
          (record server' { incoming = rest }) in
      reader
        (some server_coder)
        default_max_pack_len
        always
        (suc fuel)
        round
        (record server { incoming = wire ++ rest })
      ≡ (received ∷ after.0, after.1)
unfolding reader read_on
round_read fuel round server wire rest server' received got =
    ap
      (λ r.
        read_on (some server_coder) default_max_pack_len r
          (reader (some server_coder) default_max_pack_len always fuel (round + 1)))
      (got rest)

-- A client and a server whose coders are in step: of any list of messages, each with two 16-bit
-- commands and a body of at most 16376 bytes, that the client's writer takes from its queue and sends,
-- the server's reader hands on all, in order, with the same commands and bodies, and then ends; it
-- needs one round more than there are messages.
pub writer-reader :
    (random : ℕ) (client : TcpClient ClientCoder) (server : TcpClient ServerCoder)
    (letters : List Letter) (fuel sent read : ℕ)
    → InStep client.coder server.coder
    → All IsLetter letters
    → length letters < fuel
    → Delivered random client server letters fuel sent read
unfolding writer data_to_buf
writer-reader random client server letters zero sent read r fit enough = absurd (omega arith)
writer-reader random client server [] (suc fuel) sent read r fit enough = record {
  values = [];
  composed = refl;
  wire = [];
  written = sym (append-nil client.outgoing);
  handed_on = ap opened (at_end fuel read server).0;
  exact = (at_end fuel read server).0;
  ended = (at_end fuel read server).1;
}
writer-reader random client server (l ∷ letters) (suc fuel) sent read r (fits, fit) enough =
    let (msg, made, c) =
      message_crosses random client server l.main l.sub (bytes l.content) l.content r fits.0
        fits.1.0 refl fits.1.1.0 fits.1.1.1 in
    let d =
      writer-reader random c.client' c.server' letters fuel (sent + 1) (read + 1) c.in_step fit
        (omega arith) in
    let one_read = round_read fuel read server c.wire d.wire c.server' c.received c.got in
    record {
      values = net_msg msg ∷ d.values;
      composed = composed_more random client server l letters msg d.values made d.composed;
      wire = c.wire ++ d.wire;
      written =
          ap
            (λ next.
              (writer (some (client_coder random)) default_max_pack_len open_conn (sent + 1)
                d.values next).outgoing)
            (value_written random client msg c.client' c.sent)
          ∙ d.written
          ∙ ap (λ out. out ++ d.wire) c.written
          ∙ append_assoc client.outgoing c.wire d.wire;
      handed_on =
          ap (λ a. opened a.0) one_read
          ∙ opened_more random client server l letters c.received _ c.main_kept c.sub_kept
              c.body_kept d.handed_on;
      exact = ap (λ a. a.0) one_read ∙ ap₂ ◌∷◌ c.exact d.exact;
      ended = ap (λ a. a.1.1) one_read ∙ d.ended;
    }
