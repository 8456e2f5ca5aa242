-- ===== src/Coder/Session.antt =====
-- A conversation: packets in both directions, each read before the next is sent.
use cc_be_chat_test.Common.{
  ℕ, ◌+◌, ◌<◌, ◌^◌, ◌≡◌, ◌≢◌, refl, ◌∙◌, List, [], ◌∷◌, arith, Outcome, ok, map, ◌>>=◌,
}
use cc_be_chat_test.Coder.Packet.{CoderError}
use cc_be_chat_test.Coder.InStep.{InStep, new-InStep}
use cc_be_chat_test.Coder.Stamp.{IsPacket, stamp}
use cc_be_chat_test.Coder.Server.{ServerCoder, new_server_coder}
use cc_be_chat_test.Coder.Server
use cc_be_chat_test.Coder.Client.{ClientCoder, new_client_coder}
use cc_be_chat_test.Coder.Client
use cc_be_chat_test.Coder.RoundTrip.{upstream, downstream}

-- A packet of the client, with the random number at hand, or of the server.
pub data Send : Type 0 where
  up : ℕ → List ℕ → Send
  down : List ℕ → Send

abbrev pub packet : Send → List ℕ
packet (up random buffer) = buffer
packet (down buffer) = buffer

-- What the receivers get, in order; the first error ends the conversation.
unfoldable pub converse : ClientCoder → ServerCoder → List Send → Outcome CoderError (List (List ℕ))
converse cc sc [] = ok []
converse cc sc (up random buffer ∷ sends) =
    let (cc', sent) = Client.encrypt random cc buffer in
    do
      wire ← sent
      let (sc', got) = Server.decrypt sc wire
      received ← got
      rest ← converse cc' sc' sends
      ok (received ∷ rest)
converse cc sc (down buffer ∷ sends) =
    let (sc', sent) = Server.encrypt sc buffer in
    do
      wire ← sent
      let (cc', got) = Client.decrypt cc wire
      received ← got
      rest ← converse cc' sc' sends
      ok (received ∷ rest)

-- The client has sent `n` packets: it speaks first, and sends fewer than 2 ^ 32 in all.
abbrev pub IsConversation : ℕ → List Send → Type 0
IsConversation n [] = Unit {0}
IsConversation n (up random buffer ∷ sends) =
    IsPacket buffer × (n + 1 < 2 ^ 32) × IsConversation (n + 1) sends
IsConversation n (down buffer ∷ sends) = IsPacket buffer × (0 < n) × IsConversation n sends

converse_from :
    (n : ℕ) (cc : ClientCoder) (sc : ServerCoder) (sends : List Send)
    → cc.dw_send_packet_count ≡ n
    → InStep cc sc
    → IsConversation n sends
    → converse cc sc sends ≡ ok (map (λ s. stamp (packet s)) sends)
unfolding converse
converse_from n cc sc [] e r h = refl
converse_from n cc sc (up random buffer ∷ sends) e r (p, few, h) =
    let d = upstream random cc sc buffer r p in
    let counted : d.cc'.dw_send_packet_count ≡ n + 1 = omega (arith, d.counted, e) in
    rw (d.sent, d.got, converse_from (n + 1) d.cc' d.sc' sends counted d.in_step h)
converse_from n cc sc (down buffer ∷ sends) e r (p, some_sent, h) =
    let started : cc.dw_send_packet_count ≢ 0 = omega arith in
    let d = downstream sc cc buffer r started p in
    let counted : d.cc'.dw_send_packet_count ≡ n = d.counted ∙ e in
    rw (d.sent, d.got, converse_from n d.cc' d.sc' sends counted d.in_step h)

-- Between fresh coders, every conversation in which the client speaks first, sends fewer than
-- 2 ^ 32 packets, and all packets have a head and fit, ends with every packet received in order,
-- each the packet that was sent with its check code and size filled in.
pub converse_delivers :
    (sends : List Send)
    → IsConversation 0 sends
    → converse new_client_coder new_server_coder sends ≡ ok (map (λ s. stamp (packet s)) sends)
unfolding new_client_coder
converse_delivers sends h =
    converse_from 0 new_client_coder new_server_coder sends refl new-InStep h
