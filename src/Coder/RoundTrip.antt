-- ===== src/Coder/RoundTrip.antt =====
-- One packet in either direction: what the sender encrypts, the receiver decrypts.
use cc_be_chat_test.Common.{
  ℕ, suc, ◌+◌, ◌≤◌, ◌≡◌, ◌≢◌, List, ◌∷◌, arith, length, length-Four, copy-nil,
}
use native.Mathlib.Decide.{ℕ_discrete}
use cc_be_chat_test.Coder.InStep.{InStep}
use cc_be_chat_test.Coder.Stamp.{IsPacket, stamp}
use cc_be_chat_test.Coder.Server.{ServerCoder}
use cc_be_chat_test.Coder.Client.{ClientCoder, first_key}
use cc_be_chat_test.Coder.Downstream.{body-Delivered}
use cc_be_chat_test.Coder.Downstream
use cc_be_chat_test.Coder.Upstream.{body-Mapped}
use cc_be_chat_test.Coder.Upstream
use cc_be_chat_test.Coder.Upstream.Later.{later-Delivered}
use cc_be_chat_test.Coder.Upstream.First.{with_key, first-Delivered}

module _ (random : ℕ) (cc : ClientCoder) (sc : ServerCoder) (r : InStep cc sc) (h0 h1 h2 h3 : ℕ)
    (body : List ℕ) where
  upstream_split :
      IsPacket (h0 ∷ h1 ∷ h2 ∷ h3 ∷ body)
      → Upstream.Delivered random cc sc
          (h0 ∷ h1 ∷ h2 ∷ h3 ∷ body)
          (stamp (h0 ∷ h1 ∷ h2 ∷ h3 ∷ body))
  upstream_split p =
      let long : 4 ≤ length body = omega (arith, p.has_head) in
      let fits : length body ≤ 16380 = omega (arith, p.fits) in
      let bytes = p.bytes.1.1.1.1 in
      let total : suc (suc (suc (suc (length body)))) ≡ length body + 4 = omega arith in
      elim (ℕ_discrete cc.dw_send_packet_count 0) [
        | yes e ↦
            let m =
              body-Mapped cc (with_key sc (first_key random)) body r.up_rounds r.up_fits bytes in
            rw (total, copy-nil) (first-Delivered random cc sc r e h0 h1 h2 h3 body long fits m)
        | no ne ↦
            let m = body-Mapped cc sc body r.up_rounds r.up_fits bytes in
            rw (total, copy-nil) (later-Delivered random cc sc r ne h0 h1 h2 h3 body long fits m)
      ]

module _ (cc : ClientCoder) (sc : ServerCoder) (r : InStep cc sc) (h0 h1 h2 h3 : ℕ)
    (body : List ℕ) where
  downstream_split :
      cc.dw_send_packet_count ≢ 0
      → IsPacket (h0 ∷ h1 ∷ h2 ∷ h3 ∷ body)
      → Downstream.Delivered sc cc (h0 ∷ h1 ∷ h2 ∷ h3 ∷ body) (stamp (h0 ∷ h1 ∷ h2 ∷ h3 ∷ body))
  downstream_split started p =
      let total : suc (suc (suc (suc (length body)))) ≡ length body + 4 = omega arith in
      rw (total, copy-nil)
        (body-Delivered sc cc r started h0 h1 h2 h3 body (omega (arith, p.has_head))
          (omega (arith, p.fits)) p.bytes.1.1.1.1)

-- Every packet that the client encrypts, whether its first with the key in it or a later one, is
-- decrypted by the server to the packet itself with its check code and size filled in, and the
-- coders are in step again.
pub upstream :
    (random : ℕ) (cc : ClientCoder) (sc : ServerCoder) (buffer : List ℕ)
    → InStep cc sc
    → IsPacket buffer
    → Upstream.Delivered random cc sc buffer (stamp buffer)
upstream random cc sc buffer r p =
    let f = length-Four buffer (omega (arith, p.has_head)) in
    rw f.split (upstream_split random cc sc r f.x0 f.x1 f.x2 f.x3 f.rest (rw f.split at p))

-- Once the client has sent a packet, every packet that the server encrypts is decrypted by the
-- client to the packet itself with its check code and size filled in, and the coders are in step
-- again.
pub downstream :
    (sc : ServerCoder) (cc : ClientCoder) (buffer : List ℕ)
    → InStep cc sc
    → cc.dw_send_packet_count ≢ 0
    → IsPacket buffer
    → Downstream.Delivered sc cc buffer (stamp buffer)
downstream sc cc buffer r started p =
    let f = length-Four buffer (omega (arith, p.has_head)) in
    rw f.split (downstream_split cc sc r f.x0 f.x1 f.x2 f.x3 f.rest started (rw f.split at p))
