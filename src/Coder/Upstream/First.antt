-- ===== src/Coder/Upstream/First.antt =====
-- The first packet of the client, which carries the key of both directions.
use cc_be_chat_test.Common.{
  ℕ, ◌+◌, ◌≤◌, ◌<◌, ◌^◌, ◌≡◌, sym, ap, ◌∙◌, List, ◌∷◌, arith, byte0, byte1, byte2, byte3, length,
  u32, Four, length-Four,
}
use cc_be_chat_test.Coder.Buffers.{Opens, buffer-Opens}
use cc_be_chat_test.Coder.InStep.{InStep}
use cc_be_chat_test.Coder.Stamp.{check_code, sized-IsFrame}
use cc_be_chat_test.Coder.Server.{ServerCoder}
use cc_be_chat_test.Coder.Server
use cc_be_chat_test.Coder.Client.{ClientCoder, first_key}
use cc_be_chat_test.Coder.Client
use cc_be_chat_test.Coder.Client.FirstKey.{first_key-lt, first_key-ne-zero}
use cc_be_chat_test.Coder.Upstream.{Delivered, Mapped, moved-InStep}

-- The server with the key taken from the packet.
abbrev pub with_key : ServerCoder → ℕ → ServerCoder
with_key sc key = record sc { dw_recv_xor_key = key; dw_send_xor_key = key }

module _ (random : ℕ) (cc : ClientCoder) (sc : ServerCoder) (r : InStep cc sc)
    (first : cc.dw_send_packet_count ≡ 0) (h0 h1 h2 h3 : ℕ) (body : List ℕ) (long : 4 ≤ length body)
    (fits : length body ≤ 16380) (m : Mapped cc (with_key sc (first_key random)) body) where
  abbrev n : ℕ
  n = length body + 4

  abbrev code : ℕ
  code = check_code body

  abbrev key : ℕ
  key = first_key random

  abbrev keyed : ClientCoder
  keyed = record m.s { dw_send_xor_key = key; dw_recv_xor_key = key }

  same_count : m.s.dw_send_packet_count ≡ cc.dw_send_packet_count
  same_count = ap (λ (x : ClientCoder). x.dw_send_packet_count) m.mid.2

  first-InStep :
      (next : ℕ)
      → next < 2 ^ 32
      → InStep
          (record keyed {
            dw_send_packet_count = u32 (m.s.dw_send_packet_count + 1);
            dw_send_xor_key = next;
          })
          (record m.t {
            dw_recv_packet_count = u32 (m.t.dw_recv_packet_count + 1);
            dw_recv_xor_key = next;
          })
  first-InStep next next_fits =
      let (rounds, round_fits, es, et) = m.mid in
      let down = ap (λ (x : ServerCoder). x.cb_send_round) et in
      let recv = ap (λ (x : ClientCoder). x.cb_recv_round) es in
      let count = ap (λ (x : ServerCoder). x.dw_recv_packet_count) et in
      let send_key = ap (λ (x : ServerCoder). x.dw_send_xor_key) et in
      moved-InStep keyed m.t next (rounds, round_fits)
        (down ∙ r.down_rounds ∙ sym recv, rw down r.down_fits) (same_count ∙ r.counts ∙ sym count)
        (
          send_key,
          rw send_key (first_key-lt random),
          λ z. first_key-ne-zero random (sym send_key ∙ z),
        )
        next_fits

  module _ (o : Opens h0 code (byte0 n) (byte1 n) m.mapped key) (f : Four o.sealed) where
    first_opened :
        Delivered random cc sc (h0 ∷ h1 ∷ h2 ∷ h3 ∷ body) (h0 ∷ code ∷ byte0 n ∷ byte1 n ∷ body)
    first_opened =
        let none_yet : m.s.dw_send_packet_count ≡ 0 = same_count ∙ first in
        let size = ap length f.split in
        let tail =
          f.x0 ∷ f.x1 ∷ f.x2 ∷ f.x3 ∷ byte0 key ∷ byte1 key ∷ byte2 key ∷ byte3 key ∷ f.rest in
        let sized : n + 4 ≡ length tail + 4 = omega (arith, o.same_length, m.same_length, size) in
        let fits_tail : length tail ≤ 16384 = omega arith in
        record {
          wire = h0 ∷ code ∷ byte0 (n + 4) ∷ byte1 (n + 4) ∷ tail;
          cc' = record keyed {
            dw_send_packet_count = u32 (m.s.dw_send_packet_count + 1);
            dw_send_xor_key = o.key';
          };
          sc' = record m.t {
            dw_recv_packet_count = u32 (m.t.dw_recv_packet_count + 1);
            dw_recv_xor_key = o.key';
          };
          sent =
              Client.Shape.encrypt_shape h0 h1 h2 h3 body long fits random cc
              ∙ rw
                  (
                    m.sent_loop,
                    Client.Shape.choose_key_first random m.s none_yet,
                    m.code_sent,
                    o.encrypted,
                    f.split,
                  )
                  (Client.Shape.finish_encrypt_first keyed h0 code n f.x0 f.x1 f.x2 f.x3 f.rest
                    o.key' none_yet (omega arith));
          got =
              Server.Shape.decrypt_shape h0 code (n + 4) tail (omega arith) fits_tail sized sc
              ∙ rw
                  (Server.Shape.accept_first sc h0 code f.x0 f.x1 f.x2 f.x3 n key f.rest
                    (sym r.counts ∙ first) (omega arith) (first_key-lt random))
                  (ap (Server.finish_decrypt (with_key sc key)) (rw f.split at o.decrypted)
                    ∙ Server.Shape.finish_decrypt_lem (with_key sc key) m.t h0 code (byte0 n)
                        (byte1 n) o.key' m.mapped body m.got_loop);
          in_step = first-InStep o.key' o.next_fits;
          framed = sized-IsFrame h0 code (n + 4) tail sized (omega arith) fits_tail;
          counted = ap (λ (c : ℕ). u32 (c + 1)) same_count;
        }

  pub first-Delivered :
      Delivered random cc sc (h0 ∷ h1 ∷ h2 ∷ h3 ∷ body) (h0 ∷ code ∷ byte0 n ∷ byte1 n ∷ body)
  first-Delivered =
      let o =
        buffer-Opens h0 code (byte0 n) (byte1 n) m.mapped (omega (arith, m.same_length)) key m.bytes
          (first_key-lt random) in
      first_opened o (length-Four o.sealed (omega (arith, o.same_length, m.same_length)))
