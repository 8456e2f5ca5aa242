-- ===== src/Coder/Upstream/Later.antt =====
-- A packet of the client after its first.
use cc_be_chat_test.Common.{
  ℕ, ◌+◌, ◌^◌, ◌≤◌, ◌<◌, ◌≡◌, ◌≢◌, sym, ap, ◌∙◌, List, ◌∷◌, arith, byte0, byte1, length, u32,
}
use cc_be_chat_test.Coder.Buffers.{Opens, buffer-Opens}
use cc_be_chat_test.Coder.InStep.{InStep}
use cc_be_chat_test.Coder.Stamp.{check_code, sized-IsFrame}
use cc_be_chat_test.Coder.Packet.{decrypt_buffer}
use cc_be_chat_test.Coder.Server.{ServerCoder}
use cc_be_chat_test.Coder.Server
use cc_be_chat_test.Coder.Client.{ClientCoder}
use cc_be_chat_test.Coder.Client
use cc_be_chat_test.Coder.Upstream.{Delivered, Mapped, moved-InStep}

module _ (random : ℕ) (cc : ClientCoder) (sc : ServerCoder) (r : InStep cc sc)
    (started : cc.dw_send_packet_count ≢ 0) (h0 h1 h2 h3 : ℕ) (body : List ℕ)
    (long : 4 ≤ length body) (fits : length body ≤ 16380) (m : Mapped cc sc body) where
  abbrev n : ℕ
  n = length body + 4

  abbrev code : ℕ
  code = check_code body

  same_count : m.s.dw_send_packet_count ≡ cc.dw_send_packet_count
  same_count = ap (λ (x : ClientCoder). x.dw_send_packet_count) m.mid.2

  same_key : m.s.dw_send_xor_key ≡ cc.dw_send_xor_key
  same_key = ap (λ (x : ClientCoder). x.dw_send_xor_key) m.mid.2

  later-InStep :
      (key : ℕ)
      → key < 2 ^ 32
      → InStep
          (record m.s {
            dw_send_packet_count = u32 (m.s.dw_send_packet_count + 1);
            dw_send_xor_key = key;
          })
          (record m.t {
            dw_recv_packet_count = u32 (m.t.dw_recv_packet_count + 1);
            dw_recv_xor_key = key;
          })
  later-InStep key key_fits =
      let (rounds, round_fits, es, et) = m.mid in
      let down = ap (λ (x : ServerCoder). x.cb_send_round) et in
      let recv = ap (λ (x : ClientCoder). x.cb_recv_round) es in
      let count = ap (λ (x : ServerCoder). x.dw_recv_packet_count) et in
      let send_key = ap (λ (x : ServerCoder). x.dw_send_xor_key) et in
      let recv_key = ap (λ (x : ClientCoder). x.dw_recv_xor_key) es in
      let k = r.down_keys started in
      let kf = r.down_key_fits started in
      let kn = r.down_has_key started in
      moved-InStep m.s m.t key (rounds, round_fits)
        (down ∙ r.down_rounds ∙ sym recv, rw down r.down_fits) (same_count ∙ r.counts ∙ sym count)
        (send_key ∙ k ∙ sym recv_key, rw send_key kf, λ z. kn (sym send_key ∙ z)) key_fits

  module _ (o : Opens h0 code (byte0 n) (byte1 n) m.mapped m.s.dw_send_xor_key) where
    later_opened :
        Delivered random cc sc (h0 ∷ h1 ∷ h2 ∷ h3 ∷ body) (h0 ∷ code ∷ byte0 n ∷ byte1 n ∷ body)
    later_opened =
        let wire = h0 ∷ code ∷ byte0 n ∷ byte1 n ∷ o.sealed in
        let s_started : m.s.dw_send_packet_count ≢ 0 = λ z. started (sym same_count ∙ z) in
        let reading : sc.dw_recv_packet_count ≢ 0 = λ z. started (r.counts ∙ z) in
        let sized : n ≡ length o.sealed + 4 = omega (arith, o.same_length, m.same_length) in
        let long_sealed : 4 ≤ length o.sealed = omega (arith, o.same_length, m.same_length) in
        let fits_sealed : length o.sealed ≤ 16384 = omega (arith, o.same_length, m.same_length) in
        record {
          wire = wire;
          cc' = record m.s {
            dw_send_packet_count = u32 (m.s.dw_send_packet_count + 1);
            dw_send_xor_key = o.key';
          };
          sc' = record m.t {
            dw_recv_packet_count = u32 (m.t.dw_recv_packet_count + 1);
            dw_recv_xor_key = o.key';
          };
          sent =
              Client.Shape.encrypt_shape h0 h1 h2 h3 body long fits random cc
              ∙ rw
                  (
                    m.sent_loop,
                    Client.Shape.choose_key_later random m.s s_started,
                    m.code_sent,
                    o.encrypted,
                  )
                  (Client.Shape.finish_encrypt_later m.s wire o.key' s_started);
          got =
              Server.Shape.decrypt_shape h0 code n o.sealed long_sealed fits_sealed sized sc
              ∙ rw
                  (Server.Shape.accept_later h0 code n o.sealed long_sealed fits_sealed sized sc
                    reading)
                  (ap (λ (k : ℕ). Server.finish_decrypt sc (decrypt_buffer wire k))
                      (sym (r.up_keys started) ∙ sym same_key)
                    ∙ ap (Server.finish_decrypt sc) o.decrypted
                    ∙ Server.Shape.finish_decrypt_lem sc m.t h0 code (byte0 n) (byte1 n) o.key'
                        m.mapped body m.got_loop);
          in_step = later-InStep o.key' o.next_fits;
          framed = sized-IsFrame h0 code n o.sealed sized long_sealed fits_sealed;
          counted = ap (λ (c : ℕ). u32 (c + 1)) same_count;
        }

  pub later-Delivered :
      Delivered random cc sc (h0 ∷ h1 ∷ h2 ∷ h3 ∷ body) (h0 ∷ code ∷ byte0 n ∷ byte1 n ∷ body)
  later-Delivered = later_opened (
      buffer-Opens h0 code (byte0 n) (byte1 n) m.mapped (omega (arith, m.same_length))
        m.s.dw_send_xor_key m.bytes (rw same_key (r.up_key_fits started)))
