-- ===== src/Coder/Downstream.antt =====
-- From the server to the client: ServerCoder.Encrypt and ClientCoder.Decrypt.
use cc_be_chat_test.Common.{
  ℕ, ◌+◌, ◌-◌, ◌≤◌, ◌<◌, ◌^◌, ◌≡◌, ◌≢◌, refl, sym, ap, ◌∙◌, List, [], ◌∷◌, ◌++◌, arith, IsByte, All,
  u8, u32, byte0, byte1, get_or, length, ok,
}
use cc_be_chat_test.Coder.ByteMaps.{maps_inverse, mapped_back}
use cc_be_chat_test.Coder.Buffers.{buffer-Opens}
use cc_be_chat_test.Coder.Loops.{send_loop, recv_loop}
use cc_be_chat_test.Coder.Loops.Laws.{sum, send_loop-check, recv_loop-check, loops_inverse}
use cc_be_chat_test.Coder.InStep.{InStep}
use cc_be_chat_test.Coder.Stamp.{
  IsFrame, sized-IsFrame, check_code, check_code_lem, check_code_cancels,
}
use cc_be_chat_test.Coder.Packet.{decrypt_buffer}
use cc_be_chat_test.Coder.Server.{ServerCoder}
use cc_be_chat_test.Coder.Server
use cc_be_chat_test.Coder.Client.{ClientCoder}
use cc_be_chat_test.Coder.Client

-- The two coders in the middle of a packet, which moves only the rounds.
abbrev MidPacket : ServerCoder → ClientCoder → ServerCoder → ClientCoder → Type 0
MidPacket sc cc s t =
    (s.cb_send_round ≡ t.cb_recv_round)
    × (s.cb_send_round < 256)
    × (s ≡ record sc { cb_send_round = s.cb_send_round })
    × (t ≡ record cc { cb_recv_round = t.cb_recv_round })

one_step :
    (sc : ServerCoder) (cc : ClientCoder) (s : ServerCoder) (t : ClientCoder) (b : ℕ)
    → MidPacket sc cc s t
    → IsByte b
    → IsByte (Server.map_send_byte s b).0
      × ((Client.map_recv_byte t (Server.map_send_byte s b).0).0 ≡ b)
      × MidPacket sc cc
          (Server.map_send_byte s b).1
          (Client.map_recv_byte t (Server.map_send_byte s b).0).1
unfolding Server.map_send_byte Client.map_recv_byte
one_step sc cc s t b (e, fits, es, et) h =
    let back = mapped_back b s.cb_send_round h fits in
    (
      (maps_inverse (u8 (b + s.cb_send_round)) (omega arith)).0,
      rw (← e) back,
      (
        omega arith,
        omega arith,
        ap (λ (x : ServerCoder). record x { cb_send_round = u8 (s.cb_send_round + 3) }) es,
        ap (λ (x : ClientCoder). record x { cb_recv_round = u8 (t.cb_recv_round + 3) }) et,
      ),
    )

-- A packet is sent and read: the client gets `expected`, and the coders stay in step.
pub record Delivered (sc : ServerCoder) (cc : ClientCoder) (packet expected : List ℕ) : Type 0 where
  pub wire : List ℕ
  pub sc' : ServerCoder
  pub cc' : ClientCoder
  pub sent : Server.encrypt sc packet ≡ (sc', ok wire)
  pub got : Client.decrypt cc wire ≡ (cc', ok expected)
  pub in_step : InStep cc' sc'
  pub framed : IsFrame (get_or packet 0 0) wire
  pub counted : cc'.dw_send_packet_count ≡ cc.dw_send_packet_count

-- The states after the packet: the other direction is as it was.
body-InStep :
    {sc : ServerCoder} {cc : ClientCoder}
    → InStep cc sc
    → (s : ServerCoder) (t : ClientCoder) → MidPacket sc cc s t
    → (key : ℕ) → key < 2 ^ 32
    → key ≢ 0
    → InStep
        (record t {
          dw_recv_packet_count = u32 (t.dw_recv_packet_count + 1);
          dw_recv_xor_key = key;
        })
        (record s {
          dw_send_packet_count = u32 (s.dw_send_packet_count + 1);
          dw_send_xor_key = key;
        })
body-InStep {sc} {cc} r s t (rounds, fits, es, et) key key_fits nonzero =
    let same_count : t.dw_send_packet_count ≡ cc.dw_send_packet_count =
      ap (λ (x : ClientCoder). x.dw_send_packet_count) et in
    let same_key : t.dw_send_xor_key ≡ cc.dw_send_xor_key =
      ap (λ (x : ClientCoder). x.dw_send_xor_key) et in
    let same_recv : s.dw_recv_xor_key ≡ sc.dw_recv_xor_key =
      ap (λ (x : ServerCoder). x.dw_recv_xor_key) es in
    let same_recv_count : s.dw_recv_packet_count ≡ sc.dw_recv_packet_count =
      ap (λ (x : ServerCoder). x.dw_recv_packet_count) es in
    let same_round : t.cb_send_round ≡ cc.cb_send_round =
      ap (λ (x : ClientCoder). x.cb_send_round) et in
    let same_recv_round : s.cb_recv_round ≡ sc.cb_recv_round =
      ap (λ (x : ServerCoder). x.cb_recv_round) es in
    let rc = r.counts in
    let rr = r.up_rounds in
    let rf = r.up_fits in
    record {
      up_rounds = omega (arith, same_round, same_recv_round, rr);
      up_fits = omega (arith, same_round, rf);
      down_rounds = rounds;
      down_fits = fits;
      counts = omega (arith, same_count, same_recv_count, rc);
      up_keys = λ h. omega (arith, same_key, same_recv, r.up_keys (λ z. h (same_count ∙ z)));
      up_key_fits = λ h. omega (arith, same_key, r.up_key_fits (λ z. h (same_count ∙ z)));
      down_keys = λ h. refl;
      down_key_fits = λ h. key_fits;
      down_has_key = λ h. nonzero;
    }

module _ (sc : ServerCoder) (cc : ClientCoder) (r : InStep cc sc)
    (started : cc.dw_send_packet_count ≢ 0) (h0 h1 h2 h3 : ℕ) (body : List ℕ)
    (long : 4 ≤ length body) (fits : length body ≤ 16380) (bytes : All IsByte body) where
  abbrev n : ℕ
  n = length body + 4

  abbrev code : ℕ
  code = check_code body

  pub body-Delivered :
      Delivered sc cc (h0 ∷ h1 ∷ h2 ∷ h3 ∷ body) (h0 ∷ code ∷ byte0 n ∷ byte1 n ∷ body)
  body-Delivered =
      let (restored, mapped_bytes, same_length, (rounds, round_fits, es, et)) =
        loops_inverse Server.map_send_byte Client.map_recv_byte (MidPacket sc cc) (one_step sc cc)
          sc cc 0 code body (r.down_rounds, r.down_fits, refl, refl) bytes in
      let (mapped, check, s) = send_loop Server.map_send_byte sc 0 body in
      let (plain, zero_sum, t) = recv_loop Client.map_recv_byte cc code mapped in
      let code_sent : u8 (255 - check + 1) ≡ code =
        rw (send_loop-check Server.map_send_byte sc 0 body (omega arith))
          (check_code_lem (sum body)) in
      let key_kept : s.dw_send_xor_key ≡ sc.dw_send_xor_key =
        ap (λ (x : ServerCoder). x.dw_send_xor_key) es in
      let o =
        buffer-Opens h0 code (byte0 n) (byte1 n) mapped (omega (arith, same_length))
          sc.dw_send_xor_key mapped_bytes (r.down_key_fits started) in
      let long_sealed : 4 ≤ length o.sealed = omega (arith, o.same_length, same_length) in
      let fits_sealed : length o.sealed ≤ 16380 = omega (arith, o.same_length, same_length) in
      let sized : n ≡ length o.sealed + 4 = omega (arith, o.same_length, same_length) in
      let cancelled : zero_sum ≡ 0 =
        recv_loop-check Client.map_recv_byte cc code mapped (omega arith)
        ∙ ap (λ (bs : List ℕ). u8 (code + sum bs)) restored
        ∙ check_code_cancels (sum body) in
      let header = h0 ∷ code ∷ byte0 n ∷ byte1 n ∷ [] in
      record {
        wire = h0 ∷ code ∷ byte0 n ∷ byte1 n ∷ o.sealed;
        sc' = record s {
          dw_send_packet_count = u32 (s.dw_send_packet_count + 1);
          dw_send_xor_key = o.key';
        };
        cc' = record t {
          dw_recv_packet_count = u32 (t.dw_recv_packet_count + 1);
          dw_recv_xor_key = o.key';
        };
        sent =
            Server.Shape.encrypt_shape h0 h1 h2 h3 body long fits sc (r.down_has_key started)
            ∙ rw (code_sent, key_kept, o.encrypted) (unfold Server.finish_encrypt in refl);
        got =
            Client.Shape.decrypt_shape h0 code n o.sealed long_sealed fits_sealed sized cc started
            ∙ ap (λ (k : ℕ). Client.finish_decrypt cc (decrypt_buffer (header ++ o.sealed) k))
                (sym (r.down_keys started))
            ∙ ap (Client.finish_decrypt cc) o.decrypted
            ∙ Client.Shape.finish_decrypt_lem cc t h0 code (byte0 n) (byte1 n) o.key' mapped body
                (λ i. (restored i, cancelled i, t));
        in_step =
            body-InStep r s t (rounds, round_fits, es, et) o.key' o.next_fits
              (o.nonzero (r.down_has_key started));
        framed = sized-IsFrame h0 code n o.sealed sized long_sealed (omega arith);
        counted = ap (λ (x : ClientCoder). x.dw_send_packet_count) et;
      }
