-- ===== src/Coder/Server/Shape.antt =====
-- Encrypt and Decrypt of ServerCoder on a packet whose size passes the guards.
use mathlib.Core.List.{append-nil}
use cc_be_chat_test.Common.{
  ℕ, suc, ◌+◌, ◌-◌, ◌^◌, ◌≤◌, ◌<◌, ◌≡◌, ◌≢◌, refl, List, ◌∷◌, arith, false, true, ltb, ◌==◌,
}
use cc_be_chat_test.Common.{
  u8, u16, u32, byte0, byte1, byte2, byte3, ◌>>=◌, length, take, copy-nil, le32-bytes, leb, le16,
  ==_iff, take-all, drop-all, ok,
}
use cc_be_chat_test.Coder.Packet.{
  extract_key, read_uint32, encrypt_buffer, decrypt_buffer, slice, read_uint16, write_uint16,
}
use cc_be_chat_test.Coder.Loops.{send_loop, recv_loop}
use cc_be_chat_test.Coder.Server.{
  ServerCoder, map_send_byte, map_recv_byte, finish_encrypt, finish_decrypt, accept_key, fill,
  encrypt, decrypt,
}

module _ (h0 h1 h2 h3 : ℕ) (body : List ℕ) (long : 4 ≤ length body)
    (fits : length body ≤ 16380) where
  abbrev n : ℕ
  n = length body + 4

  abbrev packet : List ℕ
  packet = h0 ∷ h1 ∷ h2 ∷ h3 ∷ body

  size_lem : u16 (length packet) ≡ n
  size_lem = omega arith

  taken : take n packet ≡ packet
  taken = take-all n packet (omega arith)

  pub encrypt_shape :
      (sc : ServerCoder)
      → sc.dw_send_xor_key ≢ 0
      → let (mapped, check, sc') = send_loop map_send_byte sc 0 body in
        encrypt sc packet
        ≡ finish_encrypt sc' (
            encrypt_buffer
              (h0 ∷ u8 (255 - check + 1) ∷ byte0 n ∷ byte1 n ∷ mapped)
              sc'.dw_send_xor_key)
  unfolding encrypt fill write_uint16
  encrypt_shape sc keyed =
      let has_key : (sc.dw_send_xor_key == 0) ≡ false = ground arith in
      let guard_short : ltb n 8 ≡ false = ground arith in
      let guard_long : ltb 16384 n ≡ false = ground arith in
      rw (
        size_lem,
        guard_short,
        guard_long,
        has_key,
        taken,
        drop-all n packet (omega arith),
        append-nil,
        copy-nil,
      )

-- A packet that carries its own size, before and after the first one has brought the key.
module _ (h0 h1 size : ℕ) (body : List ℕ) (long : 4 ≤ length body) (fits : length body ≤ 16384)
    (sized : size ≡ length body + 4) where
  abbrev received : List ℕ
  received = h0 ∷ h1 ∷ byte0 size ∷ byte1 size ∷ body

  pub decrypt_shape :
      (sc : ServerCoder)
      → let (keyed, accepted) = accept_key sc received in
        decrypt sc received
        ≡ finish_decrypt keyed (accepted >>= λ b. decrypt_buffer b keyed.dw_recv_xor_key)
  unfolding decrypt slice read_uint16
  decrypt_shape sc =
      let total : u16 (length received) ≡ size = omega arith in
      let guard_short : ltb size 8 ≡ false = ground arith in
      let inside : leb 4 (length received) ≡ true = ground arith in
      let field : le16 (byte0 size) (byte1 size) ≡ size = omega arith in
      let agrees : (size == size) ≡ true = (==_iff size size).1 refl in
      rw (total, guard_short, inside, field, total, agrees)

  pub accept_later :
      (sc : ServerCoder) → sc.dw_recv_packet_count ≢ 0 → accept_key sc received ≡ (sc, ok received)
  unfolding accept_key
  accept_later sc later =
      let started : (sc.dw_recv_packet_count == 0) ≡ false = ground arith in rw started

-- The first packet has the key behind its head, and is four bytes longer than the sender's.
pub accept_first :
    (sc : ServerCoder) (h0 h1 c0 c1 c2 c3 n key : ℕ) (rest : List ℕ)
    → sc.dw_recv_packet_count ≡ 0
    → n < 65532
    → key < 2 ^ 32
    → accept_key sc (
        h0
        ∷ h1
        ∷ byte0 (n + 4)
        ∷ byte1 (n + 4)
        ∷ c0
        ∷ c1
        ∷ c2
        ∷ c3
        ∷ byte0 key
        ∷ byte1 key
        ∷ byte2 key
        ∷ byte3 key
        ∷ rest)
      ≡ (
        record sc { dw_recv_xor_key = key; dw_send_xor_key = key },
        ok (h0 ∷ h1 ∷ byte0 n ∷ byte1 n ∷ c0 ∷ c1 ∷ c2 ∷ c3 ∷ rest),
      )
unfolding accept_key extract_key slice read_uint16 read_uint32
accept_first sc h0 h1 c0 c1 c2 c3 n key rest first small fits =
    let len = suc (suc (suc (suc (suc (suc (suc (suc (suc (suc (suc (suc (length rest)))))))))))) in
    let none_yet : (sc.dw_recv_packet_count == 0) ≡ true = ground arith in
    let room : ltb len 12 ≡ false = ground arith in
    let in12 : leb 12 len ≡ true = ground arith in
    let in4 : leb 4 len ≡ true = ground arith in
    let in2 : leb 2 len ≡ true = ground arith in
    let in8 : leb 8 len ≡ true = ground arith in
    let field : le16 (byte0 (n + 4)) (byte1 (n + 4)) ≡ n + 4 = omega arith in
    let less : u16 (n + 4 + 65536 - 4) ≡ n = omega arith in
    rw (none_yet, room, in12, in4, in2, in8, le32-bytes key fits, field, less)

-- The end of Decrypt, where the mapped bytes are those that were sent and their sum is 0.
pub finish_decrypt_lem :
    (sc t : ServerCoder) (h0 code s0 s1 key : ℕ) (mapped body : List ℕ)
    → recv_loop map_recv_byte sc code mapped ≡ (body, 0, t)
    → finish_decrypt sc (ok (h0 ∷ code ∷ s0 ∷ s1 ∷ mapped, key)) ≡ (
      record t { dw_recv_packet_count = u32 (t.dw_recv_packet_count + 1); dw_recv_xor_key = key },
      ok (h0 ∷ code ∷ s0 ∷ s1 ∷ body),
    )
unfolding finish_decrypt
finish_decrypt_lem sc t h0 code s0 s1 key mapped body done = rw done
