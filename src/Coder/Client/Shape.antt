-- ===== src/Coder/Client/Shape.antt =====
-- Encrypt and Decrypt of ClientCoder on a packet whose size passes the guards.
use mathlib.Core.List.{append-nil}
use cc_be_chat_test.Common.{
  ℕ, suc, ◌+◌, ◌-◌, ◌≤◌, ◌<◌, ◌≡◌, ◌≢◌, refl, List, ◌∷◌, arith, false, true, ltb, ◌==◌,
}
use cc_be_chat_test.Common.{
  u8, u16, u32, byte0, byte1, byte2, byte3, length, take, copy-nil, leb, le16, ==_iff, take-all,
  drop-all, ok,
}
use cc_be_chat_test.Coder.Packet.{
  insert_key, encrypt_buffer, decrypt_buffer, slice, read_uint16, write_uint16,
}
use cc_be_chat_test.Coder.Loops.{send_loop, recv_loop}
use cc_be_chat_test.Coder.Client.{
  ClientCoder, map_send_byte, map_recv_byte, choose_key, finish_encrypt, finish_decrypt, fill,
  encrypt, decrypt, first_key,
}

module _ (h0 h1 h2 h3 : ℕ) (body : List ℕ) (long : 4 ≤ length body)
    (fits : length body ≤ 16380) where
  abbrev n : ℕ
  n = length body + 4

  abbrev packet : List ℕ
  packet = h0 ∷ h1 ∷ h2 ∷ h3 ∷ body

  size_lem : u16 (length packet) ≡ n
  size_lem = omega arith

  taken : take n packet ≡ packet
  taken = take-all n packet (omega arith)

  pub encrypt_shape :
      (random : ℕ) (cc : ClientCoder)
      → let (mapped, check, cc') = send_loop map_send_byte cc 0 body in
        let keyed = choose_key random cc' in
        encrypt random cc packet
        ≡ finish_encrypt keyed (
            encrypt_buffer
              (h0 ∷ u8 (255 - check + 1) ∷ byte0 n ∷ byte1 n ∷ mapped)
              keyed.dw_send_xor_key)
  unfolding encrypt fill write_uint16
  encrypt_shape random cc =
      let guard_short : ltb n 8 ≡ false = ground arith in
      let guard_long : ltb 16384 n ≡ false = ground arith in
      rw (
        size_lem,
        guard_short,
        guard_long,
        taken,
        drop-all n packet (omega arith),
        append-nil,
        copy-nil,
      )

-- A packet that carries its own size.
module _ (h0 h1 size : ℕ) (body : List ℕ) (long : 4 ≤ length body) (fits : length body ≤ 16380)
    (sized : size ≡ length body + 4) where
  pub decrypt_shape :
      (cc : ClientCoder)
      → cc.dw_send_packet_count ≢ 0
      → let packet = h0 ∷ h1 ∷ byte0 size ∷ byte1 size ∷ body in
        decrypt cc packet ≡ finish_decrypt cc (decrypt_buffer packet cc.dw_recv_xor_key)
  unfolding decrypt slice read_uint16
  decrypt_shape cc sent =
      let total : u16 (length (h0 ∷ h1 ∷ byte0 size ∷ byte1 size ∷ body)) ≡ size = omega arith in
      let started : (cc.dw_send_packet_count == 0) ≡ false = ground arith in
      let guard_short : ltb size 8 ≡ false = ground arith in
      let inside : leb 4 (length (h0 ∷ h1 ∷ byte0 size ∷ byte1 size ∷ body)) ≡ true =
        ground arith in
      let field : le16 (byte0 size) (byte1 size) ≡ size = omega arith in
      let agrees : (size == size) ≡ true = (==_iff size size).1 refl in
      rw (total, started, guard_short, inside, field, total, agrees)

-- The end of Decrypt, where the mapped bytes are those that were sent and their sum is 0.
pub finish_decrypt_lem :
    (cc t : ClientCoder) (h0 code s0 s1 key : ℕ) (mapped body : List ℕ)
    → recv_loop map_recv_byte cc code mapped ≡ (body, 0, t)
    → finish_decrypt cc (ok (h0 ∷ code ∷ s0 ∷ s1 ∷ mapped, key)) ≡ (
      record t { dw_recv_packet_count = u32 (t.dw_recv_packet_count + 1); dw_recv_xor_key = key },
      ok (h0 ∷ code ∷ s0 ∷ s1 ∷ body),
    )
unfolding finish_decrypt
finish_decrypt_lem cc t h0 code s0 s1 key mapped body done = rw done

-- The end of Encrypt, for the first packet and for the others.
pub finish_encrypt_later :
    (cc : ClientCoder) (encoded : List ℕ) (key : ℕ)
    → cc.dw_send_packet_count ≢ 0
    → finish_encrypt cc (ok (encoded, key)) ≡ (
      record cc { dw_send_packet_count = u32 (cc.dw_send_packet_count + 1); dw_send_xor_key = key },
      ok encoded,
    )
unfolding finish_encrypt
finish_encrypt_later cc encoded key later =
    let started : (cc.dw_send_packet_count == 0) ≡ false = ground arith in rw started

pub finish_encrypt_first :
    (cc : ClientCoder) (h0 h1 size c0 c1 c2 c3 : ℕ) (rest : List ℕ) (key : ℕ)
    → cc.dw_send_packet_count ≡ 0
    → size < 65532
    → finish_encrypt cc (ok (h0 ∷ h1 ∷ byte0 size ∷ byte1 size ∷ c0 ∷ c1 ∷ c2 ∷ c3 ∷ rest, key)) ≡ (
      record cc { dw_send_packet_count = u32 (cc.dw_send_packet_count + 1); dw_send_xor_key = key },
      ok (
          h0
          ∷ h1
          ∷ byte0 (size + 4)
          ∷ byte1 (size + 4)
          ∷ c0
          ∷ c1
          ∷ c2
          ∷ c3
          ∷ byte0 cc.dw_send_xor_key
          ∷ byte1 cc.dw_send_xor_key
          ∷ byte2 cc.dw_send_xor_key
          ∷ byte3 cc.dw_send_xor_key
          ∷ rest),
    )
unfolding finish_encrypt insert_key slice read_uint16
finish_encrypt_first cc h0 h1 size c0 c1 c2 c3 rest key first small =
    let len = suc (suc (suc (suc (suc (suc (suc (suc (length rest)))))))) in
    let none_yet : (cc.dw_send_packet_count == 0) ≡ true = ground arith in
    let room : ltb len 8 ≡ false = ground arith in
    let in4 : leb 4 len ≡ true = ground arith in
    let in2 : leb 2 len ≡ true = ground arith in
    let in8 : leb 8 len ≡ true = ground arith in
    let field : le16 (byte0 size) (byte1 size) ≡ size = omega arith in
    let more : u16 (size + 4) ≡ size + 4 = omega arith in
    rw (none_yet, room, in4, in2, in8, field, more)

pub choose_key_first :
    (random : ℕ) (cc : ClientCoder)
    → cc.dw_send_packet_count ≡ 0
    → choose_key random cc
      ≡ record cc { dw_send_xor_key = first_key random; dw_recv_xor_key = first_key random }
unfolding choose_key
choose_key_first random cc first =
    let none_yet : (cc.dw_send_packet_count == 0) ≡ true = ground arith in rw none_yet

pub choose_key_later :
    (random : ℕ) (cc : ClientCoder) → cc.dw_send_packet_count ≢ 0 → choose_key random cc ≡ cc
unfolding choose_key
choose_key_later random cc later =
    let started : (cc.dw_send_packet_count == 0) ≡ false = ground arith in rw started
