-- ===== src/Coder/Protocol.antt =====
-- coder/util_c.go: the key schedule and the two loops over the words of a packet.
-- A word is read and written through a `*uint32`, on a little-endian machine.
use mathlib.Core.Option
use cc_be_chat_test.Common.{
  ℕ, zero, suc, ◌+◌, ◌-◌, ◌*◌, ◌/◌, ◌^◌, Bool, ◌&&◌, Option, none, some, List, [], ◌∷◌, ◌++◌,
  bit_or, bit_xor,
}
use cc_be_chat_test.Common.{
  u16, u32, le16, le32, byte0, byte1, byte2, byte3, length, take, drop, copy_at, ltb, ◌==◌,
  if◌then◌else◌,
}

abbrev pub g_dw_packet_key : ℕ
g_dw_packet_key = 0x1FBFEF1F

abbrev pub size_of_cmd_info : ℕ
size_of_cmd_info = 4

abbrev pub size_of_cmd_head : ℕ
size_of_cmd_head = 8

unfoldable pub seed_rand_map : ℕ → ℕ
seed_rand_map seed = u16 (u32 (u32 (seed * 241103) + 2533101) / 2 ^ 16)

-- The next key, from the four bytes of an encrypted word.
unfoldable pub next_key : ℕ → ℕ → ℕ → ℕ → ℕ
next_key c0 c1 c2 c3 =
    let low = seed_rand_map (le16 c0 c1) in
    let both = bit_or low (seed_rand_map (le16 c2 c3) * 2 ^ 16) in bit_xor both g_dw_packet_key

-- A slice with the key that comes after it.
abbrev pub Keyed : Type 0
Keyed = List ℕ × ℕ

-- The four bytes of the word `w`, in front of what a loop has made of the rest.
abbrev pub put_word : ℕ → Option Keyed → Option Keyed
put_word w = Option.map λ (rest, key). (byte0 w ∷ byte1 w ∷ byte2 w ∷ byte3 w ∷ rest, key)

-- One round of `c_encryptBuffer`; `none` is a pointer past the end of the slice.
unfoldable pub encrypt_word : (List ℕ → ℕ → Option Keyed) → List ℕ → ℕ → Option Keyed
encrypt_word rounds (b0 ∷ b1 ∷ b2 ∷ b3 ∷ bs) key =
    let w = bit_xor (le32 b0 b1 b2 b3) key in
    put_word w (rounds bs (next_key (byte0 w) (byte1 w) (byte2 w) (byte3 w)))
encrypt_word rounds _ key = none

unfoldable pub encrypt_words : ℕ → List ℕ → ℕ → Option Keyed
unfolding encrypt_word
encrypt_words zero bs key = some (bs, key)
encrypt_words (suc n) bs key = encrypt_word (encrypt_words n) bs key

-- One round of `c_decryptBuffer`. The next key is taken before the word is changed.
unfoldable pub decrypt_word : (List ℕ → ℕ → Option Keyed) → List ℕ → ℕ → Option Keyed
decrypt_word rounds (c0 ∷ c1 ∷ c2 ∷ c3 ∷ cs) key =
    put_word (bit_xor (le32 c0 c1 c2 c3) key) (rounds cs (next_key c0 c1 c2 c3))
decrypt_word rounds _ key = none

-- In the last round the bytes that the sender cut off are put back: they are bytes of the key.
-- `left` is the index `wDataSize`, counted from the front of what is left of the buffer.
unfoldable pub restore_tail : Bool → ℕ → ℕ → List ℕ → ℕ → List ℕ
restore_tail last snap left cs key =
    if last && ltb 0 snap
    then copy_at left cs (drop (4 - snap) (byte0 key ∷ byte1 key ∷ byte2 key ∷ byte3 key ∷ []))
    else cs

unfoldable pub decrypt_words : ℕ → ℕ → ℕ → List ℕ → ℕ → Option Keyed
unfolding decrypt_word restore_tail
decrypt_words zero snap left cs key = some (cs, key)
decrypt_words (suc n) snap left cs key =
    decrypt_word (decrypt_words n snap (left - 4)) (restore_tail (n == 0) snap left cs key) key

unfoldable pub word_count : ℕ → ℕ → ℕ
word_count encrypt_size snap = u16 (encrypt_size + snap) / 4

-- The loops work on `buffer[SizeOf_CMD_Info:]`, and leave the bytes before it as they are.
abbrev pub behind_info : List ℕ → Option Keyed → Option Keyed
behind_info buffer done =
    if ltb (length buffer) size_of_cmd_info
    then none
    else Option.map (λ (rest, key). (take size_of_cmd_info buffer ++ rest, key)) done

unfoldable pub c_encrypt_buffer : List ℕ → ℕ → ℕ → ℕ → Option Keyed
c_encrypt_buffer buffer key encrypt_size snap =
    behind_info buffer
      (encrypt_words (word_count encrypt_size snap) (drop size_of_cmd_info buffer) key)

unfoldable pub c_decrypt_buffer : List ℕ → ℕ → ℕ → ℕ → ℕ → Option Keyed
c_decrypt_buffer buffer key encrypt_size snap size = behind_info buffer (
    decrypt_words (word_count encrypt_size snap) snap (size - size_of_cmd_info)
      (drop size_of_cmd_info buffer) key)
