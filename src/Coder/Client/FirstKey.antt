-- ===== src/Coder/Client/FirstKey.antt =====
-- ClientCoder.Encrypt, first packet: the key that is chosen from the random number.
use cc_be_chat_test.Common.{ℕ, ◌*◌, ◌/◌, ◌^◌, ◌<◌, ◌≡◌, ◌≢◌, bit_or, arith, u16}
use cc_be_chat_test.Common.Bits.{bit_xor-lt, bit_or-lt, bit_xor-div_two_pow, zero-bit_xor}
use cc_be_chat_test.Coder.Protocol.{g_dw_packet_key, seed_rand_map}
use cc_be_chat_test.Coder.KeySchedule.{seed_rand_map-lt}
use cc_be_chat_test.Coder.Client.{first_key}

-- The seeds, without the packet key: below 2 ^ 16, since the shifted half is cut off.
seeds-lt :
    (random : ℕ)
    → bit_or
        (seed_rand_map (u16 random))
        (u16 (seed_rand_map (u16 (seed_rand_map (u16 random) / 2 ^ 16)) * 2 ^ 16))
      < 2 ^ 16
seeds-lt random = bit_or-lt 16 _ _ (omega (arith, seed_rand_map-lt (u16 random))) (omega arith)

pub first_key-lt : (random : ℕ) → first_key random < 2 ^ 32
unfolding first_key
first_key-lt random = bit_xor-lt 32 _ g_dw_packet_key (omega (arith, seeds-lt random)) (omega arith)

-- Whatever the random number is, the high half of the session key is that of the packet key.
pub first_key-high : (random : ℕ) → first_key random / 2 ^ 16 ≡ g_dw_packet_key / 2 ^ 16
unfolding first_key
first_key-high random =
    let seeds =
      bit_or (seed_rand_map (u16 random))
        (u16 (seed_rand_map (u16 (seed_rand_map (u16 random) / 2 ^ 16)) * 2 ^ 16)) in
    let no_high : seeds / 2 ^ 16 ≡ 0 = omega (arith, seeds-lt random) in
    rw (bit_xor-div_two_pow 16 seeds g_dw_packet_key, no_high)
      (zero-bit_xor (g_dw_packet_key / 2 ^ 16))

pub first_key-ne-zero : (random : ℕ) → first_key random ≢ 0
first_key-ne-zero random e = omega (arith, first_key-high random)
