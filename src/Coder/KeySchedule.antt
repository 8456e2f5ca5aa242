-- ===== src/Coder/KeySchedule.antt =====
-- coder/protocol.go: what the keys that follow from encrypted words can be.
use cc_be_chat_test.Common.{
  ℕ, ◌*◌, ◌/◌, ◌^◌, ◌<◌, ◌≡◌, ◌≢◌, refl, ◌∙◌, sym, ap, bit_or, bit_xor, arith, Bool, true, not,
}
use cc_be_chat_test.Common.{IsByte, le16, ◌==◌}
use cc_be_chat_test.Common.Bits.{
  bit_xor-lt, bit_or-lt, bit_xor-div_two_pow, bit_or-div_two_pow, zero-bit_or, zero-bit_xor,
  bit_xor_undo,
}
use cc_be_chat_test.Coder.Protocol.{g_dw_packet_key, seed_rand_map, next_key}
use cc_be_chat_test.Coder.ByteMaps.{all_below, all_below-lt}

pub seed_rand_map-lt : (s : ℕ) → seed_rand_map s < 2 ^ 16
unfolding seed_rand_map
seed_rand_map-lt s = omega arith

-- SeedRandMap does not reach the high half of the packet key.
abbrev off_packet_key : ℕ → Bool
off_packet_key s = not (seed_rand_map s == g_dw_packet_key / 2 ^ 16)

all_off : all_below 65536 off_packet_key ≡ true
unfolding all_below seed_rand_map
all_off = refl

seed_rand_map-ne : (s : ℕ) → s < 2 ^ 16 → seed_rand_map s ≢ g_dw_packet_key / 2 ^ 16
seed_rand_map-ne s h = ground (arith, all_below-lt 65536 off_packet_key s all_off h)

pub next_key-lt : (c0 c1 c2 c3 : ℕ) → next_key c0 c1 c2 c3 < 2 ^ 32
unfolding next_key
next_key-lt c0 c1 c2 c3 =
    let low = seed_rand_map-lt (le16 c0 c1) in
    let high = seed_rand_map-lt (le16 c2 c3) in
    bit_xor-lt 32 _ g_dw_packet_key (bit_or-lt 32 _ _ (omega (arith, low)) (omega (arith, high)))
      (omega arith)

-- The high half of the next key is that of the packet key under the second seed.
next_key-high :
    (c0 c1 c2 c3 : ℕ)
    → next_key c0 c1 c2 c3 / 2 ^ 16
      ≡ bit_xor (seed_rand_map (le16 c2 c3)) (g_dw_packet_key / 2 ^ 16)
unfolding next_key
next_key-high c0 c1 c2 c3 =
    let low = seed_rand_map (le16 c0 c1) in
    let high = seed_rand_map (le16 c2 c3) in
    let no_low : low / 2 ^ 16 ≡ 0 = omega (arith, seed_rand_map-lt (le16 c0 c1)) in
    let back : high * 2 ^ 16 / 2 ^ 16 ≡ high = omega arith in
    rw (
      bit_xor-div_two_pow 16 (bit_or low (high * 2 ^ 16)) g_dw_packet_key,
      bit_or-div_two_pow 16 low (high * 2 ^ 16),
      no_low,
      back,
      zero-bit_or high,
    )

-- No encrypted word leads to the key 0.
pub next_key-ne-zero : (c0 c1 c2 c3 : ℕ) → IsByte c2 → IsByte c3 → next_key c0 c1 c2 c3 ≢ 0
next_key-ne-zero c0 c1 c2 c3 h2 h3 none =
    let seed = le16 c2 c3 in
    let top = g_dw_packet_key / 2 ^ 16 in
    let both : bit_xor (seed_rand_map seed) top ≡ 0 =
      omega (arith, next_key-high c0 c1 c2 c3, none) in
    seed_rand_map-ne seed (omega arith) (
      sym (bit_xor_undo (seed_rand_map seed) top)
      ∙ ap (λ (t : ℕ). bit_xor t top) both
      ∙ zero-bit_xor top)
