-- ===== src/Coder/ByteMaps.antt =====
-- coder/keys.go: the map for receiving undoes the map for sending, under rounds in step.
use cc_be_chat_test.Common.{ℕ, zero, suc, ◌+◌, ◌-◌, ◌<◌, ◌≡◌, refl, Bool, true, ◌&&◌, arith}
use cc_be_chat_test.Common.{IsByte, u8, get_or, ltb, ◌==◌}
use cc_be_chat_test.Coder.Keys.{g_send_byte_map, g_recv_byte_map}

-- A test that holds of every number below a bound, by trying each.
unfoldable pub all_below : ℕ → (ℕ → Bool) → Bool
all_below zero p = true
all_below (suc n) p = p n && all_below n p

pub all_below-lt : (n : ℕ) (p : ℕ → Bool) (x : ℕ) → all_below n p ≡ true → x < n → p x ≡ true
unfolding all_below
all_below-lt zero p x h lt = absurd (omega arith)
all_below-lt (suc n) p x h lt = ground (arith, all_below-lt n p x)

-- The map for sending takes a byte to a byte that the other map takes back.
abbrev inverse_at : ℕ → Bool
inverse_at x = let c = get_or g_send_byte_map x 0 in ltb c 256 && get_or g_recv_byte_map c 0 == x

inverse_everywhere : all_below 256 inverse_at ≡ true
unfolding all_below g_send_byte_map g_recv_byte_map
inverse_everywhere = refl

pub maps_inverse :
    (x : ℕ)
    → IsByte x
    → IsByte (get_or g_send_byte_map x 0)
      × (get_or g_recv_byte_map (get_or g_send_byte_map x 0) 0 ≡ x)
maps_inverse x h = ground (arith, all_below-lt 256 inverse_at x inverse_everywhere h)

-- A byte that is mapped under a round and mapped back under the same round.
pub mapped_back :
    (b round : ℕ)
    → IsByte b
    → round < 256
    → u8 (get_or g_recv_byte_map (get_or g_send_byte_map (u8 (b + round)) 0) 0 + 256 - round) ≡ b
mapped_back b round hb hr = omega (arith, maps_inverse (u8 (b + round)) (omega arith))
