-- ===== src/Common/Words.antt =====
-- Go's conversions to the fixed widths, and little-endian words. A byte is a number below 256.
use Prim.Native.Nat.{ℕ, ◌+◌, ◌*◌, ◌/◌, ◌%◌, ◌^◌, ◌<◌, bit_xor}
use mathlib.Core.Path.{◌≡◌}
use native.Mathlib.Omega.{arith}
use cc_be_chat_test.Common.Bits.{bit_xor-lt, bit_xor_undo, bit_xor-div_two_pow, zero-bit_xor}

abbrev pub u8 : ℕ → ℕ
u8 n = n % 2 ^ 8

abbrev pub u16 : ℕ → ℕ
u16 n = n % 2 ^ 16

abbrev pub u32 : ℕ → ℕ
u32 n = n % 2 ^ 32

abbrev pub IsByte : ℕ → Type 0
IsByte b = b < 256

-- The byte with `256 ^ k` in front of it is `n / 256 ^ k % 256`.
abbrev pub le16 : ℕ → ℕ → ℕ
le16 b0 b1 = b0 + b1 * 256

abbrev pub le32 : ℕ → ℕ → ℕ → ℕ → ℕ
le32 b0 b1 b2 b3 = b0 + b1 * 256 + b2 * 65536 + b3 * 16777216

abbrev pub byte0 : ℕ → ℕ
byte0 w = w % 256

abbrev pub byte1 : ℕ → ℕ
byte1 w = w / 256 % 256

abbrev pub byte2 : ℕ → ℕ
byte2 w = w / 65536 % 256

abbrev pub byte3 : ℕ → ℕ
byte3 w = w / 16777216 % 256

pub le32-bytes : (w : ℕ) → w < 2 ^ 32 → le32 (byte0 w) (byte1 w) (byte2 w) (byte3 w) ≡ w
le32-bytes w h = omega arith

pub le32-digits :
    (b0 b1 b2 b3 : ℕ)
    → IsByte b0
    → IsByte b1
    → IsByte b2
    → IsByte b3
    → (byte0 (le32 b0 b1 b2 b3) ≡ b0)
      × (byte1 (le32 b0 b1 b2 b3) ≡ b1)
      × (byte2 (le32 b0 b1 b2 b3) ≡ b2)
      × (byte3 (le32 b0 b1 b2 b3) ≡ b3)
le32-digits b0 b1 b2 b3 h0 h1 h2 h3 = omega arith

-- One word under a key: the bytes of the exclusive or, and what the key's bytes do to zeros.
module _ (b0 b1 b2 b3 key : ℕ) (h0 : IsByte b0) (h1 : IsByte b1) (h2 : IsByte b2) (h3 : IsByte b3)
    (hk : key < 2 ^ 32) where
  pub masked-lt : bit_xor (le32 b0 b1 b2 b3) key < 2 ^ 32
  masked-lt = bit_xor-lt 32 (le32 b0 b1 b2 b3) key (omega arith) hk

  pub unmask_lem :
      let w = bit_xor (le32 b0 b1 b2 b3) key in
      bit_xor (le32 (byte0 w) (byte1 w) (byte2 w) (byte3 w)) key ≡ le32 b0 b1 b2 b3
  unmask_lem =
      rw (le32-bytes (bit_xor (le32 b0 b1 b2 b3) key) masked-lt)
        (bit_xor_undo (le32 b0 b1 b2 b3) key)

-- A word shorter than `n` bits leaves the key's digits from the n-th on as they are.
high_of_key : (n w key : ℕ) → w / 2 ^ n ≡ 0 → bit_xor w key / 2 ^ n ≡ key / 2 ^ n
high_of_key n w key short = rw (bit_xor-div_two_pow n w key, short) (zero-bit_xor (key / 2 ^ n))

pub masked_three : (w key : ℕ) → w < 2 ^ 24 → byte3 (bit_xor w key) ≡ byte3 key
masked_three w key h = omega (arith, high_of_key 24 w key (omega arith))

pub masked_two :
    (w key : ℕ)
    → w < 2 ^ 16
    → (byte2 (bit_xor w key) ≡ byte2 key) × (byte3 (bit_xor w key) ≡ byte3 key)
masked_two w key h = omega (arith, high_of_key 16 w key (omega arith))

pub masked_one :
    (w key : ℕ)
    → w < 2 ^ 8
    → (byte1 (bit_xor w key) ≡ byte1 key)
      × (byte2 (bit_xor w key) ≡ byte2 key)
      × (byte3 (bit_xor w key) ≡ byte3 key)
masked_one w key h = omega (arith, high_of_key 8 w key (omega arith))
