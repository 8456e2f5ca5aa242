-- ===== src/Coder/Stamp.antt =====
-- What a packet looks like to the coder that has decrypted it.
use cc_be_chat_test.Common.{
  ℕ, ◌+◌, ◌-◌, ◌≤◌, ◌≡◌, List, [], ◌∷◌, arith, IsByte, All, u8, byte0, byte1, length, drop, copy_at,
  refl, get_or, le16,
}
use cc_be_chat_test.Coder.Loops.Laws.{sum}

-- A packet that Encrypt accepts.
pub record IsPacket (buffer : List ℕ) : Type 0 where
  pub bytes : All IsByte buffer
  pub has_head : 8 ≤ length buffer
  pub fits : length buffer ≤ 16384

-- The byte that makes the sum of itself and the bytes behind the info bytes 0.
abbrev pub check_code : List ℕ → ℕ
check_code body = u8 (256 - u8 (sum body))

-- The packet with its check code and its size filled in, and nothing else changed.
abbrev pub stamp : List ℕ → List ℕ
stamp buffer =
    copy_at 1 buffer
      (check_code (drop 4 buffer) ∷ byte0 (length buffer) ∷ byte1 (length buffer) ∷ [])

-- A packet as it travels: its first byte is the sender's, and it states its own size.
pub record IsFrame (first : ℕ) (wire : List ℕ) : Type 0 where
  pub head : get_or wire 0 0 ≡ first
  pub size : le16 (get_or wire 2 0) (get_or wire 3 0) ≡ length wire
  pub has_head : 8 ≤ length wire
  pub fits : length wire ≤ 16388

pub sized-IsFrame :
    (h0 h1 n : ℕ) (rest : List ℕ)
    → n ≡ length rest + 4
    → 4 ≤ length rest
    → length rest ≤ 16384
    → IsFrame h0 (h0 ∷ h1 ∷ byte0 n ∷ byte1 n ∷ rest)
sized-IsFrame h0 h1 n rest e long short = record {
  head = refl;
  size = omega arith;
  has_head = omega arith;
  fits = omega arith;
}

-- The code that Encrypt computes is the check code, and Decrypt's sum over both is 0.
pub check_code_lem : (s : ℕ) → u8 (255 - u8 (0 + s) + 1) ≡ u8 (256 - u8 s)
check_code_lem s = omega arith

pub check_code_cancels : (s : ℕ) → u8 (u8 (256 - u8 s) + s) ≡ 0
check_code_cancels s = omega arith
