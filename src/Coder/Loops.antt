-- ===== src/Coder/Loops.antt =====
-- The two loops over the body of a packet, which ClientCoder and ServerCoder both have: the check
-- code is summed over the plain bytes while the coder's byte mapping is applied.
pub mod Laws
use cc_be_chat_test.Common.{ℕ, ◌+◌, List, [], ◌∷◌, u8}

-- A coder's `mapSendByte` or `mapRecvByte`: the mapped byte, and the coder after it.
abbrev pub ByteMapping : Type 0 → Type 0
ByteMapping S = S → ℕ → ℕ × S

module _ {S : Type 0} (mapping : ByteMapping S) where
  -- Encrypt: add the byte to the check code, then map it.
  unfoldable pub send_loop : S → ℕ → List ℕ → List ℕ × ℕ × S
  send_loop s check [] = ([], check, s)
  send_loop s check (b ∷ bs) =
      let (c, s') = mapping s b in
      let (cs, sum, s'') = send_loop s' (u8 (check + b)) bs in (c ∷ cs, sum, s'')

  -- Decrypt: map the byte, then add it to the check code.
  unfoldable pub recv_loop : S → ℕ → List ℕ → List ℕ × ℕ × S
  recv_loop s check [] = ([], check, s)
  recv_loop s check (c ∷ cs) =
      let (b, s') = mapping s c in
      let (bs, sum, s'') = recv_loop s' (u8 (check + b)) cs in (b ∷ bs, sum, s'')
