-- ===== src/Coder/Buffers.antt =====
-- coder/utils.go: decryptBuffer undoes encryptBuffer, and both come to the same next key.
use cc_be_chat_test.Common.{
  ℕ, suc, ◌+◌, ◌-◌, ◌*◌, ◌/◌, ◌^◌, ◌≤◌, ◌<◌, ◌≡◌, ◌≢◌, refl, List, ◌∷◌, ◌++◌, arith,
}
use cc_be_chat_test.Common.{IsByte, All, length, take, u16, ok, false, ltb}
use cc_be_chat_test.Common.{length-take, All-take, take-append}
use cc_be_chat_test.Coder.Protocol.{size_of_cmd_info, word_count}
use cc_be_chat_test.Coder.Packet.{encrypt_buffer, decrypt_buffer, encrypt_size, snap_count}
use cc_be_chat_test.Coder.Stream.{words-Restores, zeros}

-- A packet with the given four bytes in front: what the loops make of the bytes behind them.
pub record Opens (h0 h1 h2 h3 : ℕ) (body : List ℕ) (key : ℕ) : Type 0 where
  pub sealed : List ℕ
  pub key' : ℕ
  pub encrypted :
      encrypt_buffer (h0 ∷ h1 ∷ h2 ∷ h3 ∷ body) key ≡ ok (h0 ∷ h1 ∷ h2 ∷ h3 ∷ sealed, key')
  pub decrypted :
      decrypt_buffer (h0 ∷ h1 ∷ h2 ∷ h3 ∷ sealed) key ≡ ok (h0 ∷ h1 ∷ h2 ∷ h3 ∷ body, key')
  pub same_length : length sealed ≡ length body
  pub bytes : All IsByte sealed
  pub next_fits : key' < 2 ^ 32
  pub nonzero : key ≢ 0 → key' ≢ 0

snap_count-fills : (m : ℕ) → (snap_count m < 4) × (m + snap_count m ≡ 4 * ((m + snap_count m) / 4))
unfolding snap_count
snap_count-fills m = ground arith

module _ (h0 h1 h2 h3 : ℕ) (body : List ℕ) (fits : length body ≤ 16384) where
  abbrev packet : List ℕ → List ℕ
  packet b = h0 ∷ h1 ∷ h2 ∷ h3 ∷ b

  abbrev m : ℕ
  m = length body

  size_lem : (b : List ℕ) → length b ≡ m → u16 (length (packet b)) ≡ suc (suc (suc (suc m)))
  size_lem b e = omega arith

  encrypt_size_lem : encrypt_size (suc (suc (suc (suc m)))) ≡ m
  unfolding encrypt_size
  encrypt_size_lem = omega arith

  word_count_lem : word_count m (snap_count m) ≡ (m + snap_count m) / 4
  unfolding word_count
  word_count_lem = omega (arith, snap_count-fills m)

  long_enough : (b : List ℕ) → ltb (length (packet b)) 4 ≡ false
  long_enough b = ground arith

  behind_info : suc (suc (suc (suc m))) - size_of_cmd_info ≡ m
  behind_info = omega arith

  -- For a body of at most 16384 bytes, of any length, and a 32-bit key, encryptBuffer succeeds,
  -- decryptBuffer undoes it under the same key, both end with the same next key, and the length is
  -- kept.
  pub buffer-Opens : (key : ℕ) → All IsByte body → key < 2 ^ 32 → Opens h0 h1 h2 h3 body key
  unfolding encrypt_buffer decrypt_buffer
  buffer-Opens key bytes hk =
      let filled = snap_count-fills m in
      let r =
        words-Restores ((m + snap_count m) / 4) (snap_count m) body key filled.1 filled.0 bytes
          hk in
      let same : length (take m r.cs) ≡ m = omega (arith, length-take m r.cs, r.size) in
      record {
        sealed = take m r.cs;
        key' = r.key';
        encrypted = rw (
          size_lem body refl,
          encrypt_size_lem,
          word_count_lem,
          long_enough (body ++ zeros (snap_count m)),
          r.encrypted,
        );
        decrypted = rw (
          size_lem (take m r.cs) same,
          encrypt_size_lem,
          word_count_lem,
          long_enough (take m r.cs ++ zeros (snap_count m)),
          behind_info,
          r.decrypted,
          take-append body (zeros (snap_count m)),
        );
        same_length = same;
        bytes = All-take IsByte m r.cs r.bytes;
        next_fits = r.next_fits;
        nonzero = r.nonzero;
      }
