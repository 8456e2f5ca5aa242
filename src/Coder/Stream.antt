-- ===== src/Coder/Stream.antt =====
-- coder/protocol.go: what the decryption loop makes of the words that the encryption loop wrote.
use mathlib.Core.Option
use cc_be_chat_test.Common.{
  ℕ, zero, suc, ◌+◌, ◌-◌, ◌*◌, ◌^◌, ◌<◌, ◌≡◌, ◌≢◌, refl, ◌∙◌, Option, some, List, [], ◌∷◌, ◌++◌,
  arith, bit_xor,
}
use cc_be_chat_test.Common.{
  IsByte, All, length, take, replicate, le32, byte0, byte1, byte2, byte3, ◌==◌,
}
use cc_be_chat_test.Common.{unmask_lem, masked_one, masked_two, masked_three, le32-digits}
use cc_be_chat_test.Coder.KeySchedule.{next_key-lt, next_key-ne-zero}
use cc_be_chat_test.Coder.Protocol.{
  next_key, put_word, encrypt_words, decrypt_word, decrypt_words, restore_tail,
}

abbrev pub zeros : ℕ → List ℕ
zeros n = replicate n 0

-- `n` words under `key`: the bytes `p` and `snap` zeros behind them. `cs` is what the sender
-- computes; the receiver has it without its last `snap` bytes, and gets `p` back and the same key.
pub record Restores (n snap : ℕ) (p : List ℕ) (key : ℕ) : Type 0 where
  pub cs : List ℕ
  pub key' : ℕ
  pub encrypted : encrypt_words n (p ++ zeros snap) key ≡ some (cs, key')
  pub size : length cs ≡ 4 * n
  pub bytes : All IsByte cs
  pub next_fits : key' < 2 ^ 32
  pub nonzero : key ≢ 0 → key' ≢ 0
  pub decrypted :
      decrypt_words n snap (length p) (take (length p) cs ++ zeros snap) key
      ≡ some (p ++ zeros snap, key')

restore_tail-none :
    (n snap left : ℕ) (cs : List ℕ) (key : ℕ)
    → (n ≡ 0 → snap ≡ 0)
    → restore_tail (n == 0) snap left cs key ≡ cs
unfolding restore_tail
restore_tail-none n snap left cs key h = ground (arith, h)

module _ (b0 b1 b2 b3 key : ℕ) (h0 : IsByte b0) (h1 : IsByte b1) (h2 : IsByte b2) (h3 : IsByte b3)
    (hk : key < 2 ^ 32) where
  abbrev w : ℕ
  w = bit_xor (le32 b0 b1 b2 b3) key

  -- The receiver's word is the sender's.
  unmasked :
      (o : Option (List ℕ × ℕ))
      → put_word (bit_xor (le32 (byte0 w) (byte1 w) (byte2 w) (byte3 w)) key) o
        ≡ Option.map (λ (rest, k). (b0 ∷ b1 ∷ b2 ∷ b3 ∷ rest, k)) o
  unmasked o =
      let (e0, e1, e2, e3) = le32-digits b0 b1 b2 b3 h0 h1 h2 h3 in
      rw (unmask_lem b0 b1 b2 b3 key h0 h1 h2 h3 hk, e0, e1, e2, e3)

  word-Restores :
      (n snap : ℕ) (p : List ℕ)
      → (n ≡ 0 → snap ≡ 0)
      → Restores n snap p (next_key (byte0 w) (byte1 w) (byte2 w) (byte3 w))
      → Restores (suc n) snap (b0 ∷ b1 ∷ b2 ∷ b3 ∷ p) key
  unfolding encrypt_words decrypt_words
  word-Restores n snap p short r =
      let behind : length (b0 ∷ b1 ∷ b2 ∷ b3 ∷ p) - 4 ≡ length p = omega arith in
      let received = byte0 w ∷ byte1 w ∷ byte2 w ∷ byte3 w ∷ (take (length p) r.cs ++ zeros snap) in
      record {
        cs = byte0 w ∷ byte1 w ∷ byte2 w ∷ byte3 w ∷ r.cs;
        key' = r.key';
        encrypted = rw r.encrypted;
        size = omega (arith, r.size);
        bytes = (omega arith, (omega arith, (omega arith, (omega arith, r.bytes))));
        next_fits = r.next_fits;
        nonzero = λ _.
            r.nonzero (
              next_key-ne-zero (byte0 w) (byte1 w) (byte2 w) (byte3 w) (omega arith) (omega arith));
        decrypted =
            rw
              (
                restore_tail-none n snap (suc (suc (suc (suc (length p))))) received key short,
                behind,
              )
              (rw r.decrypted (unmasked (some (p ++ zeros snap, r.key'))));
      }

-- The last word, of which the receiver gets one, two or three bytes.
module _ (b0 b1 b2 key : ℕ) (h0 : IsByte b0) (h1 : IsByte b1) (h2 : IsByte b2)
    (hk : key < 2 ^ 32) where
  abbrev last : ℕ
  last = bit_xor (le32 b0 b1 b2 0) key

  abbrev after : ℕ
  after = next_key (byte0 last) (byte1 last) (byte2 last) (byte3 last)

  last-Restores :
      (snap : ℕ) (p : List ℕ)
      → p ++ zeros snap ≡ b0 ∷ b1 ∷ b2 ∷ 0 ∷ []
      → decrypt_words 1 snap
          (length p)
          (take (length p) (byte0 last ∷ byte1 last ∷ byte2 last ∷ byte3 last ∷ []) ++ zeros snap)
          key
        ≡ decrypt_word
            (λ cs k. some (cs, k))
            (byte0 last ∷ byte1 last ∷ byte2 last ∷ byte3 last ∷ [])
            key
      → Restores 1 snap p key
  unfolding encrypt_words decrypt_word
  last-Restores snap p e restored = record {
    cs = byte0 last ∷ byte1 last ∷ byte2 last ∷ byte3 last ∷ [];
    key' = after;
    encrypted = rw e;
    size = refl;
    bytes = omega arith;
    next_fits = next_key-lt (byte0 last) (byte1 last) (byte2 last) (byte3 last);
    nonzero = λ _.
        next_key-ne-zero (byte0 last) (byte1 last) (byte2 last) (byte3 last) (omega arith)
          (omega arith);
    decrypted =
        rw e (restored ∙ unmasked b0 b1 b2 0 key h0 h1 h2 (omega arith) hk (some ([], after)));
  }

module _ (key : ℕ) (hk : key < 2 ^ 32) where
  tail_one : (b0 : ℕ) → IsByte b0 → Restores 1 3 (b0 ∷ []) key
  unfolding decrypt_words
  tail_one b0 h0 =
      let kept = masked_one (le32 b0 0 0 0) key (omega arith) in
      last-Restores b0 0 0 key h0 (omega arith) (omega arith) hk 3 (b0 ∷ []) refl
        (rw (← kept.0, ← kept.1, ← kept.2))

  tail_two : (b0 b1 : ℕ) → IsByte b0 → IsByte b1 → Restores 1 2 (b0 ∷ b1 ∷ []) key
  unfolding decrypt_words
  tail_two b0 b1 h0 h1 =
      let kept = masked_two (le32 b0 b1 0 0) key (omega arith) in
      last-Restores b0 b1 0 key h0 h1 (omega arith) hk 2 (b0 ∷ b1 ∷ []) refl
        (rw (← kept.0, ← kept.1))

  tail_three :
      (b0 b1 b2 : ℕ) → IsByte b0 → IsByte b1 → IsByte b2 → Restores 1 1 (b0 ∷ b1 ∷ b2 ∷ []) key
  unfolding decrypt_words
  tail_three b0 b1 b2 h0 h1 h2 =
      last-Restores b0 b1 b2 key h0 h1 h2 hk 1 (b0 ∷ b1 ∷ b2 ∷ []) refl
        (rw (← masked_three (le32 b0 b1 b2 0) key (omega arith)))

-- Every packet body, padded to whole words, is restored with the sender's next key.
pub words-Restores :
    (n snap : ℕ) (p : List ℕ) (key : ℕ)
    → length p + snap ≡ 4 * n
    → snap < 4
    → All IsByte p
    → key < 2 ^ 32
    → Restores n snap p key
words-Restores zero zero [] key e s h hk = record {
  cs = [];
  key' = key;
  encrypted = unfold encrypt_words in refl;
  size = refl;
  bytes = tt;
  next_fits = hk;
  nonzero = λ h. h;
  decrypted = unfold decrypt_words in refl;
}
words-Restores zero (suc snap) [] key e s h hk = absurd (omega arith)
words-Restores zero snap (b ∷ p) key e s h hk = absurd (omega arith)
words-Restores (suc n) snap (b0 ∷ b1 ∷ b2 ∷ b3 ∷ p) key e s (h0, (h1, (h2, (h3, h)))) hk =
    let w = bit_xor (le32 b0 b1 b2 b3) key in
    word-Restores b0 b1 b2 b3 key h0 h1 h2 h3 hk n snap p (λ z. omega arith)
      (words-Restores n snap p (next_key (byte0 w) (byte1 w) (byte2 w) (byte3 w)) (omega arith) s h
        (next_key-lt (byte0 w) (byte1 w) (byte2 w) (byte3 w)))
words-Restores (suc n) snap (b0 ∷ b1 ∷ b2 ∷ []) key e s (h0, (h1, (h2, h))) hk =
    let alone : n ≡ 0 = omega arith in
    let cut : snap ≡ 1 = omega arith in rw (alone, cut) (tail_three key hk b0 b1 b2 h0 h1 h2)
words-Restores (suc n) snap (b0 ∷ b1 ∷ []) key e s (h0, (h1, h)) hk =
    let alone : n ≡ 0 = omega arith in
    let cut : snap ≡ 2 = omega arith in rw (alone, cut) (tail_two key hk b0 b1 h0 h1)
words-Restores (suc n) snap (b0 ∷ []) key e s (h0, h) hk =
    let alone : n ≡ 0 = omega arith in
    let cut : snap ≡ 3 = omega arith in rw (alone, cut) (tail_one key hk b0 h0)
words-Restores (suc n) snap [] key e s h hk = absurd (omega arith)
