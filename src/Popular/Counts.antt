-- ===== src/Popular/Counts.antt =====
-- What the counts are: the sums over the seconds of the window.
use cc_be_chat_test.Common.{
  ℕ, zero, suc, ◌+◌, ◌≡◌, ◌≢◌, ◌≤◌, ◌<◌, refl, ap, ◌∙◌, true, Bool-cases, Option-cases, inl, inr,
  Option, none, some, List, [], ◌∷◌, length, ltb, ◌==◌, ==_iff, if◌then◌else◌, eq_text, eq_text_iff,
  arith,
}
use cc_be_chat_test.Common.Maps.{
  lookup, insert, lookup-insert, lookup-insert_other, lookup-delete, lookup-delete_other,
}
use cc_be_chat_test.Popular.{Words, PopularWords, add_count, clear, add, merge, tally}

-- How often a map counts a word.
abbrev pub total : Words → List ℕ → ℕ
total [] word = 0
total ((w, n) ∷ words) word =
    let rest = total words word in if eq_text w word then n + rest else rest

-- How often a word was said in a second.
abbrev pub said_at : PopularWords → ℕ → List ℕ → ℕ
said_at popular i word = elim (lookup ◌==◌ popular i) [ none ↦ 0 | some words ↦ total words word ]

-- How often it was said in `n` seconds from `i` on.
abbrev pub said_in : PopularWords → ℕ → ℕ → List ℕ → ℕ
said_in popular i zero word = 0
said_in popular i (suc n) word = said_at popular i word + said_in popular (i + 1) n word

total-insert_new :
    (words : Words) (w word : List ℕ) (n : ℕ)
    → lookup eq_text words w ≡ none
    → total (insert eq_text words w n) word ≡ total words word + total ((w, n) ∷ []) word
total-insert_new [] w word n e = omega arith
total-insert_new ((key, old) ∷ words) w word n e = elim (Bool-cases (eq_text key w)) [
  | inl same ↦ let g = rw same at e in absurd (ground arith)
  | inr other ↦ elim (Bool-cases (eq_text key word)) [
    | inl this ↦ rw (other, this, total-insert_new words w word n (rw other at e)) (omega arith)
    | inr that ↦ rw (other, that) (total-insert_new words w word n (rw other at e))
  ]
]

total-insert_old :
    (words : Words) (w word : List ℕ) (old n : ℕ)
    → lookup eq_text words w ≡ some old
    → total (insert eq_text words w (old + n)) word ≡ total words word + total ((w, n) ∷ []) word
total-insert_old [] w word old n e = absurd (ground arith)
total-insert_old ((key, m) ∷ words) w word old n e = elim (Bool-cases (eq_text key w)) [
  | inl same ↦
      let g = rw same at e in
      let value : m ≡ old = ground arith in
      let key_w : key ≡ w = (eq_text_iff key w).0 same in
      elim (Bool-cases (eq_text w word)) [
        | inl this ↦ rw (same, key_w, this) (omega (arith, value))
        | inr that ↦ rw (same, key_w, that) (omega arith)
      ]
  | inr other ↦ elim (Bool-cases (eq_text key word)) [
    | inl this ↦ rw (other, this, total-insert_old words w word old n (rw other at e)) (omega arith)
    | inr that ↦ rw (other, that) (total-insert_old words w word old n (rw other at e))
  ]
]

total-add_count :
    (words : Words) (w word : List ℕ) (n : ℕ)
    → total (add_count words w n) word ≡ total words word + total ((w, n) ∷ []) word
unfolding add_count
total-add_count words w word n = elim (Option-cases (lookup eq_text words w)) [
  | inl new ↦
      let step : add_count words w n ≡ insert eq_text words w n = rw (add_count, new) refl in
      rw (step) (total-insert_new words w word n new)
  | inr (old, e) ↦
      let step : add_count words w n ≡ insert eq_text words w (old + n) = rw (add_count, e) refl in
      rw (step) (total-insert_old words w word old n e)
]

total-cons :
    (w word : List ℕ) (n : ℕ) (words : Words)
    → total ((w, n) ∷ words) word ≡ total ((w, n) ∷ []) word + total words word
total-cons w word n words = elim (Bool-cases (eq_text w word)) [
  | inl this ↦ rw (this) (omega arith)
  | inr that ↦ rw (that) (omega arith)
]

total-merge :
    (temp words : Words) (word : List ℕ)
    → total (merge temp words) word ≡ total temp word + total words word
unfolding merge
total-merge temp [] word = omega arith
total-merge temp ((w, n) ∷ words) word = omega (
  arith,
  total-merge (add_count temp w n) words word,
  total-add_count temp w word n,
  total-cons w word n words,
)

-- The counts that get works with: each word's is the number of times it was said in the seconds of
-- the window, added up.
pub total-tally :
    (popular : PopularWords) (i n : ℕ) (temp : Words) (word : List ℕ)
    → total (tally popular i n temp) word ≡ total temp word + said_in popular i n word
unfolding tally
total-tally popular i zero temp word = omega arith
total-tally popular i (suc n) temp word = elim (Option-cases (lookup ◌==◌ popular i)) [
  | inl missing ↦ rw (said_at, missing) (omega (arith, total-tally popular (i + 1) n temp word))
  | inr (words, e) ↦
      rw (said_at, e)
        (omega (
          arith,
          total-tally popular (i + 1) n (merge temp words) word,
          total-merge temp words word,
        ))
]

-- What a word said now does to the counts of this second, when nothing is cleared.
said_now :
    (popular : PopularWords) (now : ℕ) (msg word : List ℕ)
    → said_at
        (elim (lookup ◌==◌ popular now) [
          | none ↦ insert ◌==◌ popular now ((msg, 1) ∷ [])
          | some words ↦ insert ◌==◌ popular now (add_count words msg 1)
        ])
        now
        word
      ≡ said_at popular now word + total ((msg, 1) ∷ []) word
said_now popular now msg word = elim (Option-cases (lookup ◌==◌ popular now)) [
  | inl missing ↦
      rw (said_at, missing, lookup-insert ◌==◌ ==_iff popular now ((msg, 1) ∷ [])) (omega arith)
  | inr (words, e) ↦
      rw (said_at, e, lookup-insert ◌==◌ ==_iff popular now (add_count words msg 1))
        (total-add_count words msg word 1)
]

-- This second's counts, with a word said now, before anything is cleared.
abbrev recorded : PopularWords → ℕ → List ℕ → PopularWords
recorded popular now msg = elim (lookup ◌==◌ popular now) [
  | none ↦ insert ◌==◌ popular now ((msg, 1) ∷ [])
  | some words ↦ insert ◌==◌ popular now (add_count words msg 1)
]

recorded_lem :
    (popular : PopularWords) (now : ℕ) (msg : List ℕ)
    → (words : Words) × (recorded popular now msg ≡ insert ◌==◌ popular now words)
recorded_lem popular now msg = elim (Option-cases (lookup ◌==◌ popular now)) [
  | inl missing ↦ ((msg, 1) ∷ [], rw (recorded, missing) refl)
  | inr (words, e) ↦ (add_count words msg 1, rw (recorded, e) refl)
]

lookup-recorded_other :
    (popular : PopularWords) (now i : ℕ) (msg : List ℕ)
    → now ≢ i
    → lookup ◌==◌ (recorded popular now msg) i ≡ lookup ◌==◌ popular i
lookup-recorded_other popular now i msg ne =
    let (words, e) = recorded_lem popular now msg in
    ap (λ m. lookup ◌==◌ m i) e ∙ lookup-insert_other ◌==◌ ==_iff popular now i words ne

length-insert :
    (popular : PopularWords) (i : ℕ) (words : Words)
    → length popular ≤ length (insert ◌==◌ popular i words)
length-insert [] i words = omega arith
length-insert ((key, old) ∷ popular) i words = elim (Bool-cases (key == i)) [
  | inl same ↦ rw (same) (omega arith)
  | inr other ↦ rw (other) (omega (arith, length-insert popular i words))
]

length-recorded :
    (popular : PopularWords) (now : ℕ) (msg : List ℕ)
    → length popular ≤ length (recorded popular now msg)
length-recorded popular now msg =
    let (words, e) = recorded_lem popular now msg in
    omega (arith, length-insert popular now words, ap length e)

lookup-clear_other :
    (popular : PopularWords) (now i : ℕ)
    → i + 1 ≢ now
    → lookup ◌==◌ (clear popular now) i ≡ lookup ◌==◌ popular i
unfolding clear
lookup-clear_other popular zero i ne = refl
lookup-clear_other popular (suc now) i ne = elim (Bool-cases (ltb 5 (length popular))) [
  | inl full ↦
      rw (full) (lookup-delete_other ◌==◌ ==_iff popular now i (λ e. ne (omega (arith, e))))
  | inr free ↦ rw (free) refl
]

lookup-clear :
    (popular : PopularWords) (t : ℕ)
    → 5 < length popular
    → lookup ◌==◌ (clear popular (suc t)) t ≡ none
unfolding clear
lookup-clear popular t h =
    let full : ltb 5 (length popular) ≡ true = ground arith in
    rw (full) (lookup-delete ◌==◌ ==_iff popular t)

-- A word said in the second `now`, with the clock at `later` when clear reads it, is counted once in
-- `now`, and no other word is, unless `later` is the second behind `now`. The counts of another second,
-- which is not the one before `later`, stay as they were.
pub add_counts :
    (popular : PopularWords) (now later i : ℕ) (msg word : List ℕ)
    → now + 1 ≢ later
    → now ≢ i
    → i + 1 ≢ later
    → (said_at (add popular now later msg) now word
        ≡ said_at popular now word + (if eq_text msg word then 1 else 0))
      × (said_at (add popular now later msg) i word ≡ said_at popular i word)
unfolding add
add_counts popular now later i msg word no_tick here before =
    let count : Option Words → ℕ = λ o. elim o [ none ↦ 0 | some words ↦ total words word ] in
    let made = recorded popular now msg in
    (
      ap count (lookup-clear_other made later now no_tick) ∙ said_now popular now msg word,
      ap count
          (lookup-clear_other made later i before ∙ lookup-recorded_other popular now i msg here),
    )

-- Once more than five seconds are recorded, a word said in any second `now` removes every count of the
-- second `t` before the one in which clear reads the clock: of a second inside the window of the last
-- five, or, when the clock has moved on by one since `now`, of `now` itself, the count just made too.
pub last_second_lost :
    (popular : PopularWords) (now t : ℕ) (msg word : List ℕ)
    → 5 < length popular
    → said_at (add popular now (suc t) msg) t word ≡ 0
unfolding add
last_second_lost popular now t msg word full =
    let count : Option Words → ℕ = λ o. elim o [ none ↦ 0 | some words ↦ total words word ] in
    let made = recorded popular now msg in
    ap count (lookup-clear made t (omega (arith, full, length-recorded popular now msg)))
