-- ===== src/Popular/Entries.antt =====
-- The entries of the counts that get sorts: how they add up, and what a falling order makes of them.
use mathlib.Core.List.{Perm}
use cc_be_chat_test.Common.{
  ℕ, zero, suc, ◌+◌, ◌≡◌, ◌≤◌, refl, ap, ◌⊎◌, Bool-cases, Option-cases, inl, inr, none, some, List,
  [], ◌∷◌, map, length, take, drop, All, All-drop, Member, ◌==◌, if◌then◌else◌, eq_text,
  eq_text_iff, arith,
}
use cc_be_chat_test.Common.Maps.{lookup}
use cc_be_chat_test.Common.Distinct.{Distinct, insert-Distinct}
use cc_be_chat_test.Common.Sums.{sum_of}
use cc_be_chat_test.Popular.{Words, PopularWords, add_count, merge, tally}
use cc_be_chat_test.Popular.Counts.{total}

-- What sort.Slice does to the entries of a map: they are put in an order of falling counts.
abbrev pub Descending : Words → Type 0
Descending [] = Unit {0}
Descending ((w, n) ∷ words) = All (λ e. e.1 ≤ n) words × Descending words

abbrev pub Sorts : (Words → Words) → Type 0
Sorts arrange = (words : Words) → Perm words (arrange words) × Descending (arrange words)

-- The count in an entry of a word, and the number of the entries.
pub count_of : List ℕ → List ℕ × ℕ → ℕ
count_of word e = if eq_text e.0 word then e.1 else 0

pub entry_of : List ℕ → List ℕ × ℕ → ℕ
entry_of word e = if eq_text e.0 word then 1 else 0

pub total_lem : (words : Words) (word : List ℕ) → total words word ≡ sum_of (count_of word) words
unfolding count_of
total_lem [] word = refl
total_lem ((w, n) ∷ words) word = elim (Bool-cases (eq_text w word)) [
  | inl same ↦ rw (same) (omega (arith, total_lem words word))
  | inr other ↦ rw (other) (omega (arith, total_lem words word))
]

module _ (word : List ℕ) where
  no_entries : (words : Words) → sum_of (entry_of word) words ≡ 0 → sum_of (count_of word) words ≡ 0
  unfolding count_of entry_of
  no_entries [] h = refl
  no_entries ((w, n) ∷ words) h = elim (Bool-cases (eq_text w word)) [
    | inl same ↦ let one = rw same at h in absurd (omega (arith, one))
    | inr other ↦
        let rest = rw other at h in
        rw (other) (omega (arith, no_entries words (omega (arith, rest))))
  ]

  pub not_listed :
      (words : Words) → (Member word (map (λ e. e.0) words) → ⊥) → sum_of (count_of word) words ≡ 0
  unfolding count_of
  not_listed [] h = refl
  not_listed ((w, n) ∷ words) h = elim (Bool-cases (eq_text w word)) [
    | inl same ↦ absurd (h (inl ((eq_text_iff w word).0 same)))
    | inr other ↦ rw (other) (omega (arith, not_listed words (λ m. h (inr m))))
  ]

  -- A word in the list has an entry, which its count is not below.
  pub listed :
      (P : ℕ → Type 0) (words : Words)
      → Member word (map (λ e. e.0) words)
      → All (λ e. P e.1) words
      → (n : ℕ) × (P n × (n ≤ sum_of (count_of word) words))
  unfolding count_of
  listed P [] m h = absurd m
  listed P ((w, n) ∷ words) (inl e) h =
      let same = (eq_text_iff w word).1 e in (n, (h.0, rw (same) (omega arith)))
  listed P ((w, n) ∷ words) (inr m) h =
      let (k, (p, le)) = listed P words m h.1 in (k, (p, omega (arith, le)))

  -- With one entry at most, a bound of all entries bounds the count.
  pub bounded :
      (n : ℕ) (words : Words)
      → sum_of (entry_of word) words ≤ 1
      → All (λ e. e.1 ≤ n) words
      → sum_of (count_of word) words ≤ n
  unfolding count_of entry_of
  bounded n [] h le = omega arith
  bounded n ((w, k) ∷ words) h le = elim (Bool-cases (eq_text w word)) [
    | inl same ↦
        let one = rw same at h in
        rw (same) (omega (arith, le.0, no_entries words (omega (arith, one))))
    | inr other ↦
        let rest = rw other at h in
        rw (other) (omega (arith, bounded n words (omega (arith, rest)) le.1))
  ]

  absent : (words : Words) → lookup eq_text words word ≡ none → sum_of (entry_of word) words ≡ 0
  unfolding entry_of
  absent [] e = refl
  absent ((w, n) ∷ words) e = elim (Bool-cases (eq_text w word)) [
    | inl same ↦ absurd (some_ne n (rw same at e))
    | inr other ↦ rw (other) (omega (arith, absent words (rw other at e)))
  ]
    where
      some_ne : (n : ℕ) → some n ≡ none → ⊥
      some_ne n e = absurd (cc)

  pub once : (words : Words) → Distinct eq_text eq_text_iff words → sum_of (entry_of word) words ≤ 1
  unfolding entry_of
  once [] h = omega arith
  once ((w, n) ∷ words) (new, h) = elim (Bool-cases (eq_text w word)) [
    | inl same ↦ rw (same) (omega (arith, absent words (rw ((eq_text_iff w word).0 same) at new)))
    | inr other ↦ rw (other) (omega (arith, once words h))
  ]

-- Each word has one entry in the counts that get works with.
add_count-Distinct :
    (words : Words) (w : List ℕ) (n : ℕ)
    → Distinct eq_text eq_text_iff words
    → Distinct eq_text eq_text_iff (add_count words w n)
unfolding add_count
add_count-Distinct words w n h = elim (Option-cases (lookup eq_text words w)) [
  | inl new ↦ rw (add_count, new) (insert-Distinct eq_text eq_text_iff words w n h)
  | inr (old, e) ↦ rw (add_count, e) (insert-Distinct eq_text eq_text_iff words w (old + n) h)
]

merge-Distinct :
    (temp words : Words)
    → Distinct eq_text eq_text_iff temp
    → Distinct eq_text eq_text_iff (merge temp words)
unfolding merge
merge-Distinct temp [] h = h
merge-Distinct temp ((w, n) ∷ words) h =
    merge-Distinct (add_count temp w n) words (add_count-Distinct temp w n h)

pub tally-Distinct :
    (popular : PopularWords) (i n : ℕ) (temp : Words)
    → Distinct eq_text eq_text_iff temp
    → Distinct eq_text eq_text_iff (tally popular i n temp)
unfolding tally
tally-Distinct popular i zero temp h = h
tally-Distinct popular i (suc n) temp h = elim (Option-cases (lookup ◌==◌ popular i)) [
  | inl missing ↦ rw (missing) (tally-Distinct popular (i + 1) n temp h)
  | inr (words, e) ↦
      rw (e) (tally-Distinct popular (i + 1) n (merge temp words) (merge-Distinct temp words h))
]

-- In falling order, no entry behind a place is above one before it.
pub cut :
    (n : ℕ) (words : Words)
    → Descending words
    → All (λ e. All (λ d. d.1 ≤ e.1) (drop n words)) (take n words)
cut zero words h = tt
cut (suc n) [] h = tt
cut (suc n) ((w, k) ∷ words) h = (All-drop (λ d. d.1 ≤ k) n words h.0, cut n words h.1)

pub take-map :
    (n : ℕ) (words : Words) → take n (map (λ e. e.0) words) ≡ map (λ e. e.0) (take n words)
take-map zero words = refl
take-map (suc n) [] = refl
take-map (suc n) (e ∷ words) = ap (◌∷◌ e.0) (take-map n words)

pub length-map : (words : Words) → length (map (λ e. e.0) words) ≡ length words
length-map [] = refl
length-map (e ∷ words) = ap suc (length-map words)

pub some_entry : (f : List ℕ × ℕ → ℕ) (words : Words) → 1 ≤ sum_of f words → 1 ≤ length words
some_entry f [] h = absurd (omega arith)
some_entry f (e ∷ words) h = omega arith

pub nothing : (words : Words) (v : List ℕ) → length words ≡ 0 → total words v ≡ 0
nothing [] v e = refl
nothing (entry ∷ words) v e = absurd (omega (arith, e))

pub nat_cases : (n : ℕ) → (n ≡ 0) ⊎ (1 ≤ n)
nat_cases zero = inl refl
nat_cases (suc n) = inr (omega arith)

pub each_member :
    (P : List ℕ → Type 0) (words : List (List ℕ))
    → ((w : List ℕ) → Member w words → P w)
    → All P words
each_member P [] h = tt
each_member P (w ∷ words) h = (h w (inl refl), each_member P words (λ u m. h u (inr m)))
