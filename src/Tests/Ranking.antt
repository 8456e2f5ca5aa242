-- ===== src/Tests/Ranking.antt =====
-- The ranking of eleven words, with a sort that puts entries in an order of falling counts.
use mathlib.Core.List.{Perm}
use mathlib.Core.List.Perm
use cc_be_chat_test.Common.{
  ℕ, ◌≡◌, ◌≤◌, ◌⊎◌, refl, Bool, true, false, Bool-cases, inl, inr, List, [], ◌∷◌, length, All,
  Member, leb, if◌then◌else◌, eq_text, eq_text_iff, arith,
}
use cc_be_chat_test.Popular.{Words, PopularWords, get, tally, merge, add_count}
use cc_be_chat_test.Popular.Entries.{Descending, Sorts}
use cc_be_chat_test.Popular.Ranking.{recorded_lately, get_ranks}

abbrev put : List ℕ × ℕ → Words → Words
put e [] = e ∷ []
put e (x ∷ words) = let rest = put e words in if leb x.1 e.1 then e ∷ x ∷ words else x ∷ rest

abbrev by_count : Words → Words
by_count [] = []
by_count (e ∷ words) = put e (by_count words)

put-Perm : (e : List ℕ × ℕ) (words : Words) → Perm (e ∷ words) (put e words)
put-Perm e [] = Perm.refl (e ∷ [])
put-Perm e (x ∷ words) = elim (Bool-cases (leb x.1 e.1)) [
  | inl le ↦ rw (le) (Perm.refl (e ∷ x ∷ words))
  | inr gt ↦ rw (gt) (Perm.trans (Perm.swap x e words) (Perm.cons x (put-Perm e words)))
]

by_count-Perm : (words : Words) → Perm words (by_count words)
by_count-Perm [] = Perm.nil
by_count-Perm (e ∷ words) =
    Perm.trans (Perm.cons e (by_count-Perm words)) (put-Perm e (by_count words))

put_below :
    (n : ℕ) (e : List ℕ × ℕ) (words : Words)
    → e.1 ≤ n
    → All (λ d. d.1 ≤ n) words
    → All (λ d. d.1 ≤ n) (put e words)
put_below n e [] h below = (h, tt)
put_below n e (x ∷ words) h below = elim (Bool-cases (leb x.1 e.1)) [
  | inl le ↦ rw (le) (h, below)
  | inr gt ↦ rw (gt) (below.0, put_below n e words h below.1)
]

all_below : (m n : ℕ) (words : Words) → m ≤ n → All (λ d. d.1 ≤ m) words → All (λ d. d.1 ≤ n) words
all_below m n [] h below = tt
all_below m n (x ∷ words) h below = (omega (arith, h, below.0), all_below m n words h below.1)

put-Descending : (e : List ℕ × ℕ) (words : Words) → Descending words → Descending (put e words)
put-Descending e [] h = (tt, tt)
put-Descending e ((w, n) ∷ words) h = elim (Bool-cases (leb n e.1)) [
  | inl le ↦
      let small : n ≤ e.1 = ground arith in rw (le) ((small, all_below n e.1 words small h.0), h)
  | inr gt ↦
      let small : e.1 ≤ n = ground arith in
      rw (gt) (put_below n e words small h.0, put-Descending e words h.1)
]

by_count-Descending : (words : Words) → Descending (by_count words)
by_count-Descending [] = tt
by_count-Descending (e ∷ words) = put-Descending e (by_count words) (by_count-Descending words)

by_count-Sorts : Sorts by_count
by_count-Sorts words = (by_count-Perm words, by_count-Descending words)

abbrev contains : List (List ℕ) → List ℕ → Bool
contains [] word = false
contains (w ∷ words) word = let rest = contains words word in if eq_text w word then true else rest

not_Member :
    (words : List (List ℕ)) (word : List ℕ) → contains words word ≡ false → Member word words → ⊥
not_Member [] word h m = m
not_Member (w ∷ words) word h (inl same) =
    absurd (ground (arith, rw ((eq_text_iff w word).1 same) at h))
not_Member (w ∷ words) word h (inr m) = elim (Bool-cases (eq_text w word)) [
  | inl here ↦ absurd (ground (arith, rw here at h))
  | inr other ↦ not_Member words word (rw other at h) m
]

abbrev letter : ℕ → List ℕ
letter n = n ∷ []

-- In the second 100 eleven letters were said, `f` once and each of the others twice or more.
abbrev eleven : PopularWords
eleven =
    (
      100,
      (letter 97, 2)
          ∷ (letter 98, 3)
          ∷ (letter 99, 2)
          ∷ (letter 100, 5)
          ∷ (letter 101, 2)
          ∷ (letter 102, 1)
          ∷ (letter 103, 2)
          ∷ (letter 104, 4)
          ∷ (letter 105, 2)
          ∷ (letter 106, 2)
          ∷ (letter 107, 2)
          ∷ [],
    )
    ∷ []

f_left_out : contains (get by_count eleven 101) (letter 102) ≡ false
unfolding get tally merge add_count
f_left_out = refl

get_ranks_example :
    (length (get by_count eleven 101) ≤ 10)
    × ((recorded_lately eleven 101 (letter 102) ≡ 0)
        ⊎ ((length (get by_count eleven 101) ≡ 10)
            × All
                (λ w. recorded_lately eleven 101 (letter 102) ≤ recorded_lately eleven 101 w)
                (get by_count eleven 101)))
get_ranks_example =
    get_ranks by_count eleven 101 (letter 102) by_count-Sorts
      (not_Member (get by_count eleven 101) (letter 102) f_left_out)
