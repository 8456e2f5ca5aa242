-- ===== src/Badwords/Search.antt =====
-- What a search does to the text: its length, and when it is left as it was.
use cc_be_chat_test.Common.{
  ℕ, zero, suc, ◌+◌, ◌-◌, ◌≡◌, ◌≤◌, refl, ap, sym, ◌∙◌, Bool-cases, Option-cases, inl, inr, Option,
  none, some, List, [], ◌∷◌, length, take, eq_text, arith,
}
use cc_be_chat_test.Common.Maps.{lookup, insert}
use cc_be_chat_test.Badwords.{WordTree, match_at, count_word, masked, run, search}

abbrev Found : Type 0
Found = List (List ℕ × ℕ)

module _ (t : WordTree) (replacement : Option ℕ) where
  -- One step of the loop, at a character that no match has reached.
  pub run-none :
      (c : ℕ) (txt : List ℕ) (m : Found)
      → match_at t (c ∷ txt) ≡ none
      → run t replacement zero (c ∷ txt) m
        ≡ (c ∷ (run t replacement zero txt m).0, (run t replacement zero txt m).1)
  unfolding run
  run-none c txt m e = rw (run, e) refl

  pub run-some :
      (c n : ℕ) (txt : List ℕ) (m : Found)
      → match_at t (c ∷ txt) ≡ some n
      → let after = run t replacement (n - 1) txt (count_word m (take n (c ∷ txt))) in
        run t replacement zero (c ∷ txt) m ≡ (masked replacement c ∷ after.0, after.1)
  unfolding run masked
  run-some c n txt m e = rw (run, e) refl

  -- The text after the search is as long as it was.
  pub length-run :
      (skip : ℕ) (txt : List ℕ) (m : Found) → length (run t replacement skip txt m).0 ≡ length txt
  unfolding run
  length-run skip [] m = refl
  length-run (suc skip) (c ∷ txt) m = ap suc (length-run skip txt m)
  length-run zero (c ∷ txt) m = elim (Option-cases (match_at t (c ∷ txt))) [
    | inl unmatched ↦
        ap (λ r. length r.0) (run-none c txt m unmatched) ∙ ap suc (length-run zero txt m)
    | inr (n, e) ↦
        ap (λ r. length r.0) (run-some c n txt m e)
        ∙ ap suc (length-run (n - 1) txt (count_word m (take n (c ∷ txt))))
  ]

length-insert :
    (m : Found) (word : List ℕ) (n : ℕ)
    → (length m ≤ length (insert eq_text m word n)) × (1 ≤ length (insert eq_text m word n))
length-insert [] word n = (omega arith, omega arith)
length-insert ((key, old) ∷ m) word n = elim (Bool-cases (eq_text key word)) [
  | inl same ↦ rw (same) (omega arith, omega arith)
  | inr other ↦ let h = length-insert m word n in rw (other) (omega (arith, h.0), omega arith)
]

length-count_word :
    (m : Found) (word : List ℕ)
    → (length m ≤ length (count_word m word)) × (1 ≤ length (count_word m word))
unfolding count_word
length-count_word m word = elim (Option-cases (lookup eq_text m word)) [
  | inl new ↦ rw (count_word, new) (length-insert m word 1)
  | inr (sum, e) ↦ rw (count_word, e) (length-insert m word (sum + 1))
]

module _ (t : WordTree) (replacement : Option ℕ) where
  length-run_found :
      (skip : ℕ) (txt : List ℕ) (m : Found) → length m ≤ length (run t replacement skip txt m).1
  unfolding run
  length-run_found skip [] m = omega arith
  length-run_found (suc skip) (c ∷ txt) m = length-run_found skip txt m
  length-run_found zero (c ∷ txt) m = elim (Option-cases (match_at t (c ∷ txt))) [
    | inl unmatched ↦ omega (
      arith,
      ap (λ r. length r.1) (run-none t replacement c txt m unmatched),
      length-run_found zero txt m,
    )
    | inr (n, e) ↦
        let counted = count_word m (take n (c ∷ txt)) in
        omega (
          arith,
          ap (λ r. length r.1) (run-some t replacement c n txt m e),
          length-run_found (n - 1) txt counted,
          (length-count_word m (take n (c ∷ txt))).0,
        )
  ]

  -- No character from here on starts a match.
  abbrev pub Unmatched : List ℕ → Type 0
  Unmatched [] = Unit {0}
  Unmatched (c ∷ txt) = (match_at t (c ∷ txt) ≡ none) × Unmatched txt

  -- If nothing was found, then nothing matches, and the text is as it was.
  run_clean :
      (txt : List ℕ) (m : Found)
      → length (run t replacement zero txt m).1 ≡ 0
      → Unmatched txt × ((run t replacement zero txt m).0 ≡ txt)
  unfolding run
  run_clean [] m h = (tt, refl)
  run_clean (c ∷ txt) m h = elim (Option-cases (match_at t (c ∷ txt))) [
    | inl unmatched ↦
        let step = run-none t replacement c txt m unmatched in
        let rest = run_clean txt m (sym (ap (λ r. length r.1) step) ∙ h) in
        ((unmatched, rest.0), ap (λ r. r.0) step ∙ ap (◌∷◌ c) rest.1)
    | inr (n, e) ↦
        let counted = count_word m (take n (c ∷ txt)) in
        absurd (
          omega (
            arith,
            h,
            ap (λ r. length r.1) (run-some t replacement c n txt m e),
            length-run_found (n - 1) txt counted,
            (length-count_word m (take n (c ∷ txt))).1,
          ))
  ]

  run-Unmatched :
      (txt : List ℕ) (m : Found) → Unmatched txt → run t replacement zero txt m ≡ (txt, m)
  unfolding run
  run-Unmatched [] m h = refl
  run-Unmatched (c ∷ txt) m (unmatched, h) =
      let rest = run-Unmatched txt m h in
      run-none t replacement c txt m unmatched ∙ ap (λ r. (c ∷ r.0, r.1)) rest

-- The text after a search is as long as it was.
pub search-length :
    (t : WordTree) (txt : List ℕ) (replacement : Option ℕ)
    → length (search t txt replacement).0 ≡ length txt
unfolding search
search-length t txt replacement = length-run t replacement zero txt []

pub search_clean :
    (t : WordTree) (txt : List ℕ) (replacement : Option ℕ)
    → length (search t txt replacement).1 ≡ 0
    → Unmatched t replacement txt × ((search t txt replacement).0 ≡ txt)
unfolding search
search_clean t txt replacement h = run_clean t replacement txt [] h

pub search-Unmatched :
    (t : WordTree) (txt : List ℕ) (replacement : Option ℕ)
    → Unmatched t replacement txt
    → search t txt replacement ≡ (txt, [])
unfolding search
search-Unmatched t txt replacement u = run-Unmatched t replacement txt [] u
