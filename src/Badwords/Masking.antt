-- ===== src/Badwords/Masking.antt =====
-- What the search leaves behind stars has no line of the dictionary in it.
use cc_be_chat_test.Common.{
  ℕ, zero, suc, ◌-◌, ◌≡◌, ◌≢◌, ◌⊎◌, refl, ap, ap₂, sym, ◌∙◌, inl, inr, Option-cases, some, List, [],
  ◌∷◌, length, take, get_or, All, arith, ok,
}
use cc_be_chat_test.Badwords.{WordTree, star, match_at, count_word, masked, run, search, init}
use cc_be_chat_test.Badwords.Search.{run-none, run-some}
use cc_be_chat_test.Badwords.Occurrences.{NoneIn, match_at_complete}
use cc_be_chat_test.Badwords.Dictionary.{IsTree, init-IsTree}
use cc_be_chat_test.Badwords.Dictionary.Lengths.{Member}

-- `out` is `txt` with stars in place of some characters.
Masks : List ℕ → List ℕ → Type 0
Masks [] out = out ≡ []
Masks (c ∷ txt) [] = (c ∷ txt) ≡ []
Masks (c ∷ txt) (o ∷ out) = ((o ≡ c) ⊎ (o ≡ star)) × Masks txt out

-- A word without stars that stands behind the stars stood there before.
stood :
    (word txt out : List ℕ)
    → Masks txt out
    → All (λ c. c ≢ star) word
    → take (length word) out ≡ word
    → take (length word) txt ≡ word
unfolding Masks
stood [] txt out m plain here = refl
stood (b ∷ word) [] out m plain here = ap (take (length (b ∷ word))) (sym m) ∙ here
stood (b ∷ word) (c ∷ txt) [] m plain here = absurd (ground (arith, ap length here))
stood (b ∷ word) (c ∷ txt) (o ∷ out) m plain here =
    let first : o ≡ b = ap (λ l. get_or l 0 0) here in
    let others : take (length word) out ≡ word = ap tail here in
    elim m.0 [
      | inl same ↦ ap₂ ◌∷◌ (sym same ∙ first) (stood word txt out m.1 plain.1 others)
      | inr hidden ↦ absurd (plain.0 (sym first ∙ hidden))
    ]
  where
    tail : List ℕ → List ℕ
    tail [] = []
    tail (x ∷ xs) = xs

kept : (c : ℕ) (txt out : List ℕ) → Masks txt out → Masks (c ∷ txt) (c ∷ out)
unfolding Masks
kept c txt out m = (inl refl, m)

module _ (t : WordTree) where
  run-Masks :
      (skip : ℕ) (txt : List ℕ) (m : List (List ℕ × ℕ)) → Masks txt (run t (some star) skip txt m).0
  unfolding run Masks masked
  run-Masks skip [] m = refl
  run-Masks (suc skip) (c ∷ txt) m = (inr refl, run-Masks skip txt m)
  run-Masks zero (c ∷ txt) m = elim (Option-cases (match_at t (c ∷ txt))) [
    | inl unmatched ↦ rw (run-none t (some star) c txt m unmatched) (inl refl, run-Masks zero txt m)
    | inr (n, e) ↦
        rw (run-some t (some star) c n txt m e)
          (inr refl, run-Masks (n - 1) txt (count_word m (take n (c ∷ txt))))
  ]

module _ (lines : List (List ℕ)) (t : WordTree) (h : IsTree (λ w. Member w lines) t)
    (plain : (word : List ℕ) → Member word lines → All (λ c. c ≢ star) word) where
  -- No line starts with a star.
  behind_star : (out word : List ℕ) → Member word lines → take (length word) (star ∷ out) ≢ word
  behind_star out [] line here = h.no_empty line
  behind_star out (b ∷ word) line here =
      (plain (b ∷ word) line).0 (sym (ap (λ l. get_or l 0 0) here))

  run-NoneIn :
      (skip : ℕ) (txt : List ℕ) (m : List (List ℕ × ℕ))
      → NoneIn lines (run t (some star) skip txt m).0
  unfolding run masked
  run-NoneIn skip [] m = tt
  run-NoneIn (suc skip) (c ∷ txt) m =
      (behind_star (run t (some star) skip txt m).0, run-NoneIn skip txt m)
  run-NoneIn zero (c ∷ txt) m = elim (Option-cases (match_at t (c ∷ txt))) [
    | inl unmatched ↦
        let out = (run t (some star) zero txt m).0 in
        rw (run-none t (some star) c txt m unmatched) (
          λ word line here.
              match_at_complete (λ w. Member w lines) t h c txt word line
                (stood word (c ∷ txt) (c ∷ out) (kept c txt out (run-Masks t zero txt m))
                  (plain word line) here)
                unmatched,
          run-NoneIn zero txt m,
        )
    | inr (n, e) ↦
        let counted = count_word m (take n (c ∷ txt)) in
        rw (run-some t (some star) c n txt m e)
          (behind_star (run t (some star) (n - 1) txt counted).0, run-NoneIn (n - 1) txt counted)
  ]

-- For a dictionary that Init built from lines without stars, no line of it stands at any place of the
-- text that a search with stars leaves, whatever the text was.
pub search-NoneIn :
    {E : Type 0} (lines : List (List ℕ)) (t : WordTree) (txt : List ℕ)
    → init {E = E} lines ≡ ok t
    → ((word : List ℕ) → Member word lines → All (λ c. c ≢ star) word)
    → NoneIn lines (search t txt (some star)).0
unfolding search
search-NoneIn lines t txt e plain = run-NoneIn lines t (init-IsTree lines t e) plain zero txt []
