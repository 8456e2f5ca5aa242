-- ===== src/Badwords/Occurrences.antt =====
-- A search finds the lines of the dictionary's file wherever they stand in the text.
use cc_be_chat_test.Common.{
  ℕ, ◌≡◌, ◌≢◌, ◌≤◌, refl, ap, sym, ◌∙◌, Option-cases, inl, inr, Option, none, some, List, [], ◌∷◌,
  length, take, get_or, ◌==◌, eq_text, arith, length-replicate, length-take, ok,
}
use cc_be_chat_test.Common.Maps.{lookup}
use cc_be_chat_test.Badwords.{WordMap, WordTree, star, match_length, match_at, init, search}
use cc_be_chat_test.Badwords.Search.{Unmatched, search_clean, search-Unmatched}
use cc_be_chat_test.Badwords.Dictionary.{IsTree, init-IsTree}
use cc_be_chat_test.Badwords.Dictionary.Lengths.{
  Member, match_length_complete, match_length_sound, none-ne_some,
}

-- No line stands at any place of the text.
abbrev pub NoneIn : List (List ℕ) → List ℕ → Type 0
NoneIn lines [] = Unit {0}
NoneIn lines (c ∷ txt) =
    ((word : List ℕ) → Member word lines → take (length word) (c ∷ txt) ≢ word) × NoneIn lines txt

module _ (D : List ℕ → Type 0) (t : WordTree) (h : IsTree D t) (c : ℕ) (txt : List ℕ) where
  match_at_lem :
      (tree : WordMap)
      → lookup ◌==◌ t.trees c ≡ some tree
      → match_at t (c ∷ txt) ≡ match_length tree tree.len_slice (c ∷ txt)
  unfolding match_at
  match_at_lem tree e = rw (match_at, e) refl

  match_at_missing : lookup ◌==◌ t.trees c ≡ none → match_at t (c ∷ txt) ≡ none
  unfolding match_at
  match_at_missing e = rw (match_at, e) refl

  -- A word that stands here is matched, or a shorter one is.
  pub match_at_complete :
      (word : List ℕ) → D word → take (length word) (c ∷ txt) ≡ word → match_at t (c ∷ txt) ≢ none
  match_at_complete [] d here e = h.no_empty d
  match_at_complete (b ∷ word) d here e =
      let (tree, at, (stars, known)) = h.found b word d in
      let (value, _, n_here) = (h.maps b tree at).known (b ∷ word) stars known in
      let same : c ≡ b = ap (λ l. get_or l 0 0) here in
      let fits : length (b ∷ word) ≤ length (c ∷ txt) =
        omega (arith, ap length here, length-take (length (b ∷ word)) (c ∷ txt)) in
      let long : length stars ≢ 0 =
        λ z. omega (arith, z, ap length value, length-replicate (length (b ∷ word)) star) in
      match_length_complete tree (c ∷ txt) tree.len_slice (length (b ∷ word)) stars
        (h.maps b tree at).sorted n_here (ap (lookup eq_text tree.words) here ∙ known) long fits
        (sym (match_at_lem tree (rw (same) at)) ∙ e)

  -- What is matched here is a word that stands here.
  match_at_sound :
      (n : ℕ)
      → match_at t (c ∷ txt) ≡ some n
      → D (take n (c ∷ txt)) × (take (length (take n (c ∷ txt))) (c ∷ txt) ≡ take n (c ∷ txt))
  match_at_sound n e = elim (Option-cases (lookup ◌==◌ t.trees c)) [
    | inl missing ↦ absurd (none-ne_some n _ (match_at_missing missing) e)
    | inr (tree, at) ↦
        let (stars, known, fits) =
          match_length_sound tree (c ∷ txt) tree.len_slice n (sym (match_at_lem tree at) ∙ e) in
        let size : length (take n (c ∷ txt)) ≡ n = omega (arith, length-take n (c ∷ txt), fits) in
        (
          ((h.maps c tree at).known (take n (c ∷ txt)) stars known).1,
          ap (λ k. take k (c ∷ txt)) size,
        )
  ]

module _ (lines : List (List ℕ)) (t : WordTree) (h : IsTree (λ w. Member w lines) t)
    (replacement : Option ℕ) where
  Unmatched-NoneIn : (txt : List ℕ) → Unmatched t replacement txt → NoneIn lines txt
  Unmatched-NoneIn [] u = tt
  Unmatched-NoneIn (c ∷ txt) u = (
    λ word line here. match_at_complete (λ w. Member w lines) t h c txt word line here u.0,
    Unmatched-NoneIn txt u.1,
  )

  NoneIn-Unmatched : (txt : List ℕ) → NoneIn lines txt → Unmatched t replacement txt
  NoneIn-Unmatched [] free = tt
  NoneIn-Unmatched (c ∷ txt) free = (
    elim (Option-cases (match_at t (c ∷ txt))) [
      | inl unmatched ↦ unmatched
      | inr (n, e) ↦
          let (line, here) = match_at_sound (λ w. Member w lines) t h c txt n e in
          absurd (free.0 (take n (c ∷ txt)) line here)
    ],
    NoneIn-Unmatched txt free.1,
  )

-- For a dictionary that Init built from its lines, a search that reports no word leaves the text as
-- it was, and no line of the dictionary stands at any place of the text.
pub search_complete :
    {E : Type 0} (lines : List (List ℕ)) (t : WordTree) (txt : List ℕ) (replacement : Option ℕ)
    → init {E = E} lines ≡ ok t
    → length (search t txt replacement).1 ≡ 0
    → ((search t txt replacement).0 ≡ txt) × NoneIn lines txt
search_complete lines t txt replacement e h =
    let (unmatched, same) = search_clean t txt replacement h in
    (same, Unmatched-NoneIn lines t (init-IsTree lines t e) replacement txt unmatched)

-- For a dictionary that Init built from its lines, a text at no place of which a line of it stands
-- is returned as it was, with no word reported.
pub search_sound :
    {E : Type 0} (lines : List (List ℕ)) (t : WordTree) (txt : List ℕ) (replacement : Option ℕ)
    → init {E = E} lines ≡ ok t
    → NoneIn lines txt
    → search t txt replacement ≡ (txt, [])
search_sound lines t txt replacement e free =
    search-Unmatched t txt replacement
      (NoneIn-Unmatched lines t (init-IsTree lines t e) replacement txt free)
