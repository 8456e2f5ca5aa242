-- ===== src/Badwords/Dictionary/Lengths.antt =====
-- The sorted lengths of the words, and the first of them that matches.
use cc_be_chat_test.Common.{
  ℕ, ◌≡◌, ◌≢◌, ◌≤◌, ◌<◌, refl, ap, sym, ◌∙◌, true, false, Bool-cases, Option-cases, inl, inr,
  Option, none, some, List, [], ◌∷◌, length, take, ltb, ◌==◌, eq_text, arith, All,
}
pub use cc_be_chat_test.Common.{Member}
use cc_be_chat_test.Common.Maps.{lookup}
use cc_be_chat_test.Badwords.{WordMap, insert_sorted, match_length}

abbrev pub Sorted : List ℕ → Type 0
Sorted [] = Unit {0}
Sorted (n ∷ lens) = All (λ m. n ≤ m) lens × Sorted lens

pub insert_sorted-Member : (lens : List ℕ) (n : ℕ) → Member n (insert_sorted lens n)
unfolding insert_sorted
insert_sorted-Member [] n = inl refl
insert_sorted-Member (m ∷ lens) n = elim (Bool-cases (ltb n m)) [
  | inl less ↦ rw (less) (inl refl)
  | inr more ↦ rw (more) (inr (insert_sorted-Member lens n))
]

pub insert_sorted-Member_other :
    (lens : List ℕ) (n k : ℕ) → Member k lens → Member k (insert_sorted lens n)
unfolding insert_sorted
insert_sorted-Member_other [] n k h = absurd h
insert_sorted-Member_other (m ∷ lens) n k h = elim (Bool-cases (ltb n m)) [
  | inl less ↦ rw (less) (inr h)
  | inr more ↦
      rw (more)
        (elim h [ inl e ↦ inl e | inr rest ↦ inr (insert_sorted-Member_other lens n k rest) ])
]

All-insert_sorted :
    (lens : List ℕ) (n m : ℕ)
    → m ≤ n
    → All (λ k. m ≤ k) lens
    → All (λ k. m ≤ k) (insert_sorted lens n)
unfolding insert_sorted
All-insert_sorted [] n m le h = (le, tt)
All-insert_sorted (k ∷ lens) n m le h = elim (Bool-cases (ltb n k)) [
  | inl less ↦ rw (less) (le, h)
  | inr more ↦ rw (more) (h.0, All-insert_sorted lens n m le h.1)
]

All-weaken : (lens : List ℕ) (m n : ℕ) → m ≤ n → All (λ k. n ≤ k) lens → All (λ k. m ≤ k) lens
All-weaken [] m n le h = tt
All-weaken (k ∷ lens) m n le h = (omega (arith, h.0), All-weaken lens m n le h.1)

pub insert_sorted-Sorted : (lens : List ℕ) (n : ℕ) → Sorted lens → Sorted (insert_sorted lens n)
unfolding insert_sorted
insert_sorted-Sorted [] n h = (tt, tt)
insert_sorted-Sorted (m ∷ lens) n h = elim (Bool-cases (ltb n m)) [
  | inl less ↦
      let below : n ≤ m = ground arith in rw (less) ((below, All-weaken lens n m below h.0), h)
  | inr more ↦
      let above : m ≤ n = ground arith in
      rw (more) (All-insert_sorted lens n m above h.0, insert_sorted-Sorted lens n h.1)
]

All-Member : (P : ℕ → Type 0) (lens : List ℕ) (n : ℕ) → All P lens → Member n lens → P n
All-Member P [] n h here = absurd here
All-Member P (m ∷ lens) n h (inl e) = rw (← e) h.0
All-Member P (m ∷ lens) n h (inr rest) = All-Member P lens n h.1 rest

module _ (tree : WordMap) (txt : List ℕ) (k : ℕ) (lens : List ℕ) where
  match-short : ltb (length txt) k ≡ true → match_length tree (k ∷ lens) txt ≡ none
  unfolding match_length
  match-short short = rw (match_length, short) refl

  match-missing :
      ltb (length txt) k ≡ false
      → lookup eq_text tree.words (take k txt) ≡ none
      → match_length tree (k ∷ lens) txt ≡ match_length tree lens txt
  unfolding match_length
  match-missing long missing = rw (match_length, long, missing) refl

  module _ (stars : List ℕ) (long : ltb (length txt) k ≡ false)
      (known : lookup eq_text tree.words (take k txt) ≡ some stars) where
    match-empty :
        (length stars == 0) ≡ true → match_length tree (k ∷ lens) txt ≡ match_length tree lens txt
    unfolding match_length
    match-empty empty = rw (match_length, long, known, empty) refl

    match-found : (length stars == 0) ≡ false → match_length tree (k ∷ lens) txt ≡ some k
    unfolding match_length
    match-found full = rw (match_length, long, known, full) refl

-- The four ways in which the first length is passed over or taken.
pub data Tried (tree : WordMap) (txt : List ℕ) (k : ℕ) (lens : List ℕ) : Type 0 where
  short : length txt < k → match_length tree (k ∷ lens) txt ≡ none → Tried tree txt k lens
  passed :
      ((stars : List ℕ) → lookup eq_text tree.words (take k txt) ≡ some stars → length stars ≡ 0)
      → match_length tree (k ∷ lens) txt ≡ match_length tree lens txt
      → Tried tree txt k lens
  taken :
      (stars : List ℕ)
      → lookup eq_text tree.words (take k txt) ≡ some stars
      → k ≤ length txt
      → match_length tree (k ∷ lens) txt ≡ some k
      → Tried tree txt k lens

pub some-injective : {A : Type 0} (a b : A) (o : Option A) → o ≡ some a → o ≡ some b → a ≡ b
some-injective {A} a b o ea eb =
    ap (λ (x : Option A). elim x as (λ y. A) [ none ↦ a | some c ↦ c ]) (sym ea ∙ eb)

pub none-ne_some {ℓ} : {A : Type ℓ} (a : A) (o : Option A) → o ≡ none → o ≢ some a
none-ne_some a o en es = absurd (cc)

tried : (tree : WordMap) (txt : List ℕ) (k : ℕ) (lens : List ℕ) → Tried tree txt k lens
tried tree txt k lens = elim (Bool-cases (ltb (length txt) k)) [
  | inl e ↦ short (ground arith) (match-short tree txt k lens e)
  | inr long ↦ elim (Option-cases (lookup eq_text tree.words (take k txt))) [
    | inl missing ↦
        passed (λ stars e. absurd (none-ne_some stars _ missing e))
          (match-missing tree txt k lens long missing)
    | inr (stars, known) ↦ elim (Bool-cases (length stars == 0)) [
      | inl empty ↦
          let zero_length : length stars ≡ 0 = ground arith in
          passed (λ other e. ap length (some-injective other stars _ e known) ∙ zero_length)
            (match-empty tree txt k lens stars long known empty)
      | inr full ↦
          taken stars known (ground arith) (match-found tree txt k lens stars long known full)
    ]
  ]
]

module _ (tree : WordMap) (txt : List ℕ) where
  -- A length with a word is found, unless a shorter one is.
  pub match_length_complete :
      (lens : List ℕ) (n : ℕ) (stars : List ℕ)
      → Sorted lens
      → Member n lens
      → lookup eq_text tree.words (take n txt) ≡ some stars
      → length stars ≢ 0
      → n ≤ length txt
      → match_length tree lens txt ≢ none
  match_length_complete [] n stars sorted here found ne fits e = here
  match_length_complete (k ∷ lens) n stars sorted here found ne fits e =
      elim (tried tree txt k lens) [
        | short less _ ↦ elim here [
          | inl same ↦ omega (arith, same)
          | inr rest ↦ omega (arith, All-Member (λ m. k ≤ m) lens n sorted.0 rest)
        ]
        | passed empty step ↦ elim here [
          | inl same ↦ ne (empty stars (rw (same) found))
          | inr rest ↦ match_length_complete lens n stars sorted.1 rest found ne fits (sym step ∙ e)
        ]
        | taken _ _ _ step ↦ none-ne_some k _ e step
      ]

  -- What is found is a word of the map.
  pub match_length_sound :
      (lens : List ℕ) (n : ℕ)
      → match_length tree lens txt ≡ some n
      → (stars : List ℕ) × (lookup eq_text tree.words (take n txt) ≡ some stars) × (n ≤ length txt)
  unfolding match_length
  match_length_sound [] n e = absurd (none-ne_some n none refl e)
  match_length_sound (k ∷ lens) n e = elim (tried tree txt k lens) [
    | short _ step ↦ absurd (none-ne_some n _ step e)
    | passed _ step ↦ match_length_sound lens n (sym step ∙ e)
    | taken stars known fits step ↦
        let same : k ≡ n = some-injective k n _ step e in
        (stars, rw (← same) known, omega (arith, same))
  ]
