-- ===== src/Badwords/Dictionary.antt =====
-- The dictionary that Init builds, and what a search with it finds: the lines of the file, wherever
-- they stand in the text.
pub mod Lengths
pub mod WordMaps
use native.Mathlib.Decide.{ℕ_discrete}
use cc_be_chat_test.Common.{
  ℕ, zero, suc, ◌+◌, ◌-◌, ◌≡◌, ◌≢◌, ◌≤◌, ◌<◌, refl, ap, ap₂, sym, ◌∙◌, ◌⊎◌, Bool, true, false,
  Bool-cases, Option-cases, inl, inr, Option, none, some, List, [], ◌∷◌, length, take, get_or, ltb,
  ◌==◌, ==_iff, if◌then◌else◌, eq_text, eq_text_iff, arith, All, Outcome, ok, err, panic, ◌>>=◌,
  replicate, length-replicate, length-take,
}
use cc_be_chat_test.Common.Maps.{lookup, insert, lookup-insert, lookup-insert_other}
use cc_be_chat_test.Badwords.{
  WordMap, WordTree, star, new_word_map, insert_sorted, add_length, add_word, tree_of, add,
  add_lines, init,
}
use cc_be_chat_test.Badwords.Dictionary.Lengths.{
  Member, Sorted, insert_sorted-Member, insert_sorted-Member_other, insert_sorted-Sorted,
  match_length_complete, match_length_sound, some-injective, none-ne_some,
}
use cc_be_chat_test.Badwords.Dictionary.WordMaps.{IsWordMap, Worded, widened, add_word-Worded}

-- What the tree holds, of the words that satisfy `D`.
pub record IsTree (D : List ℕ → Type 0) (t : WordTree) : Type 0 where
  pub maps : (c : ℕ) (tree : WordMap) → lookup ◌==◌ t.trees c ≡ some tree → IsWordMap D tree
  pub found :
      (c : ℕ) (word : List ℕ)
      → D (c ∷ word)
      → (tree : WordMap) × (lookup ◌==◌ t.trees c ≡ some tree)
        × ((stars : List ℕ) × (lookup eq_text tree.words (c ∷ word) ≡ some stars))
  pub no_empty : D [] → ⊥

new_word_map-IsWordMap : (D : List ℕ → Type 0) → IsWordMap D new_word_map
new_word_map-IsWordMap D = record {
  sorted = tt;
  lens = λ n v e. absurd (none-ne_some v none refl e);
  known = λ word stars e. absurd (none-ne_some stars none refl e);
}

-- The map of a first character, a new one if there is none.
tree_of-IsWordMap :
    (D : List ℕ → Type 0) (t : WordTree) (c : ℕ) → IsTree D t → IsWordMap D (tree_of t c)
unfolding tree_of
tree_of-IsWordMap D t c h = elim (Option-cases (lookup ◌==◌ t.trees c)) [
  | inl missing ↦ rw (tree_of, missing) (new_word_map-IsWordMap D)
  | inr (tree, e) ↦ rw (tree_of, e) (h.maps c tree e)
]

tree_of_lem :
    (t : WordTree) (c : ℕ) (tree : WordMap) → lookup ◌==◌ t.trees c ≡ some tree → tree_of t c ≡ tree
unfolding tree_of
tree_of_lem t c tree e = rw (tree_of, e) refl

-- Adding a word: the tree then holds it too.
add-IsTree :
    (D : List ℕ → Type 0) (t t' : WordTree) (c : ℕ) (word : List ℕ)
    → IsTree D t
    → t'.trees ≡ insert ◌==◌ t.trees c (add_word (tree_of t c) (c ∷ word))
    → IsTree (λ w. D w ⊎ (c ∷ word ≡ w)) t'
add-IsTree D t t' c word h trees =
    let D' : List ℕ → Type 0 = λ w. D w ⊎ (c ∷ word ≡ w) in
    let wider : (w : List ℕ) → D w → D' w = λ w d. inl d in
    let added = add_word (tree_of t c) (c ∷ word) in
    let w =
      add_word-Worded D D' wider (tree_of t c) (c ∷ word) (tree_of-IsWordMap D t c h) (inr refl) in
    let here = lookup-insert ◌==◌ ==_iff t.trees c added in
    record {
      maps = λ d tree e. elim (ℕ_discrete c d) [
        | yes same ↦
            let e' = rw (trees, ← same) at e in rw (some-injective tree added _ e' here) w.is_map
        | no differ ↦
            let e' = rw trees at e in
            widened D D' wider tree
              (h.maps d tree (sym (lookup-insert_other ◌==◌ ==_iff t.trees c d added differ) ∙ e'))
      ];
      found = λ d other member. elim member [
        | inl old ↦
            let (tree, e, (stars, known)) = h.found d other old in
            elim (ℕ_discrete c d) [
              | yes same ↦
                  let was = tree_of_lem t c tree (rw (same) e) in
                  let (stars', kept) = w.keeps (d ∷ other) stars (rw (was) known) in
                  (added, rw (trees, ← same) here, (stars', kept))
              | no differ ↦
                  let elsewhere = lookup-insert_other ◌==◌ ==_iff t.trees c d added differ in
                  (tree, rw (trees) (elsewhere ∙ e), (stars, known))
            ]
        | inr e ↦
            let same : c ≡ d = ap (λ l. get_or l 0 0) e in
            (added, rw (trees, ← same) here, (w.has.0, rw (← e) w.has.1))
      ];
      no_empty = λ d. elim d [ inl old ↦ h.no_empty old | inr e ↦ omega (arith, ap length e) ];
    }

IsTree-iff :
    (D D' : List ℕ → Type 0)
    → ((w : List ℕ) → D w → D' w)
    → ((w : List ℕ) → D' w → D w)
    → (t : WordTree) → IsTree D t
    → IsTree D' t
IsTree-iff D D' wider narrower t h = record {
  maps = λ c tree e. widened D D' wider tree (h.maps c tree e);
  found = λ c word d. h.found c word (narrower (c ∷ word) d);
  no_empty = λ d. h.no_empty (narrower [] d);
}

ok_injective : {E : Type 0} (t t' : WordTree) → ◌≡◌ {A = Outcome E WordTree} (ok t) (ok t') → t ≡ t'
ok_injective {E} t t' e =
    ap (λ (o : Outcome E WordTree). elim o as (λ x. WordTree) [ ok x ↦ x | err _ ↦ t | panic ↦ t ])
      e

add_lines-IsTree :
    {E : Type 0} (lines : List (List ℕ)) (D : List ℕ → Type 0) (t t' : WordTree)
    → IsTree D t
    → add_lines {E = E} t lines ≡ ok t'
    → IsTree (λ w. D w ⊎ Member w lines) t'
unfolding add_lines add
add_lines-IsTree [] D t t' h e =
    IsTree-iff D _ (λ w d. inl d)
      (λ w d. elim d [ inl old ↦ old | inr none_left ↦ absurd none_left ]) t'
      (rw (← ok_injective t t' e) h)
add_lines-IsTree ([] ∷ lines) D t t' h e = absurd (cc)
add_lines-IsTree ((c ∷ word) ∷ lines) D t t' h e =
    let t1 : WordTree = record {
      word_max_len =
          if ltb t.word_max_len (length (c ∷ word)) then length (c ∷ word) else t.word_max_len;
      trees = insert ◌==◌ t.trees c (add_word (tree_of t c) (c ∷ word));
    } in
    let D1 : List ℕ → Type 0 = λ w. D w ⊎ (c ∷ word ≡ w) in
    IsTree-iff (λ w. D1 w ⊎ Member w lines) _
      (λ w d. elim d [
        | inl early ↦ elim early [ inl old ↦ inl old | inr this ↦ inr (inl this) ]
        | inr rest ↦ inr (inr rest)
      ])
      (λ w d. elim d [
        | inl old ↦ inl (inl old)
        | inr late ↦ elim late [ inl this ↦ inl (inr this) | inr rest ↦ inr rest ]
      ])
      t' (add_lines-IsTree lines D1 t1 t' (add-IsTree D t t1 c word h refl) e)

-- The tree that Init builds holds the lines, and nothing else.
pub init-IsTree :
    {E : Type 0} (lines : List (List ℕ)) (t : WordTree)
    → init {E = E} lines ≡ ok t
    → IsTree (λ w. Member w lines) t
unfolding init
init-IsTree lines t e =
    let start : WordTree = record { word_max_len = 0; trees = [] } in
    let D : List ℕ → Type 0 = λ w. ⊥ in
    IsTree-iff (λ w. D w ⊎ Member w lines) (λ w. Member w lines)
      (λ w d. elim d [ inl nothing ↦ absurd nothing | inr line ↦ line ]) (λ w d. inr d) t
      (add_lines-IsTree lines D start t
        (record {
          maps = λ c tree e. absurd (none-ne_some tree none refl e);
          found = λ c word d. absurd d;
          no_empty = λ d. d;
        })
        e)
