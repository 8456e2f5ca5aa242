-- ===== src/Badwords/Dictionary/WordMaps.antt =====
-- What add_word does to the words of one first character.
use native.Mathlib.Decide.{ℕ_discrete}
use cc_be_chat_test.Common.{
  ℕ, ◌≡◌, ◌≢◌, refl, sym, ◌∙◌, false, Bool-cases, Option-cases, inl, inr, some, List, length, ◌==◌,
  ==_iff, eq_text, eq_text_iff, arith, replicate,
}
use cc_be_chat_test.Common.Maps.{lookup, insert, lookup-insert, lookup-insert_other}
use cc_be_chat_test.Badwords.{WordMap, star, insert_sorted, add_length, add_word}
use cc_be_chat_test.Badwords.Dictionary.Lengths.{
  Member, Sorted, insert_sorted-Member, insert_sorted-Member_other, insert_sorted-Sorted,
  some-injective,
}

unequal_lem : (a b : List ℕ) → eq_text a b ≡ false → a ≢ b
unequal_lem a b unequal same = let equal = (eq_text_iff a b).1 same in ground arith

-- What the map of one first character holds, of the words that satisfy `D`.
pub record IsWordMap (D : List ℕ → Type 0) (tree : WordMap) : Type 0 where
  pub sorted : Sorted tree.len_slice
  pub lens : (n v : ℕ) → lookup ◌==◌ tree.len_map n ≡ some v → Member n tree.len_slice
  pub known :
      (word stars : List ℕ)
      → lookup eq_text tree.words word ≡ some stars
      → (stars ≡ replicate (length word) star) × D word × Member (length word) tree.len_slice

-- What add_length makes of a map.
record Lengthened (tree : WordMap) (n : ℕ) (added : WordMap) : Type 0 where
  pub same_words : added.words ≡ tree.words
  pub has : Member n added.len_slice
  pub keeps : (k : ℕ) → Member k tree.len_slice → Member k added.len_slice
  pub sorted : Sorted added.len_slice
  pub lens : (k v : ℕ) → lookup ◌==◌ added.len_map k ≡ some v → Member k added.len_slice

add_length-Lengthened :
    (tree : WordMap) (n : ℕ)
    → Sorted tree.len_slice
    → ((k v : ℕ) → lookup ◌==◌ tree.len_map k ≡ some v → Member k tree.len_slice)
    → Lengthened tree n (add_length tree n)
unfolding add_length
add_length-Lengthened tree n sorted lens = elim (Option-cases (lookup ◌==◌ tree.len_map n)) [
  | inl new ↦
      let slice = insert_sorted tree.len_slice n in
      rw (add_length, new)
        (record {
          same_words = refl;
          has = insert_sorted-Member tree.len_slice n;
          keeps = insert_sorted-Member_other tree.len_slice n;
          sorted = insert_sorted-Sorted tree.len_slice n sorted;
          lens = λ k v e. elim (ℕ_discrete n k) [
            | yes same ↦ rw (← same) (insert_sorted-Member tree.len_slice n)
            | no differ ↦
                insert_sorted-Member_other tree.len_slice n k
                  (lens k v (sym (lookup-insert_other ◌==◌ ==_iff tree.len_map n k n differ) ∙ e))
          ];
        })
  | inr (v, old) ↦
      rw (add_length, old)
        (record {
          same_words = refl;
          has = lens n v old;
          keeps = λ k here. here;
          sorted = sorted;
          lens = lens;
        })
]

-- What add_word makes of a map.
pub record Worded (D : List ℕ → Type 0) (tree : WordMap) (word : List ℕ) (added : WordMap)
    : Type 0 where
  pub is_map : IsWordMap D added
  pub has : (stars : List ℕ) × (lookup eq_text added.words word ≡ some stars)
  pub keeps :
      (other stars : List ℕ)
      → lookup eq_text tree.words other ≡ some stars
      → (stars' : List ℕ) × (lookup eq_text added.words other ≡ some stars')

module _ (D D' : List ℕ → Type 0) (wider : (w : List ℕ) → D w → D' w) where
  pub widened : (tree : WordMap) → IsWordMap D tree → IsWordMap D' tree
  widened tree m = record {
    sorted = m.sorted;
    lens = m.lens;
    known = λ word stars e. let (s, d, here) = m.known word stars e in (s, wider word d, here);
  }

  module _ (tree : WordMap) (word : List ℕ) (m : IsWordMap D tree) (new_word : D' word) where
    abbrev stars_of : List ℕ
    stars_of = replicate (length word) star

    abbrev with_word : WordMap
    with_word = record tree { words = insert eq_text tree.words word stars_of }

    new_word-Worded :
        (added : WordMap) → Lengthened with_word (length word) added → Worded D' tree word added
    new_word-Worded added l =
        let words : added.words ≡ insert eq_text tree.words word stars_of = l.same_words in
        let at_word = lookup-insert eq_text eq_text_iff tree.words word stars_of in
        let elsewhere = λ (other : List ℕ) (ne : word ≢ other).
          lookup-insert_other eq_text eq_text_iff tree.words word other stars_of ne in
        record {
          is_map = record {
            sorted = l.sorted;
            lens = l.lens;
            known = λ other stars e. elim (Bool-cases (eq_text word other)) [
              | inl equal ↦
                  let same = (eq_text_iff word other).0 equal in
                  let e' = rw (words, ← same) at e in
                  rw (← same) (some-injective stars stars_of _ e' at_word, new_word, l.has)
              | inr unequal ↦
                  let differ = unequal_lem word other unequal in
                  let e' = rw words at e in
                  let (s, d, here) = m.known other stars (sym (elsewhere other differ) ∙ e') in
                  (s, wider other d, l.keeps (length other) here)
            ];
          };
          has = (stars_of, rw (words) at_word);
          keeps = λ other stars e. elim (Bool-cases (eq_text word other)) [
            | inl equal ↦
                let same = (eq_text_iff word other).0 equal in
                (stars_of, rw (words, ← same) at_word)
            | inr unequal ↦
                let differ = unequal_lem word other unequal in
                (stars, rw (words) (elsewhere other differ ∙ e))
          ];
        }

    pub add_word-Worded : Worded D' tree word (add_word tree word)
    unfolding add_word
    add_word-Worded = elim (Option-cases (lookup eq_text tree.words word)) [
      | inl missing ↦
          rw (add_word, missing)
            (new_word-Worded (add_length with_word (length word))
              (add_length-Lengthened with_word (length word) m.sorted m.lens))
      | inr (stars, old) ↦
          rw (add_word, old)
            (record {
              is_map = widened tree m;
              has = (stars, old);
              keeps = λ other stars' e. (stars', e);
            })
    ]
