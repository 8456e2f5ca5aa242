-- ===== src/Badwords.antt =====
-- badwords/badwords.go: the dictionary of bad words and the search for them in a text. A text and a
-- word are their characters (`strings.Split(s, "")`); the file of the dictionary is its lines.
use mathlib.Core.Option
use cc_be_chat_test.Common.{
  ℕ, zero, suc, ◌+◌, ◌-◌, Bool, true, false, not, Option, none, some, List, [], ◌∷◌, ◌++◌, length,
  take, drop, get_elem?, replicate, ltb, leb, ◌==◌, if◌then◌else◌, eq_text, Outcome, ok, err, panic,
  ◌>>=◌,
}
use cc_be_chat_test.Common.Maps.{lookup, insert}
pub mod Search
pub mod Dictionary
pub mod Occurrences
pub mod Masking
pub mod File

abbrev pub star : ℕ
star = 42

-- wordMap: `len_map` has the lengths that `len_slice` lists.
pub record WordMap : Type 0 where
  pub len_map : List (ℕ × ℕ)
  pub len_slice : List ℕ
  pub words : List (List ℕ × List ℕ)

-- wordTree, without the name of its file.
pub record WordTree : Type 0 where
  pub word_max_len : ℕ
  pub trees : List (ℕ × WordMap)

abbrev pub new_word_map : WordMap
new_word_map = record { len_map = []; len_slice = []; words = [] }

-- `sort.Ints(append(lens, n))` of a sorted slice `lens`.
unfoldable pub insert_sorted : List ℕ → ℕ → List ℕ
insert_sorted [] n = n ∷ []
insert_sorted (m ∷ lens) n =
    let rest = insert_sorted lens n in if ltb n m then n ∷ m ∷ lens else m ∷ rest

unfoldable pub add_length : WordMap → ℕ → WordMap
add_length tree n = elim (lookup ◌==◌ tree.len_map n) [
  | some _ ↦ tree
  | none ↦ record tree {
    len_map = insert ◌==◌ tree.len_map n n;
    len_slice = insert_sorted tree.len_slice n;
  }
]

unfoldable pub add_word : WordMap → List ℕ → WordMap
add_word tree word = elim (lookup eq_text tree.words word) [
  | some _ ↦ tree
  | none ↦
      let n = length word in
      add_length (record tree { words = insert eq_text tree.words word (replicate n star) }) n
]

unfoldable pub tree_of : WordTree → ℕ → WordMap
tree_of t c = elim (lookup ◌==◌ t.trees c) [ some tree ↦ tree | none ↦ new_word_map ]

-- `add`: the empty word has no first character.
unfoldable pub add : {E : Type 0} → WordTree → List ℕ → Outcome E WordTree
add t [] = panic
add t (c ∷ word) =
    let n = length (c ∷ word) in
    ok (record {
      word_max_len = if ltb t.word_max_len n then n else t.word_max_len;
      trees = insert ◌==◌ t.trees c (add_word (tree_of t c) (c ∷ word));
    })

-- Init, for the file's lines with the space around them taken off.
unfoldable pub add_lines : {E : Type 0} → WordTree → List (List ℕ) → Outcome E WordTree
add_lines t [] = ok t
add_lines t (word ∷ lines) = do t' ← add t word; add_lines t' lines

unfoldable pub init : {E : Type 0} → List (List ℕ) → Outcome E WordTree
init lines = add_lines (record { word_max_len = 0; trees = [] }) lines

-- The inner loop of run, at the text that is left: the first length, in order, with a word.
unfoldable pub match_length : WordMap → List ℕ → List ℕ → Option ℕ
match_length tree [] txt = none
match_length tree (n ∷ lens) txt =
    let rest = match_length tree lens txt in
    if ltb (length txt) n then none else elim (lookup eq_text tree.words (take n txt)) [
      | none ↦ rest
      | some stars ↦ if length stars == 0 then rest else some n
    ]

unfoldable pub match_at : WordTree → List ℕ → Option ℕ
match_at t [] = none
match_at t (c ∷ txt) = elim (lookup ◌==◌ t.trees c) [
  | none ↦ none
  | some tree ↦ match_length tree tree.len_slice (c ∷ txt)
]

-- `s.matched[word]++`
unfoldable pub count_word : List (List ℕ × ℕ) → List ℕ → List (List ℕ × ℕ)
count_word matched word = elim (lookup eq_text matched word) [
  | none ↦ insert eq_text matched word 1
  | some sum ↦ insert eq_text matched word (sum + 1)
]

-- What a matched character becomes; an empty replacement replaces nothing.
unfoldable pub masked : Option ℕ → ℕ → ℕ
masked none c = c
masked (some replacement) c = replacement

-- The outer loop of run: `skip` characters of the text that is left belong to the last match.
unfoldable pub run :
    WordTree → Option ℕ → ℕ → List ℕ → List (List ℕ × ℕ) → List ℕ × List (List ℕ × ℕ)
run t replacement skip [] matched = ([], matched)
run t replacement (suc skip) (c ∷ txt) matched =
    let (out, found) = run t replacement skip txt matched in (masked replacement c ∷ out, found)
run t replacement zero (c ∷ txt) matched = elim (match_at t (c ∷ txt)) [
  | none ↦ let (out, found) = run t replacement zero txt matched in (c ∷ out, found)
  | some n ↦
      let counted = count_word matched (take n (c ∷ txt)) in
      let (out, found) = run t replacement (n - 1) txt counted in
      (masked replacement c ∷ out, found)
]

-- The text after the search, and how often each word was found.
unfoldable pub search : WordTree → List ℕ → Option ℕ → List ℕ × List (List ℕ × ℕ)
search t txt replacement = run t replacement zero txt []

-- The file, as its lines: `addToFile` appends a word that is no line yet.
unfoldable pub add_to_file : List (List ℕ) → List ℕ → List (List ℕ)
add_to_file [] word = word ∷ []
add_to_file (line ∷ lines) word =
    let rest = add_to_file lines word in if eq_text line word then line ∷ lines else line ∷ rest

-- The word goes into the tree and into the file; into neither if it is empty.
unfoldable pub add_both :
    {E : Type 0} → WordTree → List (List ℕ) → List ℕ → Outcome E (WordTree × List (List ℕ))
add_both t lines word = do t' ← add t word; ok (t', add_to_file lines word)

-- `del` reads the dictionary anew, and drops what it has read.
unfoldable pub del : {E : Type 0} → WordTree → List (List ℕ) → List ℕ → Outcome E WordTree
del t lines word = do reloaded ← init lines; ok t
