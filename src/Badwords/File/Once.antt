-- ===== src/Badwords/File/Once.antt =====
-- delFromFile takes a word that is one line of the file out of it.
use mathlib.Core.List.{append_assoc}
use cc_be_chat_test.Common.{
  ℕ, zero, suc, ◌+◌, ◌-◌, ◌≡◌, ◌≢◌, refl, ap, sym, ◌∙◌, true, false, inl, inr, Bool-cases, List, [],
  ◌∷◌, ◌++◌, length, take, drop, get_or, leb, eq_text, eq_text_iff, All, All-append, All-drop, ok,
  arith, length-append, take-append, take-all, drop-append, length-drop,
}
use cc_be_chat_test.Badwords.File.{moved_up, del_loop, del_from_file}

abbrev Lines : Type 0
Lines = List (List ℕ)

-- The entry at an index, from what is behind it.
at-drop :
    (i : ℕ) (array : Lines) (x : List ℕ) (rest : Lines)
    → drop i array ≡ x ∷ rest
    → (get_or array i [] ≡ x) × (drop (i + 1) array ≡ rest)
at-drop zero array x rest e = (ap (λ l. get_or l 0 []) (same array e), ap (drop 1) (same array e))
  where
    same : (l : Lines) → drop 0 l ≡ x ∷ rest → l ≡ x ∷ rest
    same l e = e
at-drop (suc i) [] x rest e = absurd (omega (arith, ap length e))
at-drop (suc i) (y ∷ array) x rest e =
    let (here, behind) = at-drop i array x rest e in
    let next : suc i + 1 ≡ suc (i + 1) = omega arith in
    (here, ap (λ k. drop k (y ∷ array)) next ∙ behind)

drop-more : (xs ys : Lines) (k : ℕ) → drop (length xs + k) (xs ++ ys) ≡ drop k ys
drop-more [] ys k = let e : 0 + k ≡ k = omega arith in ap (λ n. drop n ys) e
drop-more (x ∷ xs) ys k =
    let e : suc (length xs) + k ≡ suc (length xs + k) = omega arith in
    ap (λ n. drop n (x ∷ (xs ++ ys))) e ∙ drop-more xs ys k

differs : (word x : List ℕ) → x ≢ word → eq_text x word ≡ false
differs word x ne = elim (Bool-cases (eq_text x word)) [
  | inl same ↦ absurd (ne ((eq_text_iff x word).0 same))
  | inr other ↦ other
]

module _ (word : List ℕ) (before after : Lines) where
  abbrev all_lines : Lines
  all_lines = before ++ (word ∷ after)

  -- What the all_lines's first entries are after the line is taken out; the last entry stays behind.
  abbrev last_line : Lines
  last_line = drop (length all_lines - 1) all_lines

  moved : moved_up all_lines (length all_lines) (length before) ≡ before ++ (after ++ last_line)
  moved =
      let count : length all_lines - 1 - length before ≡ length after =
        omega (arith, length-append before (word ∷ after)) in
      let behind : drop (length before + 1) all_lines ≡ after = drop-more before (word ∷ after) 1 in
      rw
        (
          take-append before (word ∷ after),
          behind,
          count,
          take-all (length after) after (omega arith),
        )
        refl

  kept_lines : take (length all_lines - 1) (before ++ (after ++ last_line)) ≡ before ++ after
  kept_lines =
      let count : length all_lines - 1 ≡ length (before ++ after) =
        omega (arith, length-append before (word ∷ after), length-append before after) in
      ap (λ k. take k (before ++ (after ++ last_line))) count
      ∙ ap (take (length (before ++ after))) (sym (append_assoc before after last_line))
      ∙ take-append (before ++ after) last_line

  length-last_line : length last_line ≡ 1
  length-last_line =
      omega
        (arith, length-drop (length all_lines - 1) all_lines, length-append before (word ∷ after))

-- Behind the place of the line, the array has no line that is not behind it before.
read_later :
    (word : List ℕ) (before after : Lines)
    → All (λ x. x ≢ word) after
    → let later = drop 1 (after ++ last_line word before after) in
      All (λ x. x ≢ word) later × (length later ≡ length after)
read_later word before after h = (
  none_of after h,
  omega (
    arith,
    length-last_line word before after,
    length-drop 1 (after ++ last_line word before after),
    length-append after (last_line word before after),
  ),
)
  where
    no_more : (ys : Lines) → length ys ≡ 1 → All (λ x. x ≢ word) (drop 1 ys)
    no_more [] e = tt
    no_more (y ∷ []) e = tt
    no_more (y ∷ z ∷ ys) e = absurd (omega (arith, e))

    none_of :
        (ys : Lines)
        → All (λ x. x ≢ word) ys
        → All (λ x. x ≢ word) (drop 1 (ys ++ last_line word before ys))
    none_of [] h = no_more (last_line word before []) (length-last_line word before [])
    none_of (y ∷ ys) h =
        let place : length (before ++ (word ∷ y ∷ ys)) - 1 ≡ length before + suc (length ys) =
          omega (arith, length-append before (word ∷ y ∷ ys)) in
        let last : last_line word before (y ∷ ys) ≡ drop (length ys) (y ∷ ys) =
          ap (λ k. drop k (before ++ (word ∷ y ∷ ys))) place
          ∙ drop-more before (word ∷ y ∷ ys) (suc (length ys)) in
        All-append (λ x. x ≢ word) ys (last_line word before (y ∷ ys)) h.1
          (rw (last) (All-drop (λ x. x ≢ word) (length ys) (y ∷ ys) h))

module _ {E : Type 0} (word : List ℕ) where
  -- A line that is not the word is passed.
  pass :
      (left i n : ℕ) (array : Lines) (x : List ℕ) (rest : Lines)
      → drop i array ≡ x ∷ rest
      → x ≢ word
      → del_loop {E = E} word (suc left) i array n ≡ del_loop word left (i + 1) array n
  unfolding del_loop
  pass left i n array x rest e ne =
      let here = (at-drop i array x rest e).0 in rw (here, differs word x ne) refl

  -- With no such line left, the lines stay.
  none_left :
      (i n : ℕ) (array rest : Lines)
      → drop i array ≡ rest
      → All (λ x. x ≢ word) rest
      → del_loop {E = E} word (length rest) i array n ≡ ok (take n array)
  unfolding del_loop
  none_left i n array [] e h = refl
  none_left i n array (x ∷ rest) e h =
      pass (length rest) i n array x rest e h.0
      ∙ none_left (i + 1) n array rest (at-drop i array x rest e).1 h.1

  -- The line is taken out, and no line that is read afterwards is the word.
  taken :
      (before after : Lines)
      → All (λ x. x ≢ word) after
      → del_loop {E = E} word
          (suc (length after))
          (length before)
          (all_lines word before after)
          (length (all_lines word before after))
        ≡ ok (before ++ after)
  unfolding del_loop
  taken before after h =
      let lines = all_lines word before after in
      let behind = drop-append before (word ∷ after) in
      let here : get_or lines (length before) [] ≡ word =
        (at-drop (length before) lines word after behind).0 in
      let same : eq_text word word ≡ true = (eq_text_iff word word).1 refl in
      let room : leb (length before + 1) (length lines) ≡ true =
        ground (arith, length-append before (word ∷ after)) in
      let rest = drop 1 (after ++ last_line word before after) in
      let (free, count) = read_later word before after h in
      rw (here, same, room, moved word before after, ← count)
        (none_left (length before + 1) (length lines - 1)
            (before ++ (after ++ last_line word before after)) rest
            (drop-more before (after ++ last_line word before after) 1) free
          ∙ ap ok (kept_lines word before after))

  out :
      (done before after : Lines)
      → All (λ x. x ≢ word) before
      → All (λ x. x ≢ word) after
      → let array = done ++ (before ++ (word ∷ after)) in
        del_loop {E = E} word (length (before ++ (word ∷ after))) (length done) array (length array)
        ≡ ok (done ++ (before ++ after))
  out done [] after hb ha = taken done after ha
  out done (x ∷ before) after hb ha =
      let rest = before ++ (word ∷ after) in
      let array = done ++ (x ∷ rest) in
      let next : length (done ++ (x ∷ [])) ≡ length done + 1 = length-append done (x ∷ []) in
      let regroup : (done ++ (x ∷ [])) ++ rest ≡ array = append_assoc done (x ∷ []) rest in
      pass (length rest) (length done) (length array) array x rest (drop-append done (x ∷ rest))
        hb.0
      ∙ rw (← regroup, ← next)
          (out (done ++ (x ∷ [])) before after hb.1 ha
            ∙ ap ok (append_assoc done (x ∷ []) (before ++ after)))

-- A word that is one line of the file, and only one, is taken out by delFromFile; the other lines stay,
-- in their order.
pub del_from_file_once :
    {E : Type 0} (word : List ℕ) (before after : Lines)
    → All (λ x. x ≢ word) before
    → All (λ x. x ≢ word) after
    → del_from_file {E = E} word (before ++ (word ∷ after)) ≡ ok (before ++ after)
unfolding del_from_file
del_from_file_once word before after hb ha = out word [] before after hb ha
