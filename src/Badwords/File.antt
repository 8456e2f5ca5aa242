-- ===== src/Badwords/File.antt =====
-- The file of the dictionary (badwords/badwords.go): delFromFile and View, on the lines of the file.
pub mod Once
use cc_be_chat_test.Common.{
  ℕ, zero, suc, ◌+◌, ◌-◌, List, [], ◌++◌, length, take, drop, get_or, leb, if◌then◌else◌, eq_text,
  Outcome, ok, panic,
}

-- `append(lines[:i], lines[i+1:]...)` of the first `n` entries of an array: what is behind the entry
-- moves up by one place, and the last of the `n` entries stays where it is.
abbrev pub moved_up : List (List ℕ) → ℕ → ℕ → List (List ℕ)
moved_up array n i = take i array ++ (take (n - 1 - i) (drop (i + 1) array) ++ drop (n - 1) array)

-- The loop of delFromFile from the index `i` on, with `left` rounds: it reads the array that it changes,
-- whose first `n` entries are the lines. `lines[i+1:]` panics when the lines are fewer.
unfoldable pub del_loop :
    {E : Type 0} → List ℕ → ℕ → ℕ → List (List ℕ) → ℕ → Outcome E (List (List ℕ))
del_loop word zero i array n = ok (take n array)
del_loop word (suc left) i array n =
    let kept = del_loop word left (i + 1) array n in
    let removed = del_loop word left (i + 1) (moved_up array n i) (n - 1) in
    if eq_text (get_or array i []) word then (if leb (i + 1) n then removed else panic) else kept

unfoldable pub del_from_file : {E : Type 0} → List ℕ → List (List ℕ) → Outcome E (List (List ℕ))
del_from_file word lines = del_loop word (length lines) 0 lines (length lines)

abbrev view : List (List ℕ) → List (List ℕ)
view lines = lines
