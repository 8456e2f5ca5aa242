-- ===== src/Popular.antt =====
-- popular.go: how often each word was said in each second, and the words said most in the last five.
-- A time is its Unix second. Go's map iteration and `sort.Slice` leave the order of words with equal
-- counts open: `arrange` is what they make of the counts.
use mathlib.Core.Option
use cc_be_chat_test.Common.{
  ℕ, zero, suc, ◌+◌, ◌-◌, Option, none, some, List, [], ◌∷◌, map, length, take, ltb, ◌==◌,
  if◌then◌else◌, eq_text,
}
use cc_be_chat_test.Common.Maps.{lookup, insert, delete}
pub mod Counts
pub mod Entries
pub mod Ranking

abbrev pub popular_hold_time : ℕ
popular_hold_time = 5

-- map[string]int, and the map from seconds to such maps.
abbrev pub Words : Type 0
Words = List (List ℕ × ℕ)

abbrev pub PopularWords : Type 0
PopularWords = List (ℕ × Words)

-- `m[word] += sum`, for a word that may be new.
unfoldable pub add_count : Words → List ℕ → ℕ → Words
add_count words word sum = elim (lookup eq_text words word) [
  | none ↦ insert eq_text words word sum
  | some old ↦ insert eq_text words word (old + sum)
]

-- Once the map has more than five seconds in it, clear deletes the second before its own; the second
-- before 0 is in no map.
unfoldable pub clear : PopularWords → ℕ → PopularWords
clear popular zero = popular
clear popular (suc old_time) =
    if ltb popular_hold_time (length popular) then delete ◌==◌ popular old_time else popular

-- `clear_time` is the clock as clear reads it, after add has read `cur_time`.
unfoldable pub add : PopularWords → ℕ → ℕ → List ℕ → PopularWords
add popular cur_time clear_time msg =
    clear
      (elim (lookup ◌==◌ popular cur_time) [
        | none ↦ insert ◌==◌ popular cur_time ((msg, 1) ∷ [])
        | some words ↦ insert ◌==◌ popular cur_time (add_count words msg 1)
      ])
      clear_time

-- The inner loop of get: one second's words are added to those so far.
unfoldable pub merge : Words → Words → Words
merge temp [] = temp
merge temp ((word, sum) ∷ words) = merge (add_count temp word sum) words

-- The outer loop of get, for `n` seconds from `i` on; no second is negative.
unfoldable pub tally : PopularWords → ℕ → ℕ → Words → Words
tally popular i zero temp = temp
tally popular i (suc n) temp =
    tally popular (i + 1) n
      (elim (lookup ◌==◌ popular i) [ none ↦ temp | some words ↦ merge temp words ])

unfoldable pub get : (Words → Words) → PopularWords → ℕ → List (List ℕ)
get arrange popular cur_time =
    let first = cur_time + 1 - popular_hold_time in
    let temp = tally popular first (cur_time + 1 - first) [] in
    if length temp == 0 then [] else take 10 (map (λ unit. unit.0) (arrange temp))
