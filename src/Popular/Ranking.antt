-- ===== src/Popular/Ranking.antt =====
-- The words that get returns are the ones with the highest recorded counts.
use cc_be_chat_test.Common.{
  ℕ, ◌+◌, ◌-◌, ◌≡◌, ◌≤◌, ◌⊎◌, Bool-cases, inl, inr, List, [], map, length, take, drop, All, Member,
  ◌==◌, ==_iff, eq_text, eq_text_iff, length-take, length-drop, arith,
}
use cc_be_chat_test.Common.Distinct.{Distinct}
use cc_be_chat_test.Common.Sums.{sum_of, sum_of-perm, sum_of-split}
use cc_be_chat_test.Popular.{Words, PopularWords, tally, get}
use cc_be_chat_test.Popular.Counts.{total, said_in, total-tally}
use cc_be_chat_test.Popular.Entries.{
  Sorts, count_of, entry_of, total_lem, not_listed, listed, bounded, once, tally-Distinct, cut,
  take-map, length-map, some_entry, nothing, nat_cases, each_member,
}

-- The first ten words of the counts, in falling order.
abbrev top : (Words → Words) → Words → List (List ℕ)
top arrange temp = take 10 (map (λ unit. unit.0) (arrange temp))

module _ (arrange : Words → Words) (sorts : Sorts arrange) (temp : Words)
    (distinct : Distinct eq_text eq_text_iff temp) (v : List ℕ)
    (out : Member v (top arrange temp) → ⊥) where
  -- All that a word outside of the ten counts stands behind them.
  behind : total temp v ≡ sum_of (count_of v) (drop 10 (arrange temp))
  behind =
      let sorted = arrange temp in
      let none_before : sum_of (count_of v) (take 10 sorted) ≡ 0 =
        not_listed v (take 10 sorted) (λ m. out (rw (take-map 10 sorted) m)) in
      omega (
        arith,
        total_lem temp v,
        sum_of-perm (count_of v) (sorts temp).0,
        sum_of-split (count_of v) 10 sorted,
        none_before,
      )

  ranked : (w : List ℕ) → Member w (top arrange temp) → total temp v ≤ total temp w
  ranked w m =
      let sorted = arrange temp in
      let (n, (below, le)) =
        listed w (λ n. All (λ d. d.1 ≤ n) (drop 10 sorted)) (take 10 sorted)
          (rw (← take-map 10 sorted) m) (cut 10 sorted (sorts temp).1) in
      let one : sum_of (entry_of v) (drop 10 sorted) ≤ 1 = omega (
        arith,
        once v temp distinct,
        sum_of-perm (entry_of v) (sorts temp).0,
        sum_of-split (entry_of v) 10 sorted,
      ) in
      omega (
        arith,
        behind,
        bounded v n (drop 10 sorted) one below,
        le,
        total_lem temp w,
        sum_of-perm (count_of w) (sorts temp).0,
        sum_of-split (count_of w) 10 sorted,
      )

  ten_others : 1 ≤ total temp v → length (top arrange temp) ≡ 10
  ten_others said =
      let sorted = arrange temp in
      omega (
        arith,
        some_entry (count_of v) (drop 10 sorted) (omega (arith, said, behind)),
        length-drop 10 sorted,
        length-take 10 (map (λ unit. unit.0) sorted),
        length-map sorted,
      )

-- The first second of the window of get, which is the last five seconds.
abbrev pub window_start : ℕ → ℕ
window_start now = now + 1 - 5

-- The count of a word that is recorded for these seconds, with what `add` has deleted left out.
abbrev pub recorded_lately : PopularWords → ℕ → List ℕ → ℕ
recorded_lately popular now word =
    said_in popular (window_start now) (now + 1 - window_start now) word

-- If the sort puts the entries in an order of falling counts: get returns at most ten words, and a
-- word that it leaves out has no count recorded for any of the last five seconds, or get returns ten
-- others, each with a recorded count for them that is at least as high.
pub get_ranks :
    (arrange : Words → Words) (popular : PopularWords) (now : ℕ) (v : List ℕ)
    → Sorts arrange
    → (Member v (get arrange popular now) → ⊥)
    → (length (get arrange popular now) ≤ 10)
      × ((recorded_lately popular now v ≡ 0)
          ⊎ ((length (get arrange popular now) ≡ 10)
              × All
                  (λ w. recorded_lately popular now v ≤ recorded_lately popular now w)
                  (get arrange popular now)))
unfolding get
get_ranks arrange popular now v sorts out =
    let first = window_start now in
    let temp = tally popular first (now + 1 - first) [] in
    let distinct = tally-Distinct popular first (now + 1 - first) [] tt in
    let count = total-tally popular first (now + 1 - first) [] in
    elim (Bool-cases (length temp == 0)) [
      | inl empty ↦
          let unsaid = nothing temp v ((==_iff (length temp) 0).0 empty) in
          rw (empty) (omega arith, inl (omega (arith, unsaid, count v)))
      | inr some_words ↦
          let left_out : Member v (top arrange temp) → ⊥ = rw some_words at out in
          let at_most : length (top arrange temp) ≤ 10 =
            omega (arith, length-take 10 (map (λ unit. unit.0) (arrange temp))) in
          rw (some_words) (
            at_most,
            elim (nat_cases (total temp v)) [
              | inl unsaid ↦ inl (omega (arith, unsaid, count v))
              | inr said ↦ inr (
                ten_others arrange sorts temp distinct v left_out said,
                each_member (λ w. recorded_lately popular now v ≤ recorded_lately popular now w)
                    (top arrange temp)
                    (λ w m.
                      omega (
                        arith,
                        ranked arrange sorts temp distinct v left_out w m,
                        count v,
                        count w,
                      )),
              )
            ],
          )
    ]
