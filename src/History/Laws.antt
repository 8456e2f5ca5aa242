-- ===== src/History/Laws.antt =====
-- The record is the last 50 lines of all that were added.
use cc_be_chat_test.Common.{
  ℕ, zero, suc, ◌+◌, ◌-◌, ◌≤◌, ◌≡◌, refl, ap, sym, ◌∙◌, Bool-cases, inl, inr, List, [], ◌∷◌, ◌++◌,
  length, drop, ltb, arith, length-append, take-all, length-drop,
}
use cc_be_chat_test.History.{new_history, get_history, add_history, add_all}

module _ {A : Type 0} where
  abbrev pub last : ℕ → List A → List A
  last n xs = drop (length xs - n) xs

  drop-snoc :
      (n : ℕ) (xs : List A) (a : A)
      → n ≤ length xs
      → drop n (xs ++ (a ∷ [])) ≡ drop n xs ++ (a ∷ [])
  drop-snoc zero xs a h = refl
  drop-snoc (suc n) [] a h = absurd (omega arith)
  drop-snoc (suc n) (x ∷ xs) a h = drop-snoc n xs a (omega arith)

  drop-drop : (m n : ℕ) (xs : List A) → drop m (drop n xs) ≡ drop (n + m) xs
  drop-drop m zero xs = let e : m ≡ 0 + m = omega arith in ap (λ k. drop k xs) e
  drop-drop zero (suc n) [] = let e : suc n ≡ suc n + 0 = omega arith in ap (λ k. drop k []) e
  drop-drop (suc m) (suc n) [] =
      let e : suc (n + suc m) ≡ suc n + suc m = omega arith in ap (λ k. drop k []) e
  drop-drop m (suc n) (x ∷ xs) =
      let e : suc (n + m) ≡ suc n + m = omega arith in
      drop-drop m n xs ∙ ap (λ k. drop k (x ∷ xs)) e

  pub add_history_lem :
      (history : List A) (str : A) → add_history history str ≡ last 50 (history ++ (str ∷ []))
  unfolding add_history
  add_history_lem history str =
      let added = history ++ (str ∷ []) in
      elim (Bool-cases (ltb 50 (length added))) [
        | inl long ↦ rw (long, take-all (length added) added (omega arith)) refl
        | inr short ↦
            let none_dropped : length added - 50 ≡ 0 = ground arith in rw (short, none_dropped) refl
      ]

  last-snoc : (xs : List A) (a : A) → last 50 (last 50 xs ++ (a ∷ [])) ≡ last 50 (xs ++ (a ∷ []))
  last-snoc xs a =
      let kept = drop (length xs - 50) xs in
      let len_kept = length-drop (length xs - 50) xs in
      let len_xs = length-append xs (a ∷ []) in
      let len_more = length-append kept (a ∷ []) in
      let total : (length xs - 50) + (length (kept ++ (a ∷ [])) - 50)
          ≡ length (xs ++ (a ∷ [])) - 50 =
        omega (arith, len_kept, len_xs, len_more) in
      ap (drop (length (kept ++ (a ∷ [])) - 50))
        (sym (drop-snoc (length xs - 50) xs a (omega arith)))
      ∙ drop-drop (length (kept ++ (a ∷ [])) - 50) (length xs - 50) (xs ++ (a ∷ []))
      ∙ ap (λ n. drop n (xs ++ (a ∷ []))) total

  append_snoc : (xs ys : List A) (a : A) → (xs ++ (a ∷ [])) ++ ys ≡ xs ++ (a ∷ ys)
  append_snoc [] ys a = refl
  append_snoc (x ∷ xs) ys a = ap (◌∷◌ x) (append_snoc xs ys a)

  append_nil : (xs : List A) → xs ++ [] ≡ xs
  append_nil [] = refl
  append_nil (x ∷ xs) = ap (◌∷◌ x) (append_nil xs)

  add_all_from :
      (history before strs : List A)
      → history ≡ last 50 before
      → add_all history strs ≡ last 50 (before ++ strs)
  unfolding add_all
  add_all_from history before [] e = rw (append_nil before) e
  add_all_from history before (str ∷ strs) e = rw (← append_snoc before strs str) (
      add_all_from (add_history history str) (before ++ (str ∷ [])) strs (
        add_history_lem history str ∙ ap (λ h. last 50 (h ++ (str ∷ []))) e ∙ last-snoc before str))

  -- Whatever lines are added to a new record, in whatever number, the record holds the last 50 of
  -- them in order, or all of them if they are fewer.
  pub history_keeps_last :
      (strs : List A) → get_history (add_all new_history strs) ≡ drop (length strs - 50) strs
  unfolding get_history new_history
  history_keeps_last strs = add_all_from [] [] strs refl
