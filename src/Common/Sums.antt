-- ===== src/Common/Sums.antt =====
-- The sum of a weight over a list: it does not depend on the order.
use native.Mathlib.Nat.{ℕ_set}
use Prim.Native.Nat.{ℕ, zero, suc, ◌+◌}
use mathlib.Core.Path.{◌≡◌, refl, ap, ◌∙◌}
use mathlib.Core.Logic.{∥∥₁_elim}
use mathlib.Core.List.{List, [], ◌∷◌, Perm, Permᴰ}
use native.Mathlib.Omega.{arith}
use cc_be_chat_test.Common.Lists.{take, drop}

module _ {A : Type 0} (weight : A → ℕ) where
  abbrev pub sum_of : List A → ℕ
  sum_of [] = 0
  sum_of (x ∷ xs) = weight x + sum_of xs

  Permᴰ-sum_of : {xs ys : List A} → Permᴰ xs ys → sum_of xs ≡ sum_of ys
  Permᴰ-sum_of Permᴰ.nil = refl
  Permᴰ-sum_of (Permᴰ.cons e p) = omega (arith, ap weight e, Permᴰ-sum_of p)
  Permᴰ-sum_of (Permᴰ.swap e₁ e₂) = omega (arith, ap weight e₁, ap weight e₂)
  Permᴰ-sum_of (Permᴰ.trans p q) = Permᴰ-sum_of p ∙ Permᴰ-sum_of q

  pub sum_of-perm : {xs ys : List A} → Perm xs ys → sum_of xs ≡ sum_of ys
  sum_of-perm p = ∥∥₁_elim p (ℕ_set _ _) Permᴰ-sum_of

  pub sum_of-split : (n : ℕ) (xs : List A) → sum_of xs ≡ sum_of (take n xs) + sum_of (drop n xs)
  sum_of-split zero xs = omega arith
  sum_of-split (suc n) [] = omega arith
  sum_of-split (suc n) (x ∷ xs) = omega (arith, sum_of-split n xs)
