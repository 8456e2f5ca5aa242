-- ===== src/Common/Arrays.antt =====
-- Lists as slices: exchanging two entries, read with a default.
use native.Mathlib.Nat.{ℕ_set}
use mathlib.Core.Logic.{∥∥₁_elim}
use mathlib.Core.Path.{◌≡◌, refl, ap, ◌∙◌}
use mathlib.Core.Option.{some}
use mathlib.Core.List.{List, [], ◌∷◌, ◌++◌, Perm, Permᴰ, append-nil, perm_middle}
use mathlib.Core.List.Perm
use native.Mathlib.Omega.{arith}
use Prim.Native.Nat.{ℕ, zero, suc, ◌<◌}
use cc_be_chat_test.Common.Tests.{◌==◌, if◌then◌else◌}
use cc_be_chat_test.Common.Lists.{length, get_elem?, get_or, set, take, length-set}

module _ {ℓ} {A : Type ℓ} where
  pub get_elem?-get_or :
      (xs : List A) (i : ℕ) (d : A) → i < length xs → get_elem? xs i ≡ some (get_or xs i d)
  get_elem?-get_or [] i d h = absurd (omega arith)
  get_elem?-get_or (x ∷ xs) zero d h = refl
  get_elem?-get_or (x ∷ xs) (suc i) d h = get_elem?-get_or xs i d (omega arith)

  pub get_or-set :
      (xs : List A) (i j : ℕ) (v d : A)
      → i < length xs
      → get_or (set xs i v) j d ≡ (if i == j then v else get_or xs j d)
  get_or-set [] i j v d h = absurd (omega arith)
  get_or-set (x ∷ xs) zero zero v d h = refl
  get_or-set (x ∷ xs) (suc i) (suc j) v d h = ground (arith, get_or-set xs i j v d)
  get_or-set (x ∷ xs) i j v d h = ground arith

  pub get_or-append_left :
      (xs ys : List A) (i : ℕ) (d : A) → i < length xs → get_or (xs ++ ys) i d ≡ get_or xs i d
  get_or-append_left [] ys i d h = absurd (omega arith)
  get_or-append_left (x ∷ xs) ys zero d h = refl
  get_or-append_left (x ∷ xs) ys (suc i) d h = get_or-append_left xs ys i d (omega arith)

  pub get_or-append_last : (xs : List A) (y d : A) → get_or (xs ++ (y ∷ [])) (length xs) d ≡ y
  get_or-append_last [] y d = refl
  get_or-append_last (x ∷ xs) y d = get_or-append_last xs y d

  pub get_or-take :
      (n : ℕ) (xs : List A) (i : ℕ) (d : A) → i < n → get_or (take n xs) i d ≡ get_or xs i d
  get_or-take zero xs i d h = absurd (omega arith)
  get_or-take (suc n) [] i d h = refl
  get_or-take (suc n) (x ∷ xs) zero d h = refl
  get_or-take (suc n) (x ∷ xs) (suc i) d h = get_or-take n xs i d (omega arith)

  pub take-get_or_last :
      (n : ℕ) (xs : List A) (d : A) → length xs ≡ suc n → take n xs ++ (get_or xs n d ∷ []) ≡ xs
  take-get_or_last zero (x ∷ []) d h = refl
  take-get_or_last zero [] d h = absurd (omega arith)
  take-get_or_last zero (x ∷ y ∷ xs) d h = absurd (omega arith)
  take-get_or_last (suc n) [] d h = absurd (omega arith)
  take-get_or_last (suc n) (x ∷ xs) d h = ap (◌∷◌ x) (take-get_or_last n xs d (omega arith))

  Permᴰ-size : {xs ys : List A} → Permᴰ xs ys → length xs ≡ length ys
  Permᴰ-size Permᴰ.nil = refl
  Permᴰ-size (Permᴰ.cons _ p) = ap suc (Permᴰ-size p)
  Permᴰ-size (Permᴰ.swap _ _) = refl
  Permᴰ-size (Permᴰ.trans p q) = Permᴰ-size p ∙ Permᴰ-size q

  pub Perm-length : {xs ys : List A} → Perm xs ys → length xs ≡ length ys
  Perm-length p = ∥∥₁_elim p (ℕ_set _ _) Permᴰ-size

  pub Perm-snoc : (xs : List A) (y : A) → Perm (xs ++ (y ∷ [])) (y ∷ xs)
  Perm-snoc xs y = rw append-nil at (perm_middle {a = y} xs [])

  -- A write puts the new entry in the place of the old one.
  Perm-set :
      (xs : List A) (i : ℕ) (v d : A) → i < length xs → Perm (get_or xs i d ∷ set xs i v) (v ∷ xs)
  Perm-set [] i v d h = absurd (omega arith)
  Perm-set (x ∷ xs) zero v d h = Perm.swap v x xs
  Perm-set (x ∷ xs) (suc i) v d h =
      Perm.trans (Perm.swap x _ _)
        (Perm.trans (Perm.cons x (Perm-set xs i v d (omega arith))) (Perm.swap v x xs))

  abbrev pub exchange : List A → ℕ → ℕ → A → List A
  exchange xs i j d = set (set xs i (get_or xs j d)) j (get_or xs i d)

  pub length-exchange : (xs : List A) (i j : ℕ) (d : A) → length (exchange xs i j d) ≡ length xs
  length-exchange xs i j d =
      length-set (set xs i (get_or xs j d)) j (get_or xs i d) ∙ length-set xs i (get_or xs j d)

  module _ (xs : List A) (i j : ℕ) (d : A) (hi : i < length xs) (hj : j < length xs) where
    pub get_or-exchange :
        (k : ℕ)
        → get_or (exchange xs i j d) k d
          ≡ (if j == k then get_or xs i d else if i == k then get_or xs j d else get_or xs k d)
    get_or-exchange k = rw (
      get_or-set (set xs i (get_or xs j d)) j k (get_or xs i d) d (rw length-set hj),
      get_or-set xs i k (get_or xs j d) d hi,
    )

    pub Perm-exchange : Perm (exchange xs i j d) xs
    Perm-exchange =
        let once = set xs i (get_or xs j d) in
        let kept : get_or once j d ≡ get_or xs j d =
          ground (arith, get_or-set xs i j (get_or xs j d) d) in
        let second = rw kept at (Perm-set once j (get_or xs i d) d (rw length-set hj)) in
        Perm.cons_inv (Perm.trans second (Perm-set xs i (get_or xs j d) d hi))
