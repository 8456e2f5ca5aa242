-- ===== src/Common/Distinct.antt =====
-- Association lists in which each key stands once, as in a Go map.
use mathlib.Core.Path.{◌≡◌, refl, ap, sym, ◌∙◌}
use mathlib.Core.Logic.{◌↔◌, ◌≢◌, inl, inr}
use mathlib.Core.Bool.{Bool, true, false}
use mathlib.Core.Option.{none, some}
use mathlib.Core.List.{List, [], ◌∷◌}
use Prim.Native.Nat.{suc}
use cc_be_chat_test.Common.Tests.{Bool-cases}
use cc_be_chat_test.Common.Lists.{length}
use cc_be_chat_test.Common.Maps.{lookup, insert, delete, lookup-insert_other, lookup-delete_other}

module _ {K : Type 0} (eqb : K → K → Bool) (eqb_iff : (a b : K) → (eqb a b ≡ true) ↔ (a ≡ b)) where
  ne : (key k : K) → eqb key k ≡ false → k ≢ key
  ne key k other e = absurd (true_ne_false (sym ((eqb_iff key k).1 (sym e)) ∙ other))
    where
      true_ne_false : true ≢ false
      true_ne_false e = absurd (cc)

module _ {K V : Type 0} (eqb : K → K → Bool)
    (eqb_iff : (a b : K) → (eqb a b ≡ true) ↔ (a ≡ b)) where
  abbrev pub Distinct : List (K × V) → Type 0
  Distinct [] = Unit {0}
  Distinct ((key, v) ∷ m) = (lookup eqb m key ≡ none) × Distinct m

  pub insert-Distinct :
      (m : List (K × V)) (k : K) (v : V) → Distinct m → Distinct (insert eqb m k v)
  insert-Distinct [] k v h = (refl, tt)
  insert-Distinct ((key, old) ∷ m) k v (new, h) = elim (Bool-cases (eqb key k)) [
    | inl same ↦ rw (same) (new, h)
    | inr other ↦ rw (other) (
      lookup-insert_other eqb eqb_iff m k key v (ne eqb eqb_iff key k other) ∙ new,
      insert-Distinct m k v h,
    )
  ]

  pub delete-Distinct : (m : List (K × V)) (k : K) → Distinct m → Distinct (delete eqb m k)
  delete-Distinct [] k h = tt
  delete-Distinct ((key, old) ∷ m) k (new, h) = elim (Bool-cases (eqb key k)) [
    | inl same ↦ rw (same) (delete-Distinct m k h)
    | inr other ↦ rw (other) (
      lookup-delete_other eqb eqb_iff m k key (ne eqb eqb_iff key k other) ∙ new,
      delete-Distinct m k h,
    )
  ]

  delete_absent : (m : List (K × V)) (k : K) → lookup eqb m k ≡ none → delete eqb m k ≡ m
  delete_absent [] k e = refl
  delete_absent ((key, old) ∷ m) k e = elim (Bool-cases (eqb key k)) [
    | inl same ↦ absurd (some_ne old (rw same at e))
    | inr other ↦ rw (other) (ap (◌∷◌ (key, old)) (delete_absent m k (rw other at e)))
  ]
    where
      some_ne : (v : V) → some v ≢ none
      some_ne v e = absurd (cc)

  pub length-delete :
      (m : List (K × V)) (k : K)
      → Distinct m
      → lookup eqb m k ≢ none
      → suc (length (delete eqb m k)) ≡ length m
  length-delete [] k h known = absurd (known refl)
  length-delete ((key, old) ∷ m) k (new, h) known = elim (Bool-cases (eqb key k)) [
    | inl same ↦
        rw (same)
          (ap (λ l. suc (length l)) (delete_absent m k (rw ((eqb_iff key k).0 same) at new)))
    | inr other ↦ rw (other) (ap suc (length-delete m k h (rw other at known)))
  ]
