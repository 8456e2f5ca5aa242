-- ===== src/Common/Maps.antt =====
-- Go maps as association lists with at most one entry per key that matters: the first.
use mathlib.Core.Path.{◌≡◌, refl, sym, ◌∙◌}
use mathlib.Core.Logic.{◌↔◌, ◌≢◌, inl, inr}
use mathlib.Core.Bool.{Bool, true, false}
use mathlib.Core.Option.{Option, none, some}
use mathlib.Core.List.{List, [], ◌∷◌}
use cc_be_chat_test.Common.Tests.{if◌then◌else◌, Bool-cases}

module _ {K V : Type 0} (eqb : K → K → Bool) where
  abbrev pub lookup : List (K × V) → K → Option V
  lookup [] k = none
  lookup ((key, v) ∷ m) k = let rest = lookup m k in if eqb key k then some v else rest

  -- `m[k] = v`
  abbrev pub insert : List (K × V) → K → V → List (K × V)
  insert [] k v = (k, v) ∷ []
  insert ((key, old) ∷ m) k v =
      let rest = insert m k v in if eqb key k then (key, v) ∷ m else (key, old) ∷ rest

  -- `delete(m, k)`
  abbrev pub delete : List (K × V) → K → List (K × V)
  delete [] k = []
  delete ((key, v) ∷ m) k = let rest = delete m k in if eqb key k then rest else (key, v) ∷ rest

module _ {K : Type 0} (eqb : K → K → Bool) (eqb_iff : (a b : K) → (eqb a b ≡ true) ↔ (a ≡ b)) where
  pub eqb_refl : (a : K) → eqb a a ≡ true
  eqb_refl a = (eqb_iff a a).1 refl

  pub eqb_ne : (a b : K) → a ≢ b → eqb a b ≡ false
  eqb_ne a b ne = elim (Bool-cases (eqb a b)) [
    | inl same ↦ absurd (ne ((eqb_iff a b).0 same))
    | inr other ↦ other
  ]

module _ {K V : Type 0} (eqb : K → K → Bool)
    (eqb_iff : (a b : K) → (eqb a b ≡ true) ↔ (a ≡ b)) where
  pub lookup-insert : (m : List (K × V)) (k : K) (v : V) → lookup eqb (insert eqb m k v) k ≡ some v
  lookup-insert [] k v = rw (eqb_refl eqb eqb_iff k) refl
  lookup-insert ((key, old) ∷ m) k v = elim (Bool-cases (eqb key k)) [
    | inl same ↦ rw (same, same) refl
    | inr other ↦ rw (other, other) (lookup-insert m k v)
  ]

  pub lookup-insert_other :
      (m : List (K × V)) (k k' : K) (v : V)
      → k ≢ k'
      → lookup eqb (insert eqb m k v) k' ≡ lookup eqb m k'
  lookup-insert_other [] k k' v ne = rw (eqb_ne eqb eqb_iff k k' ne) refl
  lookup-insert_other ((key, old) ∷ m) k k' v ne = elim (Bool-cases (eqb key k)) [
    | inl same ↦
        let differ : eqb key k' ≡ false =
          eqb_ne eqb eqb_iff key k' (λ e. ne (sym ((eqb_iff key k).0 same) ∙ e)) in
        rw (same, differ) refl
    | inr other ↦ rw (other, lookup-insert_other m k k' v ne) refl
  ]

  pub lookup-delete : (m : List (K × V)) (k : K) → lookup eqb (delete eqb m k) k ≡ none
  lookup-delete [] k = refl
  lookup-delete ((key, v) ∷ m) k = elim (Bool-cases (eqb key k)) [
    | inl same ↦ rw (same) (lookup-delete m k)
    | inr other ↦ rw (other, other) (lookup-delete m k)
  ]

  pub lookup-delete_other :
      (m : List (K × V)) (k k' : K) → k ≢ k' → lookup eqb (delete eqb m k) k' ≡ lookup eqb m k'
  lookup-delete_other [] k k' ne = refl
  lookup-delete_other ((key, v) ∷ m) k k' ne = elim (Bool-cases (eqb key k)) [
    | inl same ↦
        let differ : eqb key k' ≡ false =
          eqb_ne eqb eqb_iff key k' (λ e. ne (sym ((eqb_iff key k).0 same) ∙ e)) in
        rw (same, differ) (lookup-delete_other m k k' ne)
    | inr other ↦ rw (other, lookup-delete_other m k k' ne) refl
  ]
