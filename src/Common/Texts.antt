-- ===== src/Common/Texts.antt =====
-- A string as the list of its characters, and the equality test of strings.
use Prim.Native.Nat.{ℕ}
use mathlib.Core.Path.{◌≡◌, refl, ap₂}
use mathlib.Core.Logic.{◌↔◌, inl, inr}
use mathlib.Core.Bool.{Bool, true, false}
use mathlib.Core.List.{List, [], ◌∷◌, ◌++◌}
use mathlib.Core.Logic.{◌≢◌}
use native.Mathlib.Omega.{arith}
use cc_be_chat_test.Common.Lists.{All}
use cc_be_chat_test.Common.Tests.{◌==◌, ==_iff, if◌then◌else◌, Bool-cases}

abbrev pub eq_text : List ℕ → List ℕ → Bool
eq_text [] [] = true
eq_text [] (y ∷ ys) = false
eq_text (x ∷ xs) [] = false
eq_text (x ∷ xs) (y ∷ ys) = let rest = eq_text xs ys in if x == y then rest else false

eq_text_sound : (xs ys : List ℕ) → eq_text xs ys ≡ true → xs ≡ ys
eq_text_sound [] [] h = refl
eq_text_sound [] (y ∷ ys) h = absurd (ground arith)
eq_text_sound (x ∷ xs) [] h = absurd (ground arith)
eq_text_sound (x ∷ xs) (y ∷ ys) h = elim (Bool-cases (x == y)) [
  | inl same ↦ ap₂ ◌∷◌ ((==_iff x y).0 same) (eq_text_sound xs ys (rw same at h))
  | inr other ↦ let g = rw other at h in absurd (ground arith)
]

eq_text_refl : (xs : List ℕ) → eq_text xs xs ≡ true
eq_text_refl [] = refl
eq_text_refl (x ∷ xs) = rw ((==_iff x x).1 refl) (eq_text_refl xs)

pub eq_text_iff : (xs ys : List ℕ) → (eq_text xs ys ≡ true) ↔ (xs ≡ ys)
eq_text_iff xs ys = (eq_text_sound xs ys, λ e. rw (e) (eq_text_refl ys))

-- `strings.Split(txt, string(sep))`: the pieces between the separators, empty ones too.
abbrev pub split_on : ℕ → List ℕ → List (List ℕ)
split_on sep [] = [] ∷ []
split_on sep (c ∷ txt) =
    let rest = split_on sep txt in
    if c == sep
    then [] ∷ rest
    else elim rest [ [] ↦ (c ∷ []) ∷ [] | word ∷ words ↦ (c ∷ word) ∷ words ]

differ : (c sep : ℕ) → c ≢ sep → (c == sep) ≡ false
differ c sep ne = ground arith

-- Text without the separator is one piece; in front of one, it is the first.
pub split_on_alone : (sep : ℕ) (txt : List ℕ) → All (λ c. c ≢ sep) txt → split_on sep txt ≡ txt ∷ []
split_on_alone sep [] h = refl
split_on_alone sep (c ∷ txt) h = rw (differ c sep h.0, split_on_alone sep txt h.1) refl

pub split_on_first :
    (sep : ℕ) (txt rest : List ℕ)
    → All (λ c. c ≢ sep) txt
    → split_on sep (txt ++ (sep ∷ rest)) ≡ txt ∷ split_on sep rest
split_on_first sep [] rest h = rw ((==_iff sep sep).1 refl) refl
split_on_first sep (c ∷ txt) rest h = rw (differ c sep h.0, split_on_first sep txt rest h.1) refl
