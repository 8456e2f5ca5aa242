-- ===== src/Timer/Heap/Members.antt =====
-- What holds of every item of a heap, whatever its place.
use native.Mathlib.Bridge.{le_prop}
use mathlib.Core.HLevel.{¬_prop}
use mathlib.Core.Logic.{∥∥₁_elim}
use mathlib.Core.List.{Mem, Memᴰ, Perm, mem-cons_self, mem-cons_of_mem}
use mathlib.Core.List.Perm
use cc_be_chat_test.Common.{ℕ, zero, suc, ◌≤◌, ◌<◌, ◌≢◌, List, [], ◌∷◌, length, arith}
use cc_be_chat_test.Timer.Heap.{TimeItem, at, due}
use cc_be_chat_test.Timer.Heap.Order.{IsHeap, IsAbsent, root_least}

pub at-Mem : (items : List TimeItem) (i : ℕ) → i < length items → Mem (at items i) items
at-Mem [] i h = absurd (omega arith)
at-Mem (x ∷ items) zero h = mem-cons_self
at-Mem (x ∷ items) (suc i) h = mem-cons_of_mem x (at-Mem items i (omega arith))

all-Memᴰ :
    (P : TimeItem → Type 0) (items : List TimeItem)
    → ((i : ℕ) → i < length items → P (at items i))
    → (x : TimeItem) → Memᴰ x items
    → P x
all-Memᴰ P [] h x m = elim m [ ]
all-Memᴰ P (y ∷ items) h x (Memᴰ.head e) = rw (e) (h 0 (omega arith))
all-Memᴰ P (y ∷ items) h x (Memᴰ.tail m) = all-Memᴰ P items (λ i p. h (suc i) (omega arith)) x m

module _ (P : TimeItem → Type 0) (prop : (x : TimeItem) → IsProp (P x)) where
  pub all-Mem :
      (items : List TimeItem)
      → ((i : ℕ) → i < length items → P (at items i))
      → (x : TimeItem) → Mem x items
      → P x
  all-Mem items h x m = ∥∥₁_elim m (prop x) (all-Memᴰ P items h x)

  -- What holds of every item holds of them in every order.
  pub all-Perm :
      {xs ys : List TimeItem}
      → Perm xs ys
      → ((i : ℕ) → i < length ys → P (at ys i))
      → (i : ℕ) → i < length xs
      → P (at xs i)
  all-Perm {xs} {ys} same h i p = all-Mem ys h (at xs i) ((Perm.mem_iff same).0 (at-Mem xs i p))

-- No item of a heap is due before its head.
pub head_least :
    (items : List TimeItem) → IsHeap items → (x : TimeItem) → Mem x items → due items 0 ≤ x.expire
head_least items h =
    all-Mem (λ y. due items 0 ≤ y.expire) (λ y. le_prop) items (λ i p. root_least items i h p)

-- An item that is absent is absent in every order.
pub IsAbsent-Perm : (k : ℕ) {xs ys : List TimeItem} → Perm xs ys → IsAbsent k ys → IsAbsent k xs
IsAbsent-Perm k same = all-Perm (λ x. x.id ≢ k) (λ x. ¬_prop) same
