-- ===== src/Timer/Heap/Order.antt =====
-- The order of the heap, and the indices that the items carry.
use mathlib.Core.List.{Perm}
use mathlib.Core.List.Perm
use cc_be_chat_test.Common.{
  ℕ, zero, suc, ◌≤◌, ◌<◌, ◌≡◌, ◌≢◌, refl, ◌∙◌, some, List, length, arith, ◌==◌, if◌then◌else◌,
}
use cc_be_chat_test.Common.Arrays.{get_or-exchange, Perm-exchange, length-exchange}
use cc_be_chat_test.Timer.Heap.{Timers, TimeItem, no_item, at, due, parent, exchanged}

abbrev pub IsHeap : List TimeItem → Type 0
IsHeap items = (c : ℕ) → 0 < c → c < length items → due items (parent c) ≤ due items c

-- The parent of `i` and the children of `i` are in order.
abbrev pub IsBridged : List TimeItem → ℕ → Type 0
IsBridged items i =
    (c : ℕ) → 0 < c → c < length items → parent c ≡ i → 0 < i → due items (parent i) ≤ due items c

-- Every item knows its place; so no two items have the same number.
abbrev pub IsIndexed : Timers → Type 0
IsIndexed tm = (c : ℕ) → c < length tm.items → tm.index (at tm.items c).id ≡ some c

abbrev pub IsAbsent : ℕ → List TimeItem → Type 0
IsAbsent k items = (c : ℕ) → c < length items → (at items c).id ≢ k

-- `tm'` is a heap of the items of `tm`, which know their new places; no other item is touched.
pub record Sifted (tm tm' : Timers) : Type 0 where
  pub heap : IsHeap tm'.items
  pub same : Perm tm'.items tm.items
  pub indexed : IsIndexed tm'
  pub others : (k : ℕ) → IsAbsent k tm.items → tm'.index k ≡ tm.index k

module _ (tm : Timers) (i j : ℕ) (hi : i < length tm.items) (hj : j < length tm.items) where
  exchanged-at :
      (k : ℕ)
      → at (exchanged tm i j).items k
        ≡ (if j == k then at tm.items i else if i == k then at tm.items j else at tm.items k)
  exchanged-at = get_or-exchange tm.items i j no_item hi hj

  pub exchanged-IsIndexed : IsIndexed tm → IsIndexed (exchanged tm i j)
  exchanged-IsIndexed h c p =
      let size = length-exchange tm.items i j no_item in
      ground (arith, size, exchanged-at c, exchanged-at i, exchanged-at j, h c, h i, h j)

  exchanged-others : (k : ℕ) → IsAbsent k tm.items → (exchanged tm i j).index k ≡ tm.index k
  exchanged-others k absent = ground (arith, exchanged-at i, exchanged-at j, absent i, absent j)

  exchanged-IsAbsent : (k : ℕ) → IsAbsent k tm.items → IsAbsent k (exchanged tm i j).items
  exchanged-IsAbsent k absent c p =
      let size = length-exchange tm.items i j no_item in
      ground (arith, size, exchanged-at c, absent c, absent i, absent j)

  pub exchanged-Sifted : (tm' : Timers) → Sifted (exchanged tm i j) tm' → Sifted tm tm'
  exchanged-Sifted tm' s = record {
    heap = s.heap;
    same = Perm.trans s.same (Perm-exchange tm.items i j no_item hi hj);
    indexed = s.indexed;
    others = λ k absent. s.others k (exchanged-IsAbsent k absent) ∙ exchanged-others k absent;
  }

-- A heap is what it is to become.
pub IsHeap-Sifted : (tm : Timers) → IsHeap tm.items → IsIndexed tm → Sifted tm tm
IsHeap-Sifted tm h n = record { heap = h; same = Perm.rfl; indexed = n; others = λ k absent. refl }

root_least_below :
    (k : ℕ) (items : List TimeItem) (i : ℕ)
    → IsHeap items
    → i < k
    → i < length items
    → due items 0 ≤ due items i
root_least_below zero items i h f p = absurd (omega arith)
root_least_below (suc k) items zero h f p = omega arith
root_least_below (suc k) items (suc i) h f p =
    omega (arith, h (suc i), root_least_below k items (parent (suc i)) h)

-- No timer of a heap expires before the one at the head.
pub root_least :
    (items : List TimeItem) (i : ℕ) → IsHeap items → i < length items → due items 0 ≤ due items i
root_least items i h p = root_least_below (suc i) items i h (omega arith) p
