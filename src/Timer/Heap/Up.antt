-- ===== src/Timer/Heap/Up.antt =====
-- `up` of container/heap.
use cc_be_chat_test.Common.{
  ℕ, zero, suc, ◌≤◌, ◌<◌, ◌≡◌, ◌≢◌, refl, inl, inr, Bool-cases, length, ltb, ltb→lt, arith, ◌==◌,
  ok, false, Returns, returns, Returns-map,
}
use cc_be_chat_test.Common.Arrays.{length-exchange, get_or-exchange}
use cc_be_chat_test.Timer.Heap.{
  Timers, no_item, due, parent, exchanged, less-ok, swap-ok, up_loop, up,
}
use cc_be_chat_test.Timer.Heap.Order.{
  IsHeap, IsBridged, IsIndexed, Sifted, exchanged-Sifted, IsHeap-Sifted, exchanged-IsIndexed,
}

-- Only the item at `i` may be due before its parent.
pub record UpInv (tm : Timers) (i : ℕ) : Type 0 where
  pub inside : i < length tm.items
  pub edges :
      (c : ℕ) → 0 < c → c < length tm.items → c ≢ i → due tm.items (parent c) ≤ due tm.items c
  pub bridged : IsBridged tm.items i
  pub indexed : IsIndexed tm

exchanged-UpInv :
    (tm : Timers) (i : ℕ)
    → UpInv tm i
    → 0 < i
    → due tm.items i < due tm.items (parent i)
    → UpInv (exchanged tm (parent i) i) (parent i)
exchanged-UpInv tm i v pos below =
    let above : parent i < length tm.items = omega (arith, v.inside) in
    let size = length-exchange tm.items (parent i) i no_item in
    let ex = get_or-exchange tm.items (parent i) i no_item above v.inside in
    record {
      inside = omega (arith, size, above);
      edges = λ c p q ne.
          ground (arith, size, ex c, ex (parent c), v.edges c, v.edges i, v.bridged c, above);
      bridged = λ c p q r s.
          ground (arith, size, ex c, ex (parent (parent i)), v.edges c, v.edges (parent i), above);
      indexed = exchanged-IsIndexed tm (parent i) i above v.inside v.indexed;
    }

up_loop_restores :
    (fuel : ℕ) (tm : Timers) (i : ℕ)
    → i < fuel
    → UpInv tm i
    → Returns (Sifted tm) (up_loop fuel tm i)
unfolding up_loop
up_loop_restores zero tm i f v = absurd (omega arith)
up_loop_restores (suc fuel) tm i f v =
    let above : parent i < length tm.items = omega (arith, v.inside) in
    elim (Bool-cases (parent i == i)) [
      | inl root ↦
          rw (root) (returns (IsHeap-Sifted tm (λ c p q. v.edges c p q (ground arith)) v.indexed))
      | inr inner ↦
          let pos : 0 < i = ground arith in
          rw (inner, less-ok tm i (parent i) v.inside above)
            (elim (Bool-cases (ltb (due tm.items i) (due tm.items (parent i)))) [
              | inl below ↦
                  rw (below, swap-ok tm (parent i) i above v.inside)
                    (Returns-map
                      (up_loop_restores fuel (exchanged tm (parent i) i) (parent i) (omega arith)
                        (exchanged-UpInv tm i v pos (ltb→lt _ _ below)))
                      (exchanged-Sifted tm (parent i) i above v.inside))
              | inr ordered ↦
                  rw (ordered)
                    (returns (IsHeap-Sifted tm (λ c p q. ground (arith, v.edges c)) v.indexed))
            ])
    ]

-- `up` makes a heap of the same items of a slice in which only the item at `i` may be too low.
pub up_restores : (tm : Timers) (i : ℕ) → UpInv tm i → Returns (Sifted tm) (up tm i)
unfolding up
up_restores tm i v = up_loop_restores (suc i) tm i (omega arith) v

-- In a heap there is nothing to do.
pub up_stays : (tm : Timers) (i : ℕ) → IsHeap tm.items → i < length tm.items → up tm i ≡ ok tm
unfolding up up_loop
up_stays tm i h inside = elim (Bool-cases (parent i == i)) [
  | inl root ↦ rw (root) refl
  | inr inner ↦
      let ordered : ltb (due tm.items i) (due tm.items (parent i)) ≡ false = ground (arith, h i) in
      rw (inner, less-ok tm i (parent i) inside (omega (arith, inside)), ordered) refl
]
