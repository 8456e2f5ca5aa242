-- ===== src/Timer/Heap/Fixed.antt =====
-- Fix of container/heap: one item may be in the wrong place, too high or too low.
use cc_be_chat_test.Common.{
  ℕ, suc, ◌+◌, ◌*◌, ◌≤◌, ◌<◌, ◌≡◌, ◌≢◌, refl, inl, inr, Bool-cases, false, ◌&&◌, length, ltb,
  ltb→lt, arith, ok, Returns, returns, Returns-bind, Returns-inv,
}
use cc_be_chat_test.Common.Arrays.{Perm-length}
use cc_be_chat_test.Timer.Heap.{Timers, due, parent, less-ok, down_loop, down, fix}
use cc_be_chat_test.Timer.Heap.Order.{IsBridged, IsIndexed, Sifted}
use cc_be_chat_test.Timer.Heap.Up.{up_restores, up_stays}
use cc_be_chat_test.Timer.Heap.Down.{DownInv, smaller_child-IsSmallerChild, down_loop_restores}

-- Only the item at `i` may be out of order, with its parent or with its children.
pub record FixInv (tm : Timers) (i : ℕ) : Type 0 where
  pub inside : i < length tm.items
  pub edges :
      (c : ℕ)
      → 0 < c
      → c < length tm.items
      → c ≢ i
      → parent c ≢ i
      → due tm.items (parent c) ≤ due tm.items c
  pub bridged : IsBridged tm.items i
  pub indexed : IsIndexed tm

-- An item that is due before its parent is due before its children too: down leaves it.
down_stays :
    (tm : Timers) (i : ℕ)
    → FixInv tm i
    → 0 < i
    → due tm.items i < due tm.items (parent i)
    → down_loop (suc (length tm.items)) tm i ≡ ok (tm, i)
unfolding down_loop
down_stays tm i v pos below = elim (Bool-cases (ltb (2 * i + 1) (length tm.items))) [
  | inl has_child ↦
      let (m, found, s) = Returns-inv (smaller_child-IsSmallerChild tm i (ltb→lt _ _ has_child)) in
      let ordered : ltb (due tm.items m) (due tm.items i) ≡ false =
        ground (arith, v.bridged m, s.inside, s.child) in
      rw (has_child, found, less-ok tm m i s.inside v.inside, ordered) refl
  | inr leaf ↦ rw (leaf) refl
]

down_sinks : (tm : Timers) (i : ℕ) → DownInv tm i → Returns (λ d. Sifted tm d.0) (down tm i)
unfolding down
down_sinks tm i v =
    Returns-bind (down_loop_restores (suc (length tm.items)) tm i (omega arith) v)
      (λ r s. returns s)

-- Fix makes a heap of the same items.
pub fix_restores : (tm : Timers) (i : ℕ) → FixInv tm i → Returns (Sifted tm) (fix tm i)
unfolding fix down
fix_restores tm i v =
    elim (Bool-cases (ltb 0 i && ltb (due tm.items i) (due tm.items (parent i)))) [
      | inl low ↦
          let pos : 0 < i = ground arith in
          let below : due tm.items i < due tm.items (parent i) = ground arith in
          let stays : ltb i i ≡ false = ground arith in
          rw (down_stays tm i v pos below, stays)
            (up_restores tm i (record {
              inside = v.inside;
              edges = λ c p q ne. ground (arith, v.edges c, v.bridged c);
              bridged = v.bridged;
              indexed = v.indexed;
            }))
      | inr high ↦
          let invariant : DownInv tm i = record {
            edges = λ c p q ne. ground (arith, v.edges c);
            bridged = v.bridged;
            indexed = v.indexed;
          } in
          Returns-bind (down_sinks tm i invariant) λ done s. elim (Bool-cases done.1) [
            | inl moved ↦ rw (moved) (returns s)
            | inr stayed ↦
                let inside : i < length done.0.items =
                  omega (arith, v.inside, Perm-length s.same) in
                rw (stayed, up_stays done.0 i s.heap inside) (returns s)
          ]
    ]
