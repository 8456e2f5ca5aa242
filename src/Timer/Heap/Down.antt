-- ===== src/Timer/Heap/Down.antt =====
-- `down` of container/heap.
use cc_be_chat_test.Common.{
  ℕ, zero, suc, ◌+◌, ◌-◌, ◌*◌, ◌≤◌, ◌<◌, ◌≡◌, ◌≢◌, ◌⊎◌, inl, inr, Bool-cases, length, ltb, ltb→lt,
  arith, Returns, returns, Returns-map, Returns-bind,
}
use cc_be_chat_test.Common.Arrays.{length-exchange, get_or-exchange}
use cc_be_chat_test.Timer.Heap.{
  Timers, no_item, due, parent, exchanged, less-ok, swap-ok, smaller_child, down_loop,
}
use cc_be_chat_test.Timer.Heap.Order.{
  IsBridged, IsIndexed, Sifted, exchanged-Sifted, IsHeap-Sifted, exchanged-IsIndexed,
}

-- Only the item at `i` may be due after its children.
pub record DownInv (tm : Timers) (i : ℕ) : Type 0 where
  pub edges :
      (c : ℕ)
      → 0 < c
      → c < length tm.items
      → parent c ≢ i
      → due tm.items (parent c) ≤ due tm.items c
  pub bridged : IsBridged tm.items i
  pub indexed : IsIndexed tm

-- `m` is the child of `i` that is due first.
pub record IsSmallerChild (tm : Timers) (i m : ℕ) : Type 0 where
  pub inside : m < length tm.items
  pub child : (m ≡ 2 * i + 1) ⊎ (m ≡ 2 * i + 2)
  pub least : (c : ℕ) → 0 < c → c < length tm.items → parent c ≡ i → due tm.items m ≤ due tm.items c

pub smaller_child-IsSmallerChild :
    (tm : Timers) (i : ℕ)
    → 2 * i + 1 < length tm.items
    → Returns (IsSmallerChild tm i) (smaller_child tm i)
unfolding smaller_child
smaller_child-IsSmallerChild tm i h = grind (arith, less-ok tm (2 * i + 1 + 1) (2 * i + 1), returns)

exchanged-DownInv :
    (tm : Timers) (i m : ℕ)
    → DownInv tm i
    → IsSmallerChild tm i m
    → i < length tm.items
    → due tm.items m < due tm.items i
    → DownInv (exchanged tm i m) m
exchanged-DownInv tm i m v s hi below =
    let size = length-exchange tm.items i m no_item in
    let ex = get_or-exchange tm.items i m no_item hi s.inside in
    record {
      edges =
          λ c p q ne. ground (arith, size, ex c, ex (parent c), v.edges c, v.bridged m, s.least c);
      bridged = λ c p q r pos. ground (arith, size, ex c, ex (parent m), v.edges c);
      indexed = exchanged-IsIndexed tm i m hi s.inside v.indexed;
    }

-- What the loop leaves, apart from where it ends.
abbrev Sunk : Timers → Timers × ℕ → Type 0
Sunk tm r = Sifted tm r.0

pub down_loop_restores :
    (fuel : ℕ) (tm : Timers) (i : ℕ)
    → length tm.items - i < fuel
    → DownInv tm i
    → Returns (Sunk tm) (down_loop fuel tm i)
unfolding down_loop
down_loop_restores zero tm i f v = absurd (omega arith)
down_loop_restores (suc fuel) tm i f v = elim (Bool-cases (ltb (2 * i + 1) (length tm.items))) [
  | inl has_child ↦
      let more = ltb→lt (2 * i + 1) (length tm.items) has_child in
      let hi : i < length tm.items = omega (arith, more) in
      rw (has_child) (
        Returns-bind (smaller_child-IsSmallerChild tm i more) λ m s.
          rw (less-ok tm m i s.inside hi)
            (elim (Bool-cases (ltb (due tm.items m) (due tm.items i))) [
              | inl below ↦
                  rw (below, swap-ok tm i m hi s.inside)
                    (Returns-map
                      (down_loop_restores fuel (exchanged tm i m) m
                        (omega (arith, s.child, length-exchange tm.items i m no_item, f, more))
                        (exchanged-DownInv tm i m v s hi (ltb→lt _ _ below)))
                      (λ r. exchanged-Sifted tm i m hi s.inside r.0))
              | inr ordered ↦ rw (ordered) (
                  returns
                    (IsHeap-Sifted tm (λ c p q. ground (arith, v.edges c, s.least c)) v.indexed))
            ]))
  | inr leaf ↦ rw (leaf) (returns (IsHeap-Sifted tm (λ c p q. ground (arith, v.edges c)) v.indexed))
]
