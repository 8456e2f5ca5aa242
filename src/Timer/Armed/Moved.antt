-- ===== src/Timer/Armed/Moved.antt =====
-- Reset: the heap is in order again, but the signal is not set anew.
use mathlib.Core.List.{Perm}
use cc_be_chat_test.Common.{
  ℕ, suc, ◌+◌, ◌<◌, ◌≡◌, refl, true, false, Option, List, length, length-set, set, ltb, arith, ◌==◌,
  if◌then◌else◌, panic, Returns, returns, Returns-map, Returns-bind,
}
use cc_be_chat_test.Common.Arrays.{Perm-length, get_elem?-get_or, get_or-set}
use cc_be_chat_test.Timer.Heap.{TimeItem, Timers, at, parent, no_item, load}
use cc_be_chat_test.Timer.Heap.Fixed.{FixInv, fix_restores}
use cc_be_chat_test.Timer.{Timer, reset, fire}
use cc_be_chat_test.Timer.Changes.{IsValid}
use cc_be_chat_test.Timer.Armed.{IsArmed}
use cc_be_chat_test.Timer.Armed.Operations.{fire-Popped}

module _ (tm : Timers) (v : IsValid tm) (i : ℕ) (hi : i < length tm.items) (when : ℕ) where
  -- The items with the one at `i` due at another time.
  abbrev pub moved : List TimeItem
  moved = set tm.items i (record (at tm.items i) { expire = when })

  moved-at :
      (c : ℕ)
      → at moved c ≡ (if i == c then record (at tm.items i) { expire = when } else at tm.items c)
  moved-at c = get_or-set tm.items i c (record (at tm.items i) { expire = when }) no_item hi

  length-moved : length moved ≡ length tm.items
  length-moved = length-set tm.items i (record (at tm.items i) { expire = when })

  moved-FixInv : FixInv (record tm { items = moved }) i
  moved-FixInv = record {
    inside = omega (arith, length-moved, hi);
    edges = λ c p q ne up. ground (arith, moved-at c, moved-at (parent c), v.heap c, length-moved);
    bridged = λ c p q e pos.
        ground (arith, moved-at c, moved-at (parent i), v.heap c, v.heap i, length-moved);
    indexed = λ c q. ground (arith, moved-at c, v.indexed c, v.indexed i, length-moved);
  }

-- What Reset makes of the timers: the items, one of them due at `when`, in order; the signal of before.
pub record Moved (tm : Timer) (i when : ℕ) (tm' : Timer) : Type 0 where
  pub valid : IsValid tm'.timers
  pub same :
      Perm tm'.timers.items
        (set tm.timers.items i (record (at tm.timers.items i) { expire = when }))
  pub signal_kept : tm'.signal ≡ tm.signal

-- Reset of a timer of a heap in order changes its time, puts the heap in order again and leaves the
-- signal at the time that it had.
pub reset-Moved :
    (tm : Timer) (i now delay : ℕ)
    → IsValid tm.timers
    → i < length tm.timers.items
    → Returns (Moved tm i (now + delay)) (reset tm (at tm.timers.items i).id now delay)
unfolding reset load
reset-Moved tm i now delay v hi =
    let nonempty : (length tm.timers.items == 0) ≡ false = ground (arith, hi) in
    let inside : ltb i (length tm.timers.items) ≡ true = ground (arith, hi) in
    let itself : ((at tm.timers.items i).id == (at tm.timers.items i).id) ≡ true = ground arith in
    rw (nonempty, v.indexed i hi, inside, get_elem?-get_or tm.timers.items i no_item hi, itself)
      (Returns-bind (fix_restores _ i (moved-FixInv tm.timers v i hi (now + delay))) λ timers s.
        returns (record {
          valid = record { heap = s.heap; indexed = s.indexed };
          same = s.same;
          signal_kept = refl;
        }))

-- With two timers at least, in heap order, Reset of the timer that has just fired panics.
pub fire-reset :
    (tm : Timer) (n now delay : ℕ)
    → IsArmed tm
    → length tm.timers.items ≡ suc (suc n)
    → Returns
        (λ (r : Timer × Option TimeItem). reset r.0 (at tm.timers.items 0).id now delay ≡ panic)
        (fire tm)
unfolding reset
fire-reset tm n now delay a size = Returns-map (fire-Popped tm (suc n) a.valid size) λ r f.
    let left : length r.0.timers.items ≡ suc n = omega (arith, Perm-length f.1.taken.same, size) in
    let nonempty : (length r.0.timers.items == 0) ≡ false = ground (arith, left) in
    rw (nonempty, f.1.unplaced) refl
