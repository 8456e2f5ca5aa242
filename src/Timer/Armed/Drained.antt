-- ===== src/Timer/Armed/Drained.antt =====
-- Every timer fires, in the order of the times.
use mathlib.Core.List.{Mem, Perm, mem-cons_self, mem-cons_of_mem}
use mathlib.Core.List.Perm
use cc_be_chat_test.Common.{
  ℕ, zero, suc, ◌≤◌, ◌≡◌, refl, List, [], ◌∷◌, length, arith, Returns, returns, Returns-bind,
}
use cc_be_chat_test.Common.Arrays.{Perm-length}
use cc_be_chat_test.Timer.Heap.{TimeItem, at}
use cc_be_chat_test.Timer.Heap.Members.{head_least}
use cc_be_chat_test.Timer.{Timer, forever, run_signals}
use cc_be_chat_test.Timer.Removal.{Popped}
use cc_be_chat_test.Timer.Armed.{IsArmed}
use cc_be_chat_test.Timer.Armed.Operations.{fire-Popped}

pub IsAscending : List TimeItem → Type 0
IsAscending [] = Unit {0}
IsAscending (x ∷ []) = Unit {0}
IsAscending (x ∷ y ∷ items) = (x.expire ≤ y.expire) × IsAscending (y ∷ items)

-- All the timers have fired, once each, in ascending order.
pub record Drained (items : List TimeItem) (r : Timer × List TimeItem) : Type 0 where
  pub empty : r.0.timers.items ≡ []
  pub fired : Perm r.1 items
  pub ascending : IsAscending r.1

IsAscending-cons :
    (x : TimeItem) (items : List TimeItem)
    → ((y : TimeItem) → Mem y items → x.expire ≤ y.expire)
    → IsAscending items
    → IsAscending (x ∷ items)
unfolding IsAscending
IsAscending-cons x [] least h = h
IsAscending-cons x (y ∷ items) least h = (least y mem-cons_self, h)

empty_of : (items : List TimeItem) → length items ≡ 0 → items ≡ []
empty_of [] h = refl
empty_of (x ∷ items) h = absurd (omega (arith, h))

module _ (tm : Timer) (n : ℕ) (a : IsArmed tm) (size : length tm.timers.items ≡ suc n) where
  fired_before :
      (tm' : Timer)
      → Popped tm.timers tm'.timers
      → (r : Timer × List TimeItem) → Drained tm'.timers.items r
      → Drained tm.timers.items (r.0, at tm.timers.items 0 ∷ r.1)
  fired_before tm' p r d =
      let all = Perm.trans (Perm.cons (at tm.timers.items 0) d.fired) p.taken.same in
      let least = λ (y : TimeItem) (m : Mem y r.1).
        head_least tm.timers.items a.valid.heap y ((Perm.mem_iff all).0 (mem-cons_of_mem _ m)) in
      record {
        empty = d.empty;
        fired = all;
        ascending = IsAscending-cons (at tm.timers.items 0) r.1 least d.ascending;
      }

-- With the timers in heap order and the signal set for the first of them, as many rounds of the loop as
-- there are timers end with no timer left; each timer has fired once, in ascending order of its time.
-- Callbacks leave the timers alone.
pub run_signals-Drained :
    (n : ℕ) (tm : Timer)
    → IsArmed tm
    → length tm.timers.items ≡ n
    → Returns (Drained tm.timers.items) (run_signals n tm)
unfolding run_signals IsAscending
run_signals-Drained zero tm a size =
    let empty = empty_of tm.timers.items size in
    returns (record { empty = empty; fired = rw (empty) Perm.rfl; ascending = tt })
run_signals-Drained (suc n) tm a size = rw (a.armed (omega (arith, size))) (
    Returns-bind (fire-Popped (record tm { signal = forever }) n a.valid size) λ fired f.
      let fewer : length fired.0.timers.items ≡ n =
        omega (arith, Perm-length f.1.taken.same, size) in
      Returns-bind (run_signals-Drained n fired.0 f.0 fewer)
        λ r d. rw (f.2) (returns (fired_before tm n a size fired.0 f.1 r d)))
