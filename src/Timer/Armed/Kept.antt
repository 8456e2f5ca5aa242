-- ===== src/Timer/Armed/Kept.antt =====
-- The operations keep the signal set for the timer that is due first.
use native.Mathlib.Nat.{ℕ_set}
use native.Mathlib.Bridge.{le_prop}
use mathlib.Core.HLevel.{Π_prop}
use mathlib.Core.List.{Mem, mem-cons_of_mem}
use mathlib.Core.List.Perm
use cc_be_chat_test.Common.{
  ℕ, zero, suc, ◌≤◌, ◌<◌, ◌≡◌, ◌≢◌, refl, inl, inr, Bool-cases, false, Option, List, [], ◌∷◌,
  length, arith, ◌==◌, if◌then◌else◌,
}
use cc_be_chat_test.Common.Arrays.{Perm-length}
use cc_be_chat_test.Timer.Heap.{TimeItem, Timers, at, due}
use cc_be_chat_test.Timer.Heap.Order.{IsHeap, IsAbsent}
use cc_be_chat_test.Timer.Heap.Members.{at-Mem, all-Perm, head_least}
use cc_be_chat_test.Timer.{Timer, Signal, until, arm_if_first, arm_for_other, arm}
use cc_be_chat_test.Timer.Changes.{IsValid, Pushed, Taken}
use cc_be_chat_test.Timer.Armed.{IsArmed}

-- The signal after the tests of the head, when there is one.
module _ (index : ℕ → Option ℕ) (id : ℕ) (s : Signal) where
  abbrev among : List TimeItem → Timers
  among items = record { items = items; index = index }

  arm_if_first_lem :
      (items : List TimeItem)
      → length items ≢ 0
      → (arm_if_first id (among items) s).signal
        ≡ (if (at items 0).id == id then until (due items 0) else s)
  arm_if_first_lem [] ne = absurd (ne refl)
  arm_if_first_lem (x ∷ items) ne = refl

  arm_for_other_lem :
      (items : List TimeItem)
      → length items ≢ 0
      → (arm_for_other id (among items) s).signal
        ≡ (if (at items 0).id == id then s else until (due items 0))
  arm_for_other_lem [] ne = absurd (ne refl)
  arm_for_other_lem (x ∷ items) ne = refl

  arm_lem :
      (items : List TimeItem)
      → length items ≢ 0
      → (arm (among items) s).signal ≡ until (due items 0)
  arm_lem [] ne = absurd (ne refl)
  arm_lem (x ∷ items) ne = refl

-- Every other item is due no earlier than the head.
least_other :
    (items : List TimeItem)
    → IsHeap items
    → (item : TimeItem) (i : ℕ) → i < length (item ∷ items)
    → (at (item ∷ items) i).id ≢ item.id
    → due items 0 ≤ due (item ∷ items) i
least_other items heap item zero h ne = absurd (ne refl)
least_other items heap item (suc i) h ne =
    head_least items heap (at items i) (at-Mem items i (omega (arith, h)))

-- What is pushed and is not the head now is not due before the old head.
module _ (tm : Timer) (item : TimeItem) (a : IsArmed tm) (tm' : Timers)
    (p : Pushed tm.timers item tm') where
  old_head_least :
      (i : ℕ)
      → i < length tm'.items
      → (at tm'.items i).id ≢ item.id
      → due tm.timers.items 0 ≤ due tm'.items i
  old_head_least =
      all-Perm (λ x. x.id ≢ item.id → due tm.timers.items 0 ≤ x.expire) (λ x. Π_prop λ ne. le_prop)
        p.same (least_other tm.timers.items a.valid.heap item)

  head_kept :
      length tm'.items ≢ 0
      → length tm.timers.items ≢ 0
      → (at tm'.items 0).id ≢ item.id
      → due tm'.items 0 ≡ due tm.timers.items 0
  head_kept ne some_before other =
      let among_all : Mem (at tm.timers.items 0) tm'.items =
        (Perm.mem_iff p.same).1
          (mem-cons_of_mem item (at-Mem tm.timers.items 0 (omega (arith, some_before)))) in
      omega (
        arith,
        head_least tm'.items p.valid.heap (at tm.timers.items 0) among_all,
        old_head_least 0 (omega (arith, ne)) other,
      )

  only_item :
      length tm.timers.items ≡ 0
      → (i : ℕ) → i < length (item ∷ tm.timers.items)
      → (at (item ∷ tm.timers.items) i).id ≡ item.id
  only_item none_before zero h = refl
  only_item none_before (suc i) h = absurd (omega (arith, h, none_before))

  -- With one item, the item is the head.
  alone : length tm'.items ≢ 0 → (at tm'.items 0).id ≢ item.id → length tm.timers.items ≢ 0
  alone ne other none_before = other (
      all-Perm (λ x. x.id ≡ item.id) (λ x. ℕ_set _ _) p.same (only_item none_before) 0
        (omega (arith, ne)))

  pub arm_if_first-IsArmed : IsArmed (arm_if_first item.id tm' tm.signal)
  arm_if_first-IsArmed = record {
    valid = p.valid;
    armed = λ ne. elim (Bool-cases ((at tm'.items 0).id == item.id)) [
      | inl itself ↦ rw (arm_if_first_lem tm'.index item.id tm.signal tm'.items ne, itself) refl
      | inr other ↦
          let ne_id : (at tm'.items 0).id ≢ item.id = ground (arith, other) in
          let some_before = alone ne ne_id in
          rw
            (
              arm_if_first_lem tm'.index item.id tm.signal tm'.items ne,
              other,
              head_kept ne some_before ne_id,
            )
            (a.armed some_before)
    ];
  }

-- The item of the number `id` is not the head any more.
module _ (tm : Timer) (i n : ℕ) (a : IsArmed tm) (size : length tm.timers.items ≡ suc n)
    (hi : i < suc n) (tm' : Timers) (t : Taken tm.timers i tm') where
  smaller : suc (length tm'.items) ≡ length tm.timers.items
  smaller = Perm-length t.same

  -- Behind the head, an item that is taken leaves the head's time.
  behind_kept : 0 < i → length tm'.items ≢ 0 → due tm'.items 0 ≡ due tm.timers.items 0
  behind_kept pos ne =
      let other : (at tm.timers.items 0).id ≢ (at tm.timers.items i).id =
        ground (arith, a.valid.indexed 0, a.valid.indexed i) in
      let inside : Mem (at tm'.items 0) tm.timers.items =
        (Perm.mem_iff t.same).0
          (mem-cons_of_mem (at tm.timers.items i) (at-Mem tm'.items 0 (omega (arith, ne)))) in
      let least =
        all-Perm (λ x. x.id ≢ (at tm.timers.items i).id → due tm'.items 0 ≤ x.expire)
          (λ x. Π_prop λ ne. le_prop) (Perm.symm t.same)
          (least_other tm'.items t.valid.heap (at tm.timers.items i)) 0 (omega (arith, size))
          other in
      omega (arith, least, head_least tm.timers.items a.valid.heap (at tm'.items 0) inside)

  pub behind-IsArmed : 0 < i → IsArmed (record tm { timers = tm' })
  behind-IsArmed pos = record {
    valid = t.valid;
    armed = λ ne. rw (behind_kept pos ne) (a.armed (omega (arith, size)));
  }

pub arm-IsArmed : (tm : Timers) (s : Signal) → IsValid tm → IsArmed (arm tm s)
arm-IsArmed tm s v = record { valid = v; armed = λ ne. arm_lem tm.index 0 s tm.items ne }

pub arm_for_other-IsArmed :
    (tm : Timers) (s : Signal) (id : ℕ)
    → IsValid tm
    → IsAbsent id tm.items
    → IsArmed (arm_for_other id tm s)
arm_for_other-IsArmed tm s id v gone = record {
  valid = v;
  armed = λ ne.
      let other : ((at tm.items 0).id == id) ≡ false = ground (arith, gone 0, ne) in
      rw (arm_for_other_lem tm.index id s tm.items ne, other) refl;
}
