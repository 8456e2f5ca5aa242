-- ===== src/Timer/Armed/Operations.antt =====
-- Once, Schedule, Delete, the firing of the signal and the callback of a timer that repeats, on
-- timers whose signal is set for the first.
use mathlib.Core.List.{Perm}
use cc_be_chat_test.Common.{
  ℕ, suc, ◌+◌, ◌-◌, ◌<◌, ◌>>=◌, ◌≡◌, refl, inl, inr, Bool-cases, Option-cases, true, false, Option,
  none, some, ◌∷◌, length, ltb, ltb→lt, arith, ◌==◌, if◌then◌else◌, ok, Returns, returns,
  Returns-bind,
}
use cc_be_chat_test.Common.Arrays.{get_elem?-get_or}
use cc_be_chat_test.Timer.Heap.{TimeItem, Timers, at, no_item, load}
use cc_be_chat_test.Timer.Heap.Order.{IsAbsent}
use cc_be_chat_test.Timer.{
  Timer, forever, push, pop, arm_if_first, arm_for_other, once, schedule, delete, fire,
}
use cc_be_chat_test.Timer.Changes.{IsValid, Taken, push-Pushed}
use cc_be_chat_test.Timer.Removal.{Popped, remove-Taken, pop-Popped}
use cc_be_chat_test.Timer.Armed.{IsArmed, Deleted}
use cc_be_chat_test.Timer.Armed.Kept.{
  arm_if_first-IsArmed, behind-IsArmed, arm-IsArmed, arm_for_other-IsArmed,
}

-- The timers are those of before and the item, and the signal is set for the first of them.
pub record Added (tm : Timer) (item : TimeItem) (tm' : Timer) : Type 0 where
  pub armed : IsArmed tm'
  pub same : Perm tm'.timers.items (item ∷ tm.timers.items)

module _ (tm : Timer) (a : IsArmed tm) where
  added :
      (item : TimeItem)
      → IsAbsent item.id tm.timers.items
      → Returns
          (Added tm item)
          (push tm.timers item >>= λ timers. ok (arm_if_first item.id timers tm.signal))
  added item new =
      Returns-bind (push-Pushed tm.timers item a.valid new)
        λ tm' p. returns (record { armed = arm_if_first-IsArmed tm item a tm' p; same = p.same })

  module _ (now delay id : ℕ) (new : IsAbsent id tm.timers.items) where
    -- Once of a new timer, with the timers in heap order and the signal set for the first of them, adds
    -- the timer due after the timeout and no other, and keeps the order and the signal so.
    pub once-Added :
        Returns
          (Added tm (record { id = id; expire = now + delay; internal = none }))
          (once tm now delay id)
    unfolding once
    once-Added = added (record { id = id; expire = now + delay; internal = none }) new

    -- So does Schedule, with the pause.
    pub schedule-Added :
        (internal : ℕ)
        → Returns
            (Added tm (record { id = id; expire = now + delay; internal = some internal }))
            (schedule tm now delay internal id)
    unfolding schedule
    schedule-Added internal =
        added (record { id = id; expire = now + delay; internal = some internal }) new

  load_lem : (i : ℕ) → i < length tm.timers.items → load tm.timers i ≡ ok (at tm.timers.items i)
  unfolding load
  load_lem i p = rw (get_elem?-get_or tm.timers.items i no_item p)

  unchanged : (id : ℕ) → IsAbsent id tm.timers.items → Deleted tm id tm
  unchanged id absent = record { armed = a; gone = absent; others = inl (absent, refl) }

  Taken-out :
      (i n id : ℕ)
      → length tm.timers.items ≡ suc n
      → i < suc n
      → (at tm.timers.items i).id ≡ id
      → (timers : Timers) → Taken tm.timers i timers
      → Deleted tm id
          (if i == 0 then arm_for_other id timers tm.signal else record tm { timers = timers })
  Taken-out i n id size hi same timers t =
      let gone : IsAbsent id timers.items = rw (same) at t.gone in
      elim (Bool-cases (i == 0)) [
        | inl first ↦ rw (first) record {
          armed = arm_for_other-IsArmed timers tm.signal id t.valid gone;
          gone = gone;
          others = inr (at tm.timers.items i, same, t.same);
        }
        | inr behind ↦ rw (behind) record {
          armed = behind-IsArmed tm i n a size hi timers t (ground (arith, behind));
          gone = gone;
          others = inr (at tm.timers.items i, same, t.same);
        }
      ]

  -- An item of the heap stands where the indices say.
  placed_at :
      (id i c : ℕ)
      → tm.timers.index id ≡ some i
      → c < length tm.timers.items
      → (at tm.timers.items c).id ≡ id
      → c ≡ i
  placed_at id i c placed p e =
      let there : tm.timers.index id ≡ some c = rw (e) at (a.valid.indexed c p) in
      ground (arith, there, placed)

  Deleted-at :
      (id i n : ℕ)
      → length tm.timers.items ≡ suc n
      → tm.timers.index id ≡ some i
      → i < suc n
      → Returns (Deleted tm id) (delete tm id)
  unfolding delete
  Deleted-at id i n size placed p =
      let nonempty : (length tm.timers.items == 0) ≡ false = ground (arith, size) in
      let inside : ltb i (length tm.timers.items) ≡ true = ground (arith, size, p) in
      elim (Bool-cases ((at tm.timers.items i).id == id)) [
        | inl same ↦
            rw (nonempty, placed, inside, load_lem i (omega (arith, size, p)), same)
              (Returns-bind (remove-Taken tm.timers n a.valid size i p)
                λ timers t. returns (Taken-out i n id size p (ground (arith, same)) timers t))
        | inr other ↦
            let absent : IsAbsent id tm.timers.items =
              λ c q e. ground (arith, placed_at id i c placed q e, e, other) in
            rw (nonempty, placed, inside, load_lem i (omega (arith, size, p)), other)
              (returns (unchanged id absent))
      ]

  -- With the timers in heap order and the signal set for the first of them, Delete takes out the timer
  -- of the number if it is there and no other, changes nothing if it is not, and keeps the order, the
  -- indices and the signal so.
  pub delete-Deleted : (id : ℕ) → Returns (Deleted tm id) (delete tm id)
  unfolding delete
  delete-Deleted id = elim (Bool-cases (length tm.timers.items == 0)) [
    | inl empty ↦
        let none_left : length tm.timers.items ≡ 0 = ground (arith, empty) in
        rw (empty) (returns (unchanged id (λ c p. absurd (omega (arith, p, none_left)))))
    | inr some_left ↦ elim (Option-cases (tm.timers.index id)) [
      | inl unplaced ↦
          let absent : IsAbsent id tm.timers.items = λ c p e.
            let there : tm.timers.index id ≡ some c = rw (e) at (a.valid.indexed c p) in
            ground (arith, there, unplaced) in
          rw (some_left, unplaced) (returns (unchanged id absent))
      | inr (i, placed) ↦ elim (Bool-cases (ltb i (length tm.timers.items))) [
        | inl inside ↦
            let p : i < length tm.timers.items = ltb→lt _ _ inside in
            Deleted-at id i (length tm.timers.items - 1) (omega (arith, p)) placed
              (omega (arith, p))
        | inr outside ↦
            let absent : IsAbsent id tm.timers.items =
              λ c p e. ground (arith, placed_at id i c placed p e, p, outside) in
            rw (some_left, placed, outside) (returns (unchanged id absent))
      ]
    ]
  ]

  -- A signal with no timers left sets no other.
  pub fire-idle :
      length tm.timers.items ≡ 0
      → fire tm ≡ ok (record { timers = tm.timers; signal = forever }, none)
  unfolding fire pop
  fire-idle size =
      let empty : (length tm.timers.items == 0) ≡ true = ground (arith, size) in rw (empty) refl

-- The firing with timers left, whatever the signal was: the first of them, and the signal is set for the
-- next.
pub fire-Popped :
    (tm : Timer) (n : ℕ)
    → IsValid tm.timers
    → length tm.timers.items ≡ suc n
    → Returns
        (λ (r : Timer × Option TimeItem).
          IsArmed r.0 × Popped tm.timers r.0.timers × (r.1 ≡ some (at tm.timers.items 0)))
        (fire tm)
unfolding fire
fire-Popped tm n v size =
    Returns-bind (pop-Popped tm.timers n v size)
      λ r p. rw (p.1) (returns (arm-IsArmed r.0 tm.signal p.0.taken.valid, p.0, refl))
