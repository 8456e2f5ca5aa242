-- ===== src/Timer.antt =====
-- timer/timer.go: timers in a binary heap, and the one signal that is set for the first of them. A
-- time and a duration are numbers. An item is known by its number `id`, as the source knows it by its
-- address; its `Index`, which its owner reads too, is in a map from the numbers, `none` for -1. What
-- the source uses of container/heap, Fix with its two loops, is written out in Heap. The mutex makes
-- each call one step.
pub mod Heap
pub mod Changes
pub mod Removal
pub mod Armed
use cc_be_chat_test.Common.{
  ℕ, zero, suc, ◌+◌, ◌-◌, Bool, true, false, not, Option, none, some, List, [], ◌∷◌, ◌++◌, length,
  take, set, get_or, ltb, ◌==◌, if◌then◌else◌, Outcome, ok, err, panic, ◌>>=◌,
}
use cc_be_chat_test.Timer.Heap.{TimeItem, Timers, Fault, load, assign, swap, fix}

-- When the signal is to come: TIME_FOREVER, or a time.
pub data Signal : Type 0 where
  forever : Signal
  until : ℕ → Signal

pub record Timer : Type 0 where
  pub timers : Timers
  pub signal : Signal

unfoldable pub new_timer : Timer
new_timer = record { timers = record { items = []; index = λ k. none }; signal = forever }

abbrev pub head : Timers → Option TimeItem
head tm = elim tm.items [ [] ↦ none | item ∷ rest ↦ some item ]

-- `heap.Fix` behind an append, the way Once and Schedule push an item.
unfoldable pub push : Timers → TimeItem → Outcome Fault Timers
push tm item =
    let n = length tm.items in
    fix (record { items = tm.items ++ (item ∷ []); index = assign tm.index item.id (some n) }) n

-- The last entry is cut off.
abbrev pub cut : Timers → Timers
cut tm = record tm { items = take (length tm.items - 1) tm.items }

unfoldable pub remove : Timers → ℕ → Outcome Fault Timers
remove tm i =
    let n = length tm.items - 1 in
    if n == i then ok (cut tm) else do swapped ← swap tm i n; fix (cut swapped) i

unfoldable pub pop : Timers → Outcome Fault (Timers × Option TimeItem)
pop tm = if length tm.items == 0 then ok (tm, none) else do
  let last = length tm.items - 1
  swapped ← swap tm 0 last
  item ← load swapped last
  left ← fix (record (cut swapped) { index = assign swapped.index item.id none }) 0
  ok (left, some item)

-- `if head := tm.timers.Head(); head == item { tm.signal.Reset(...) }`
abbrev pub arm_if_first : ℕ → Timers → Signal → Timer
arm_if_first id timers signal = record {
  timers = timers;
  signal = elim (head timers) [
    | none ↦ signal
    | some first ↦ if first.id == id then until first.expire else signal
  ];
}

-- The same with a time that was read `spent` before: the signal comes so much later.
abbrev pub arm_late : ℕ → ℕ → Timers → Signal → Timer
arm_late spent id timers signal = record {
  timers = timers;
  signal = elim (head timers) [
    | none ↦ signal
    | some first ↦ if first.id == id then until (first.expire + spent) else signal
  ];
}

-- The signal for the head, if there is one.
abbrev pub arm : Timers → Signal → Timer
arm timers signal = record {
  timers = timers;
  signal = elim (head timers) [ none ↦ signal | some first ↦ until first.expire ];
}

unfoldable pub once : Timer → ℕ → ℕ → ℕ → Outcome Fault Timer
once tm now timeout id = do
  timers ← push tm.timers (record { id = id; expire = now + timeout; internal = none })
  ok (arm_if_first id timers tm.signal)

unfoldable pub schedule : Timer → ℕ → ℕ → ℕ → ℕ → Outcome Fault Timer
schedule tm now delay internal id = do
  timers ← push tm.timers (record { id = id; expire = now + delay; internal = some internal })
  ok (arm_if_first id timers tm.signal)

-- `if head := tm.timers.Head(); head != nil && head != item { tm.signal.Reset(...) }`
abbrev pub arm_for_other : ℕ → Timers → Signal → Timer
arm_for_other id timers signal = record {
  timers = timers;
  signal = elim (head timers) [
    | none ↦ signal
    | some first ↦ if first.id == id then signal else until first.expire
  ];
}

-- Delete; what it only logs changes nothing.
unfoldable pub delete : Timer → ℕ → Outcome Fault Timer
delete tm id =
    let n = length tm.timers.items in
    if n == 0 then ok tm else elim (tm.timers.index id) [
      | none ↦ ok tm
      | some i ↦ if not (ltb i n) then ok tm else do
        item ← load tm.timers i
        let removed : Outcome Fault Timer = do
          timers ← remove tm.timers i
          ok (if i == 0 then arm_for_other id timers tm.signal else record tm { timers = timers })
        if item.id == id then removed else ok tm
    ]

-- DeleteItemInCall, which has the statements of Delete but for the lock.
abbrev delete_item_in_call : Timer → ℕ → Outcome Fault Timer
delete_item_in_call = delete

abbrev size : Timer → ℕ
size tm = length tm.timers.items

-- Stop: the signal does not come any more until it is set again.
abbrev stop : Timer → Timer
stop tm = record tm { signal = forever }

-- Reset; an item that is in no heap any more has the index -1 or a stale one.
unfoldable pub reset : Timer → ℕ → ℕ → ℕ → Outcome Fault Timer
reset tm id now delay =
    let n = length tm.timers.items in
    if n == 0 then ok tm else elim (tm.timers.index id) [
      | none ↦ panic
      | some i ↦ if not (ltb i n) then ok tm else do
        item ← load tm.timers i
        let changed : Outcome Fault Timer = do
          timers ←
              fix
                (record tm.timers {
                  items = set tm.timers.items i (record item { expire = now + delay });
                })
                i
          ok (record tm { timers = timers })
        if item.id == id then changed else ok tm
    ]

-- The method `once`, which runs when the signal comes: the item whose callback is to be called.
unfoldable pub fire : Timer → Outcome Fault (Timer × Option TimeItem)
fire tm = do
  popped ← pop tm.timers
  ok (elim popped.1 [
    | none ↦ (record { timers = popped.0; signal = forever }, none)
    | some item ↦ (arm popped.0 tm.signal, some item)
  ])

-- At most `n` rounds of the loop of NewTimer, with the items whose callbacks are called, when these
-- leave the timers alone. A round waits for the signal, which is spent when it comes; without one the
-- loop waits for ever.
unfoldable pub run_signals : ℕ → Timer → Outcome Fault (Timer × List TimeItem)
run_signals zero tm = ok (tm, [])
run_signals (suc n) tm = elim tm.signal [
  | forever ↦ ok (tm, [])
  | until time ↦ do
    fired ← fire (record tm { signal = forever })
    rest ← run_signals n fired.0
    ok (rest.0, elim fired.1 [ none ↦ rest.1 | some item ↦ item ∷ rest.1 ])
]

-- What the callback of a timer does: one that repeats is pushed again; then the given callback `cb`
-- runs, which may use the timers and takes the time `spent`; then the signal is set for the item if it
-- is the head now, by the time that was read before `cb` ran.
unfoldable pub call_back :
    Timer → ℕ → ℕ → TimeItem → (Timer → Outcome Fault Timer) → Outcome Fault Timer
call_back tm now spent item cb = elim item.internal [
  | none ↦ cb tm
  | some internal ↦ do
    timers ← push tm.timers (record item { expire = now + internal })
    after ← cb (record tm { timers = timers })
    ok (arm_late spent item.id after.timers after.signal)
]
