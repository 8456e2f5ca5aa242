-- ===== src/Tests/Timers.antt =====
-- The timers on concrete inputs.
use cc_be_chat_test.Common.{
  ℕ, zero, suc, ◌+◌, ◌≡◌, refl, Option, none, some, List, [], ◌∷◌, arith, ◌==◌, if◌then◌else◌,
  Returns, ok, panic, ◌>>=◌,
}
use cc_be_chat_test.Timer.Heap.{
  TimeItem, fix, down, down_loop, up, up_loop, smaller_child, less, swap, load,
}
use cc_be_chat_test.Timer.Heap.Order.{IsHeap, IsIndexed, IsAbsent}
use cc_be_chat_test.Timer.{Timer, until, once, delete, reset, run_signals, fire, pop}
use cc_be_chat_test.Timer.Armed.{IsArmed, Deleted}
use cc_be_chat_test.Timer.Armed.Operations.{Added, once-Added, delete-Deleted}
use cc_be_chat_test.Timer.Armed.Drained.{Drained, run_signals-Drained}
use cc_be_chat_test.Timer.Armed.Moved.{Moved, reset-Moved, fire-reset}

abbrev item_at : ℕ → ℕ → TimeItem
item_at id expire = record { id = id; expire = expire; internal = none }

-- Timers 1, 2 and 3 are due at 10, 30 and 20.
abbrev three_items : List TimeItem
three_items = item_at 1 10 ∷ item_at 2 30 ∷ item_at 3 20 ∷ []

abbrev places : ℕ → Option ℕ
places k = if k == 1 then some 0 else if k == 2 then some 1 else if k == 3 then some 2 else none

abbrev three : Timer
three = record { timers = record { items = three_items; index = places }; signal = until 10 }

three-IsHeap : IsHeap three_items
three-IsHeap zero p q = absurd (omega (arith, p))
three-IsHeap (suc zero) p q = omega arith
three-IsHeap (suc (suc zero)) p q = omega arith
three-IsHeap (suc (suc (suc c))) p q = absurd (omega (arith, q))

three-IsIndexed : IsIndexed three.timers
three-IsIndexed zero q = refl
three-IsIndexed (suc zero) q = refl
three-IsIndexed (suc (suc zero)) q = refl
three-IsIndexed (suc (suc (suc c))) q = absurd (omega (arith, q))

three-IsArmed : IsArmed three
three-IsArmed = record {
  valid = record { heap = three-IsHeap; indexed = three-IsIndexed };
  armed = λ ne. refl;
}

four-IsAbsent : IsAbsent 4 three_items
four-IsAbsent zero q = ground arith
four-IsAbsent (suc zero) q = ground arith
four-IsAbsent (suc (suc zero)) q = ground arith
four-IsAbsent (suc (suc (suc c))) q = absurd (omega (arith, q))

once-Added_example : Returns (Added three (item_at 4 15)) (once three 8 7 4)
once-Added_example = once-Added three three-IsArmed 8 7 4 four-IsAbsent

delete-Deleted_example : Returns (Deleted three 1) (delete three 1)
delete-Deleted_example = delete-Deleted three three-IsArmed 1

run_signals-Drained_example : Returns (Drained three_items) (run_signals 3 three)
run_signals-Drained_example = run_signals-Drained 3 three three-IsArmed refl

reset-Moved_example : Returns (Moved three 2 (8 + 1)) (reset three 3 8 1)
reset-Moved_example = reset-Moved three 2 8 1 three-IsArmed.valid (omega arith)

fire-reset_example :
    Returns (λ (r : Timer × Option TimeItem). reset r.0 1 10 5 ≡ panic) (fire three)
fire-reset_example = fire-reset three 1 10 5 three-IsArmed refl

-- The run of the signals that the theorems speak of.
order : (run_signals 3 three >>= λ r. ok r.1) ≡ ok (item_at 1 10 ∷ item_at 3 20 ∷ item_at 2 30 ∷ [])
unfolding run_signals fire pop fix down down_loop up up_loop smaller_child less swap load
order = refl

-- Timer 3 is moved before the signal, which stays at 10.
kept_late : (reset three 3 5 1 >>= λ tm. ok tm.signal) ≡ ok (until 10)
unfolding reset fix down down_loop up up_loop smaller_child less swap load
kept_late = refl
