-- ===== src/Timer/Armed.antt =====
-- The signal is set for the timer that is due first.
pub mod Kept
pub mod Operations
pub mod Drained
pub mod Moved
use mathlib.Core.List.{Perm}
use cc_be_chat_test.Common.{ℕ, ◌<◌, ◌≡◌, ◌≢◌, ◌⊎◌, List, ◌∷◌, length}
use cc_be_chat_test.Timer.Heap.{TimeItem, due}
use cc_be_chat_test.Timer.Heap.Order.{IsAbsent}
use cc_be_chat_test.Timer.{Timer, Signal, until}
use cc_be_chat_test.Timer.Changes.{IsValid}

-- The heap is in order, and the signal comes when its head is due.
pub record IsArmed (tm : Timer) : Type 0 where
  pub valid : IsValid tm.timers
  pub armed : length tm.timers.items ≢ 0 → tm.signal ≡ until (due tm.timers.items 0)

-- What Delete makes of the timers: the one of the number `id` is gone, and no other.
pub record Deleted (tm : Timer) (id : ℕ) (tm' : Timer) : Type 0 where
  pub armed : IsArmed tm'
  pub gone : IsAbsent id tm'.timers.items
  pub others :
      (IsAbsent id tm.timers.items × (tm' ≡ tm))
      ⊎ ((item : TimeItem) × (item.id ≡ id) × Perm (item ∷ tm'.timers.items) tm.timers.items)
