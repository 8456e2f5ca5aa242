-- ===== src/Timer/Heap.antt =====
-- The heap of timer/timer.go: Less and Swap of Timers, and Fix of Go's container/heap with its two
-- loops, whose rounds are counted down by fuel.
pub mod Order
pub mod Members
pub mod Up
pub mod Down
pub mod Fixed
use cc_be_chat_test.Common.{
  ℕ, zero, suc, ◌+◌, ◌-◌, ◌*◌, ◌/◌, ◌<◌, ◌≡◌, Bool, true, false, Option, none, some, List, [], ◌∷◌,
  length, set, get_elem?, get_or, arith, ltb, ◌==◌, if◌then◌else◌, Outcome, ok, err, panic,
  or_panic, ◌>>=◌,
}
use cc_be_chat_test.Common.Arrays.{exchange, get_elem?-get_or, length-exchange}

-- `internal` is the pause between two calls of a timer that repeats.
pub record TimeItem : Type 0 where
  pub id : ℕ
  pub expire : ℕ
  pub internal : Option ℕ

pub record Timers : Type 0 where
  pub items : List TimeItem
  pub index : ℕ → Option ℕ

pub data Fault : Type 0 where
  out_of_fuel : Fault

abbrev pub no_item : TimeItem
no_item = record { id = 0; expire = 0; internal = none }

-- The entry at an index, and when it expires.
abbrev pub at : List TimeItem → ℕ → TimeItem
at items i = get_or items i no_item

abbrev pub due : List TimeItem → ℕ → ℕ
due items i = (at items i).expire

-- `item.Index = i`
abbrev pub assign : (ℕ → Option ℕ) → ℕ → Option ℕ → ℕ → Option ℕ
assign index id i k = if id == k then i else index k

-- `tm[i]`
unfoldable pub load : Timers → ℕ → Outcome Fault TimeItem
load tm i = or_panic (get_elem? tm.items i)

unfoldable pub less : Timers → ℕ → ℕ → Outcome Fault Bool
less tm i j = do x ← load tm i; y ← load tm j; ok (ltb x.expire y.expire)

unfoldable pub swap : Timers → ℕ → ℕ → Outcome Fault Timers
swap tm i j = do
  x ← load tm i
  y ← load tm j
  let items = set (set tm.items i y) j x
  a ← or_panic (get_elem? items i)
  b ← or_panic (get_elem? items j)
  ok (record { items = items; index = assign (assign tm.index a.id (some i)) b.id (some j) })

-- `(j - 1) / 2`, which is 0 at 0 in Go too.
abbrev pub parent : ℕ → ℕ
parent j = (j - 1) / 2

unfoldable pub up_loop : ℕ → Timers → ℕ → Outcome Fault Timers
up_loop zero tm j = err out_of_fuel
up_loop (suc fuel) tm j =
    let rise = swap tm (parent j) j >>= λ tm'. up_loop fuel tm' (parent j) in
    let step = less tm j (parent j) >>= λ below. if below then rise else ok tm in
    if parent j == j then ok tm else step

unfoldable pub up : Timers → ℕ → Outcome Fault Timers
up tm j = up_loop (suc j) tm j

-- The child of `i` to compare with.
unfoldable pub smaller_child : Timers → ℕ → Outcome Fault ℕ
smaller_child tm i =
    let j1 = 2 * i + 1 in
    let j2 = j1 + 1 in
    if ltb j2 (length tm.items)
    then (less tm j2 j1 >>= λ right. ok (if right then j2 else j1))
    else ok j1

-- The loop of down, with the index that it ends at.
unfoldable pub down_loop : ℕ → Timers → ℕ → Outcome Fault (Timers × ℕ)
down_loop zero tm i = err out_of_fuel
down_loop (suc fuel) tm i =
    let sink = λ (j : ℕ). swap tm i j >>= λ tm'. down_loop fuel tm' j in
    let step =
      smaller_child tm i >>= λ j. less tm j i >>= λ below. if below then sink j else ok (tm, i) in
    if ltb (2 * i + 1) (length tm.items) then step else ok (tm, i)

-- down also answers whether it has moved the entry.
unfoldable pub down : Timers → ℕ → Outcome Fault (Timers × Bool)
down tm i = do moved ← down_loop (suc (length tm.items)) tm i; ok (moved.0, ltb i moved.1)

unfoldable pub fix : Timers → ℕ → Outcome Fault Timers
fix tm i = do done ← down tm i; if done.1 then ok done.0 else up done.0 i

-- What the calls come to at indices that are there.
abbrev pub exchanged : Timers → ℕ → ℕ → Timers
exchanged tm i j =
    let items = exchange tm.items i j no_item in
    record {
      items = items;
      index = assign (assign tm.index (at items i).id (some i)) (at items j).id (some j);
    }

module _ (tm : Timers) (i j : ℕ) (hi : i < length tm.items) (hj : j < length tm.items) where
  pub less-ok : less tm i j ≡ ok (ltb (due tm.items i) (due tm.items j))
  unfolding less load
  less-ok = rw (get_elem?-get_or tm.items i no_item hi, get_elem?-get_or tm.items j no_item hj)

  pub swap-ok : swap tm i j ≡ ok (exchanged tm i j)
  unfolding swap load
  swap-ok =
      let items = exchange tm.items i j no_item in
      let size : length items ≡ length tm.items = length-exchange tm.items i j no_item in
      rw (
        get_elem?-get_or tm.items i no_item hi,
        get_elem?-get_or tm.items j no_item hj,
        get_elem?-get_or items i no_item (omega (arith, size)),
        get_elem?-get_or items j no_item (omega (arith, size)),
      )
