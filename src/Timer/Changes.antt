-- ===== src/Timer/Changes.antt =====
-- What a push, a removal and a pop make of the heap.
use mathlib.Core.List.{Perm}
use mathlib.Core.List.Perm
use native.Mathlib.Decide.{ℕ_discrete}
use cc_be_chat_test.Common.{
  ℕ, suc, ◌+◌, ◌<◌, ◌≡◌, refl, sym, ap, ◌∙◌, true, Option, some, List, [], ◌∷◌, ◌++◌, length, take,
  arith, ◌==◌, if◌then◌else◌, Returns, Returns-map, length-append, length-take,
}
use cc_be_chat_test.Common.Arrays.{
  exchange, length-exchange, get_or-exchange, Perm-exchange, get_or-append_left, get_or-append_last,
  get_or-take, take-get_or_last, Perm-snoc,
}
use cc_be_chat_test.Timer.Heap.{TimeItem, Timers, no_item, at, parent, assign}
use cc_be_chat_test.Timer.Heap.Order.{IsHeap, IsIndexed, IsAbsent}
use cc_be_chat_test.Timer.Heap.Fixed.{FixInv, fix_restores}
use cc_be_chat_test.Timer.{push}

pub record IsValid (tm : Timers) : Type 0 where
  pub heap : IsHeap tm.items
  pub indexed : IsIndexed tm

-- `tm'` holds the items of `tm` and `item`.
pub record Pushed (tm : Timers) (item : TimeItem) (tm' : Timers) : Type 0 where
  pub valid : IsValid tm'
  pub same : Perm tm'.items (item ∷ tm.items)

module _ (tm : Timers) (item : TimeItem) (v : IsValid tm) (new : IsAbsent item.id tm.items) where
  abbrev appended : Timers
  appended = record {
    items = tm.items ++ (item ∷ []);
    index = assign tm.index item.id (some (length tm.items));
  }

  appended-old : (c : ℕ) → c < length tm.items → at appended.items c ≡ at tm.items c
  appended-old c p = get_or-append_left tm.items (item ∷ []) c no_item p

  appended-FixInv : FixInv appended (length tm.items)
  appended-FixInv =
      let n = length tm.items in
      let size : length appended.items ≡ n + 1 = length-append tm.items (item ∷ []) in
      let last = get_or-append_last tm.items item no_item in
      record {
        inside = omega (arith, size);
        edges = λ c p q ne up.
            let inner : c < n = omega (arith, q, size, ne) in
            let above : parent c < n = omega (arith, inner) in
            ground (arith, appended-old c inner, appended-old (parent c) above, v.heap c);
        bridged = λ c p q e pos. omega (arith, q, size, e, p);
        indexed = λ c q. elim (ℕ_discrete c n) [
          | yes e ↦
              let item_there : at appended.items c ≡ item = rw (e) last in
              let itself : (item.id == item.id) ≡ true = ground arith in
              rw (item_there, itself, e) refl
          | no ne ↦
              let inner : c < n = omega (arith, q, size, ne) in
              ground (arith, appended-old c inner, v.indexed c, new c)
        ];
      }

  -- A push of an item that the heap does not have adds it.
  pub push-Pushed : Returns (Pushed tm item) (push tm item)
  unfolding push
  push-Pushed = Returns-map (fix_restores appended (length tm.items) appended-FixInv) λ tm' s.
      record {
        valid = record { heap = s.heap; indexed = s.indexed };
        same = Perm.trans s.same (Perm-snoc tm.items item);
      }

-- Taking the item at `i` out: `tm'` has the others, and none of its number.
pub record Taken (tm : Timers) (i : ℕ) (tm' : Timers) : Type 0 where
  pub valid : IsValid tm'
  pub same : Perm (at tm.items i ∷ tm'.items) tm.items
  pub gone : IsAbsent (at tm.items i).id tm'.items

module _ (tm : Timers) (i n : ℕ) (v : IsValid tm) (size : length tm.items ≡ suc n)
    (hi : i < suc n) where
  -- The last item is in the place `i`, and the entry behind is cut off.
  abbrev pub shortened : List TimeItem
  shortened = take n (exchange tm.items i n no_item)

  pub shortened-same : Perm (at tm.items i ∷ shortened) tm.items
  shortened-same =
      let inside : i < length tm.items = omega (arith, hi, size) in
      let last : n < length tm.items = omega (arith, size) in
      let whole : length (exchange tm.items i n no_item) ≡ suc n =
        length-exchange tm.items i n no_item ∙ size in
      let ex = get_or-exchange tm.items i n no_item inside last n in
      let at_end : at (exchange tm.items i n no_item) n ≡ at tm.items i = ground (arith, ex) in
      let parts = take-get_or_last n (exchange tm.items i n no_item) no_item whole in
      let split : shortened ++ (at tm.items i ∷ []) ≡ exchange tm.items i n no_item =
        ap (λ x. shortened ++ (x ∷ [])) (sym at_end) ∙ parts in
      Perm.trans (Perm.symm (Perm-snoc shortened (at tm.items i)))
        (rw (split) (Perm-exchange tm.items i n no_item inside last))

  pub shortened-at :
      (c : ℕ) → c < n → at shortened c ≡ (if i == c then at tm.items n else at tm.items c)
  shortened-at c p =
      let inside : i < length tm.items = omega (arith, hi, size) in
      let last : n < length tm.items = omega (arith, size) in
      ground (
        arith,
        get_or-take n (exchange tm.items i n no_item) c no_item p,
        get_or-exchange tm.items i n no_item inside last c,
      )

  pub length-shortened : length shortened ≡ n
  length-shortened = omega (
    arith,
    length-take n (exchange tm.items i n no_item),
    length-exchange tm.items i n no_item,
    size,
  )

  -- With indices that fit the entries that are left, only the entry at `i` may be out of order.
  pub shortened-FixInv :
      (index : ℕ → Option ℕ)
      → i < n
      → ((c : ℕ) → c < n → index (at shortened c).id ≡ some c)
      → FixInv (record { items = shortened; index = index }) i
  shortened-FixInv index p indexed = record {
    inside = omega (arith, length-shortened, p);
    edges = λ c q r ne up.
        let inner : c < n = omega (arith, length-shortened, r) in
        let above : parent c < n = omega (arith, inner) in
        ground (arith, shortened-at c inner, shortened-at (parent c) above, v.heap c, size);
    bridged = λ c q r e pos.
        let inner : c < n = omega (arith, length-shortened, r) in
        let above : parent i < n = omega (arith, p) in
        ground
          (arith, shortened-at c inner, shortened-at (parent i) above, v.heap c, v.heap i, size);
    indexed = λ c r. indexed c (omega (arith, length-shortened, r));
  }
