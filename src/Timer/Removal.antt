-- ===== src/Timer/Removal.antt =====
-- What Remove and Pop of Timers make of the heap.
use mathlib.Core.List.Perm
use native.Mathlib.Decide.{ℕ_discrete}
use cc_be_chat_test.Common.{
  ℕ, suc, ◌-◌, ◌<◌, ◌≡◌, refl, ap, ◌∙◌, inl, inr, Bool-cases, true, false, Option, none, some, List,
  [], ◌∷◌, length, take, arith, ◌==◌, ok, Returns, returns, Returns-map, Returns-bind, length-take,
}
use cc_be_chat_test.Common.Arrays.{
  length-exchange, get_or-exchange, get_or-take, take-get_or_last, Perm-snoc, get_elem?-get_or,
}
use cc_be_chat_test.Timer.Heap.{
  TimeItem, Timers, no_item, at, parent, assign, exchanged, swap, swap-ok, load, fix, down,
  down_loop, up, up_loop,
}
use cc_be_chat_test.Timer.Heap.Order.{IsAbsent, Sifted, IsHeap-Sifted, exchanged-IsIndexed}
use cc_be_chat_test.Timer.Heap.Members.{IsAbsent-Perm}
use cc_be_chat_test.Timer.Heap.Fixed.{fix_restores}
use cc_be_chat_test.Timer.{remove, pop}
use cc_be_chat_test.Timer.Changes.{
  IsValid, Taken, shortened, shortened-same, length-shortened, shortened-FixInv,
}

empty_of : (items : List TimeItem) → length items ≡ 0 → items ≡ []
empty_of [] h = refl
empty_of (x ∷ items) h = absurd (omega (arith, h))

fix_empty :
    (index : ℕ → Option ℕ)
    → fix (record { items = []; index = index }) 0 ≡ ok (record { items = []; index = index })
unfolding fix down down_loop up up_loop
fix_empty index = refl

module _ (tm : Timers) (n : ℕ) (v : IsValid tm) (size : length tm.items ≡ suc n) where
  short : length tm.items - 1 ≡ n
  short = omega (arith, size)

  -- The last item itself is cut off.
  cut-Taken : Taken tm n (record tm { items = take n tm.items })
  cut-Taken =
      let left : length (take n tm.items) ≡ n = omega (arith, length-take n tm.items, size) in
      let kept = λ (c : ℕ) (p : c < n). get_or-take n tm.items c no_item p in
      record {
        valid = record {
          heap = λ c p q.
              let inner : c < n = omega (arith, q, left) in
              let above : parent c < n = omega (arith, inner) in
              ground (arith, kept c inner, kept (parent c) above, v.heap c, size);
          indexed = λ c q.
              let inner : c < n = omega (arith, q, left) in
              ground (arith, kept c inner, v.indexed c, size);
        };
        same =
            rw (take-get_or_last n tm.items no_item size) at
              (Perm.symm (Perm-snoc (take n tm.items) (at tm.items n)));
        gone = λ c q.
            let inner : c < n = omega (arith, q, left) in
            ground (arith, kept c inner, v.indexed c, v.indexed n, size);
      }

  module _ (i : ℕ) (hi : i < suc n) where
    abbrev swapped : Timers
    swapped = exchanged tm i n

    swapped-ok : swap tm i n ≡ ok swapped
    swapped-ok = swap-ok tm i n (omega (arith, hi, size)) (omega (arith, size))

    short_swapped : length swapped.items - 1 ≡ n
    short_swapped = omega (arith, length-exchange tm.items i n no_item, size)

    -- The entries that are left know their places, and the one that was taken had the last.
    swapped-indexed : (c : ℕ) → c < suc n → swapped.index (at swapped.items c).id ≡ some c
    swapped-indexed c p =
        exchanged-IsIndexed tm i n (omega (arith, hi, size)) (omega (arith, size)) v.indexed c
          (omega (arith, length-exchange tm.items i n no_item, size, p))

    left_at : (c : ℕ) → c < n → at (shortened tm i n v size hi) c ≡ at swapped.items c
    left_at c p = get_or-take n swapped.items c no_item p

    taken_at : at swapped.items n ≡ at tm.items i
    taken_at = ground (
      arith,
      get_or-exchange tm.items i n no_item (omega (arith, hi, size)) (omega (arith, size)) n,
    )

    shortened-IsAbsent : i < n → IsAbsent (at tm.items i).id (shortened tm i n v size hi)
    shortened-IsAbsent p c q =
        let inner : c < n = omega (arith, q, length-shortened tm i n v size hi) in
        ground (
          arith,
          left_at c inner,
          swapped-indexed c (omega (arith, inner)),
          swapped-indexed n (omega arith),
          taken_at,
        )

    -- Remove takes out the item at `i`, and leaves a heap of the others.
    pub remove-Taken : Returns (Taken tm i) (remove tm i)
    unfolding remove
    remove-Taken = elim (Bool-cases (n == i)) [
      | inl last ↦ let e : n ≡ i = ground arith in rw (short, last) (returns (rw (← e) cut-Taken))
      | inr inner ↦
          let p : i < n = ground arith in
          let indexed : (c : ℕ)
              → c < n
              → swapped.index (at (shortened tm i n v size hi) c).id ≡ some c =
            λ c q.
              ap (λ x. swapped.index x.id) (left_at c q) ∙ swapped-indexed c (omega (arith, q)) in
          rw (short, inner, swapped-ok, short_swapped)
            (Returns-map
              (fix_restores _ i (shortened-FixInv tm i n v size hi swapped.index p indexed))
              λ tm' s. record {
                valid = record { heap = s.heap; indexed = s.indexed };
                same = Perm.trans (Perm.cons _ s.same) (shortened-same tm i n v size hi);
                gone = IsAbsent-Perm (at tm.items i).id s.same (shortened-IsAbsent p);
              })
    ]

-- What Pop makes of a heap with items: the first is taken out, and loses its index.
pub record Popped (tm tm' : Timers) : Type 0 where
  pub taken : Taken tm 0 tm'
  pub unplaced : tm'.index (at tm.items 0).id ≡ none

module _ (tm : Timers) (n : ℕ) (v : IsValid tm) (size : length tm.items ≡ suc n) where
  first : 0 < suc n
  first = omega arith

  abbrev released : ℕ → Option ℕ
  released = assign (swapped tm n v size 0 first).index (at tm.items 0).id none

  -- The entries behind the first are other items.
  released-other : (c : ℕ) → c < n → released (at (shortened tm 0 n v size first) c).id ≡ some c
  released-other c p = ground (
    arith,
    left_at tm n v size 0 first c p,
    swapped-indexed tm n v size 0 first c (omega (arith, p)),
    swapped-indexed tm n v size 0 first n (omega arith),
    taken_at tm n v size 0 first,
  )

  released-IsAbsent : IsAbsent (at tm.items 0).id (shortened tm 0 n v size first)
  released-IsAbsent c q =
      let p : c < n = omega (arith, q, length-shortened tm 0 n v size first) in
      ground (
        arith,
        left_at tm n v size 0 first c p,
        swapped-indexed tm n v size 0 first c (omega (arith, p)),
        swapped-indexed tm n v size 0 first n (omega arith),
        taken_at tm n v size 0 first,
      )

  released_first : released (at tm.items 0).id ≡ none
  released_first =
      let itself : ((at tm.items 0).id == (at tm.items 0).id) ≡ true = ground arith in
      rw (itself) refl

  -- Fix of what is left, whether or not anything is.
  refixed :
      Returns
        (Sifted (record { items = shortened tm 0 n v size first; index = released }))
        (fix (record { items = shortened tm 0 n v size first; index = released }) 0)
  refixed = elim (ℕ_discrete n 0) [
    | yes none_left ↦
        let empty : shortened tm 0 n v size first ≡ [] =
          empty_of (shortened tm 0 n v size first)
            (omega (arith, length-shortened tm 0 n v size first, none_left)) in
        rw (empty, fix_empty released)
          (returns (
            IsHeap-Sifted _ (λ c p q. absurd (omega (arith, q)))
              (λ c q. absurd (omega (arith, q)))))
    | no some_left ↦
        fix_restores _ 0
          (shortened-FixInv tm 0 n v size first released (omega (arith, some_left)) released-other)
  ]

  loaded : load (swapped tm n v size 0 first) n ≡ ok (at tm.items 0)
  unfolding load
  loaded =
      let inside : n < length (swapped tm n v size 0 first).items =
        omega (arith, length-exchange tm.items 0 n no_item, size) in
      rw (
        get_elem?-get_or (swapped tm n v size 0 first).items n no_item inside,
        taken_at tm n v size 0 first,
      )

  -- Pop of a heap with items gives the first of them, and leaves a heap of the others.
  pub pop-Popped :
      Returns
        (λ (r : Timers × Option TimeItem). Popped tm r.0 × (r.1 ≡ some (at tm.items 0)))
        (pop tm)
  unfolding pop
  pop-Popped =
      let nonempty : (length tm.items == 0) ≡ false = ground (arith, size) in
      rw
        (
          nonempty,
          short tm n v size,
          swapped-ok tm n v size 0 first,
          loaded,
          short_swapped tm n v size 0 first,
        )
        (Returns-bind refixed λ tm' s. returns (
          record {
            taken = record {
              valid = record { heap = s.heap; indexed = s.indexed };
              same = Perm.trans (Perm.cons _ s.same) (shortened-same tm 0 n v size first);
              gone = IsAbsent-Perm (at tm.items 0).id s.same released-IsAbsent;
            };
            unplaced = s.others (at tm.items 0).id released-IsAbsent ∙ released_first;
          },
          refl,
        ))
