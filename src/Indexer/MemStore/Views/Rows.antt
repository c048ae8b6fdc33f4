-- ===== src/Indexer/MemStore/Views/Rows.antt =====
-- The row that Next answers with: packages/syntrix/internal/indexer/mem_store/projection.go.
use syntrix.Common.{
  subst, sym, ◌+◌, Bool, not, ◌≡◌, refl, ap, ◌∙◌, ℕ, zero, suc, ◌-◌, ◌≤◌, true, false, ◌&&◌, Option,
  none, some, List, [], ◌∷◌, Bytes, bytes_compare, bytes_compare-flip, bytes_compare_trans,
  bytes_compare_refl, at_most, All, length, if◌then◌else◌, ok, arith, Bool-cases, inl, inr,
}
use syntrix.Indexer.MemStore.Tree.{BTree, BtreeItem, less_func, IsAscending, from}
use syntrix.Indexer.MemStore.Tree.Order.{less_func_trans, less_func_irrefl}
use syntrix.Indexer.MemStore.Index.{DocRef, SearchOptions, is_past}
use syntrix.Indexer.MemStore.Index.Search.{
  is_after, in_range, is_before_upper_lem, ref_of, less_func-start_of, from-IsAscending,
}
use syntrix.Indexer.MemStore.Views.{
  answered, ProjectionView, ProjectionIterator, is_new, is_before_cursor, seek, first_key,
  start_item, is_done, next,
}

-- The item is behind the last one, where there is one.
abbrev pub is_behind : Option BtreeItem → BtreeItem → Bool
is_behind none x = true
is_behind (some l) x = less_func l x

is_new-eq-is_behind : (last : Option BtreeItem) (x : BtreeItem) → is_new last x ≡ is_behind last x
is_new-eq-is_behind none x = refl
is_new-eq-is_behind (some l) x = refl

is_after-cursor :
    (after : Option Bytes) (key : Bytes) → is_after after key ≡ not (is_before_cursor after key)
is_after-cursor none key = refl
is_after-cursor (some a) key = ground (arith, bytes_compare-flip a key)

-- The first item in the range and behind the last one.
unfoldable pub first_row : SearchOptions → Option BtreeItem → List BtreeItem → Option BtreeItem
first_row opts last [] = none
first_row opts last (x ∷ xs) =
    let rest = first_row opts last xs in
    if is_behind last x && in_range opts x.order_key then some x else rest

-- An item behind one that is past the upper bound is past it.
is_past-less :
    (upper : Option Bytes) (x y : BtreeItem)
    → less_func x y ≡ true
    → is_past upper x.order_key ≡ true
    → is_past upper y.order_key ≡ true
unfolding less_func
is_past-less none x y l p = p
is_past-less (some u) x y l p = ground (arith, l, p, bytes_compare_trans u x.order_key y.order_key)

first_row-past :
    (opts : SearchOptions) (last : Option BtreeItem) (x : BtreeItem) (xs : List BtreeItem)
    → All (λ y. less_func x y ≡ true) xs
    → is_past opts.upper x.order_key ≡ true
    → first_row opts last xs ≡ none
unfolding first_row
first_row-past opts last x [] a p = refl
first_row-past opts last x (y ∷ ys) a p = ground (
  arith,
  is_past-less opts.upper x y (a.0) p,
  is_before_upper_lem opts.upper y.order_key,
  first_row-past opts last x ys (a.1) p,
)

-- From the lower bound on and within the work limit the callback finds the first row.
seek-first_row :
    (opts : SearchOptions) (last : Option BtreeItem) (room : ℕ) (xs : List BtreeItem)
    → IsAscending xs
    → All (λ x. at_most (bytes_compare opts.lower x.order_key) ≡ true) xs
    → length xs ≤ room
    → (seek opts last room xs).result ≡ ok (first_row opts last xs)
unfolding seek first_row
seek-first_row opts last room [] a b r = refl
seek-first_row opts last zero (x ∷ xs) a b r = absurd (ground (arith, r))
seek-first_row opts last (suc n) (x ∷ xs) a b r = ground (
  arith,
  b.0,
  first_row-past opts last x xs (a.0),
  is_new-eq-is_behind last x,
  is_before_upper_lem opts.upper x.order_key,
  is_after-cursor opts.start_after x.order_key,
  seek-first_row opts last (suc n) xs (a.1) (b.1) (omega (arith, r)),
  seek-first_row opts last n xs (a.1) (b.1) (omega (arith, r)),
)

first_key-in_range :
    (opts : SearchOptions) (after : Option Bytes) (key : Bytes)
    → at_most (bytes_compare (first_key opts after) key) ≡ false
    → (at_most (bytes_compare opts.lower key) && is_after after key) ≡ false
first_key-in_range opts none key h = ground (arith, h)
first_key-in_range opts (some a) key h =
    ground (arith, h, bytes_compare-flip a key, bytes_compare-flip opts.lower key)

-- An item before the start is no row.
before-start :
    (opts : SearchOptions) (last : Option BtreeItem) (x : BtreeItem)
    → less_func x (start_item opts last) ≡ true
    → (is_behind last x && in_range opts x.order_key) ≡ false
before-start opts none x l =
    let key = first_key opts opts.start_after in
    ground
      (arith, l, less_func-start_of x key, first_key-in_range opts opts.start_after x.order_key)
before-start opts (some y) x l = ground (arith, l, less_func_trans x y x, less_func_irrefl x)

from-first_row :
    (opts : SearchOptions) (last : Option BtreeItem) (xs : List BtreeItem)
    → first_row opts last (from (start_item opts last) xs) ≡ first_row opts last xs
unfolding first_row from
from-first_row opts last [] = refl
from-first_row opts last (x ∷ xs) =
    ground (arith, before-start opts last x, from-first_row opts last xs)

-- The last row, if there is one, is from the lower bound on.
abbrev pub IsWithin : SearchOptions → Option BtreeItem → Type 0
IsWithin opts none = Unit
IsWithin opts (some l) = at_most (bytes_compare opts.lower l.order_key) ≡ true

lower-first_key :
    (opts : SearchOptions) (after : Option Bytes)
    → at_most (bytes_compare opts.lower (first_key opts after)) ≡ true
lower-first_key opts none = ground (arith, bytes_compare_refl opts.lower)
lower-first_key opts (some a) = ground (arith, bytes_compare_refl opts.lower)

lower-start :
    (opts : SearchOptions) (last : Option BtreeItem) (x : BtreeItem)
    → IsWithin opts last
    → less_func x (start_item opts last) ≡ false
    → at_most (bytes_compare opts.lower x.order_key) ≡ true
unfolding less_func
lower-start opts none x w l =
    let key = first_key opts opts.start_after in
    ground (
      arith,
      l,
      less_func-start_of x key,
      lower-first_key opts opts.start_after,
      bytes_compare_trans opts.lower key x.order_key,
    )
lower-start opts (some y) x w l = ground (
  arith,
  l,
  w,
  bytes_compare-flip x.order_key y.order_key,
  bytes_compare_trans opts.lower y.order_key x.order_key,
)

from-lower :
    (opts : SearchOptions) (last : Option BtreeItem) (xs : List BtreeItem)
    → IsWithin opts last
    → All
        (λ x. at_most (bytes_compare opts.lower x.order_key) ≡ true)
        (from (start_item opts last) xs)
unfolding from
from-lower opts last [] w = tt
from-lower opts last (x ∷ xs) w = elim (Bool-cases (less_func x (start_item opts last))) [
  | inl b ↦ rw b (from-lower opts last xs w)
  | inr b ↦ rw b (lower-start opts last x w b, from-lower opts last xs w)
]

length-from : (start : BtreeItem) (xs : List BtreeItem) → length (from start xs) ≤ length xs
unfolding from
length-from start [] = ground arith
length-from start (x ∷ xs) = ground (arith, length-from start xs)

abbrev pub ref_of_row : Option BtreeItem → Option DocRef
ref_of_row none = none
ref_of_row (some x) = some (ref_of x)

of_view-seek :
    (opts : SearchOptions) (last : Option BtreeItem) (room : ℕ) (xs : List BtreeItem)
    → (seek opts last room xs).of_view ≤ length xs
unfolding seek
of_view-seek opts last room [] = ground arith
of_view-seek opts last zero (x ∷ xs) = ground (arith, of_view-seek opts last zero xs)
of_view-seek opts last (suc n) (x ∷ xs) =
    ground (arith, of_view-seek opts last (suc n) xs, of_view-seek opts last n xs)

-- The iterator behind a call that has come to the row, or to the end.
abbrev pub IsAdvanced : ProjectionIterator → Option BtreeItem → ProjectionIterator → Type 0
IsAdvanced it none after =
    (after.last ≡ it.last) × ((after.count ≡ it.count) × (after.closed ≡ true))
IsAdvanced it (some x) after =
    (after.last ≡ some x) × ((after.count ≡ it.count + 1) × (after.closed ≡ it.closed))

answered-IsAdvanced :
    (row : Option BtreeItem) (it before : ProjectionIterator)
    → (before.last ≡ it.last)
    → (before.count ≡ it.count)
    → (before.closed ≡ it.closed)
    → ((answered (ok row) before).0 ≡ ok (ref_of_row row))
      × (((answered (ok row) before).1.opts ≡ before.opts)
          × IsAdvanced it row (answered (ok row) before).1)
answered-IsAdvanced none it before l c d = (refl, (refl, (l, (c, refl))))
answered-IsAdvanced (some x) it before l c d = (refl, (refl, (refl, (ground (arith, c), d))))

-- Within the work limit Next answers with the first row of the tree, in its order, that is within the
-- bounds, behind the cursor and behind the row before, or with the end if there is none, and its
-- iterator keeps its options and has that row as its last and counts it, or is closed; the view keeps
-- its tree, stays open, and has counted no more items than the tree has. This holds wherever the iterator and its view are open, the
-- limit is not reached, the context has not ended, and the row before, if there is one, is from the
-- lower bound on.
pub next_lem :
    {Tree : Type 0} (btree : BTree Tree) (it : ProjectionIterator) (v : ProjectionView Tree)
    → is_done it ≡ false
    → v.closed ≡ false
    → IsWithin it.opts it.last
    → length (btree.items v.tree) ≤ v.max_examined - v.examined
    → ((next btree false it v).0 ≡ ok (ref_of_row (first_row it.opts it.last (btree.items v.tree))))
      × (((next btree false it v).1.0.opts ≡ it.opts)
          × (IsAdvanced it
                (first_row it.opts it.last (btree.items v.tree))
                (next btree false it v).1.0
              × (((next btree false it v).1.1.tree ≡ v.tree)
                  × (((next btree false it v).1.1.closed ≡ false)
                      × ((next btree false it v).1.1.examined
                          ≤ v.examined + length (btree.items v.tree))))))
unfolding next
next_lem btree it v d c w r =
    let items = btree.items v.tree in
    let start = start_item it.opts it.last in
    let offered = from start items in
    let room = v.max_examined - v.examined in
    let sought = seek it.opts it.last room (btree.ascend start v.tree) in
    let row = first_row it.opts it.last items in
    let before : ProjectionIterator = record it { examined = it.examined + sought.of_iterator } in
    let found : sought.result ≡ ok row =
      ap (λ xs. (seek it.opts it.last room xs).result) (btree.ascend_lem start v.tree)
      ∙ seek-first_row it.opts it.last room offered
          (from-IsAscending start items (btree.items-IsAscending v.tree))
          (from-lower it.opts it.last items w) (omega (arith, length-from start items, r))
      ∙ ap ok (from-first_row it.opts it.last items) in
    let counted : sought.of_view ≤ length offered =
      subst (λ xs. (seek it.opts it.last room xs).of_view ≤ length offered)
        (sym (btree.ascend_lem start v.tree)) (of_view-seek it.opts it.last room offered) in
    let made : next btree false it v ≡ (
      (answered (ok row) before).0,
      ((answered (ok row) before).1, record v { examined = v.examined + sought.of_view }),
    ) =
      ground (arith, d, c, found) in
    let a = answered-IsAdvanced row it before refl refl refl in
    (
      ap (λ t. t.0) made ∙ a.0,
      (
        ap (λ t. t.1.0.opts) made ∙ (a.1).0,
        (
          subst (IsAdvanced it row) (sym (ap (λ t. t.1.0) made)) ((a.1).1),
          (
            ap (λ t. t.1.1.tree) made,
            (
              ap (λ t. t.1.1.closed) made ∙ c,
              subst (λ t. t ≤ v.examined + length items) (sym (ap (λ t. t.1.1.examined) made))
                  (omega (arith, counted, length-from start items)),
            ),
          ),
        ),
      ),
    )
