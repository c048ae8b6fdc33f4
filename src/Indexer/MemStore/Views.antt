-- ===== src/Indexer/MemStore/Views.antt =====
-- The read views of a query index: packages/syntrix/internal/indexer/mem_store/projection.go. A context
-- ends between two calls, not within one.
pub mod Rows
use syntrix.Common.{
  at_most, ℕ, zero, suc, ◌+◌, ◌-◌, Bool, true, false, not, ◌&&◌, ◌||◌, Option, none, some, List, [],
  ◌∷◌, Bytes, bytes_compare, ltb, leb, if◌then◌else◌, Result, ok, err,
}
use syntrix.Common.{◌==◌}
use syntrix.Indexer.Store.{QueryIndexRef}
use syntrix.Indexer.MemStore.Projections.{Store, projection_index}
use syntrix.Indexer.MemStore.Tree.{BTree, BtreeItem, less_func, is_lt}
use syntrix.Indexer.MemStore.Index.{DocRef, SearchOptions, is_past}

-- projectionView; its tree is nil once it is closed, and nobody reads it then
pub record ProjectionView (Tree : Type 0) : Type 0 where
  pub tree : Tree
  pub closed : Bool
  pub max_examined : ℕ
  pub examined : ℕ

-- projectionIterator, without its view; `last` has a value once it has started
pub record ProjectionIterator : Type 0 where
  pub opts : SearchOptions
  pub last : Option BtreeItem
  pub closed : Bool
  pub count : ℕ
  pub examined : ℕ

pub data ViewError : Type 0 where
  context_ended view_closed work_limit : ViewError

-- Store.ReadView, with the limit of a budget that is not negative, and its default
abbrev pub read_view :
    {Tree : Type 0}
    → BTree Tree
    → Bool
    → QueryIndexRef
    → ℕ
    → Store Tree
    → Result ViewError (ProjectionView Tree)
read_view btree ended ref max_examined s =
    if ended
    then err context_ended
    else ok (record {
      tree = (projection_index btree ref s).tree;
      closed = false;
      max_examined = if max_examined == 0 then 100000 else max_examined;
      examined = 0;
    })

-- projectionView.Scan
abbrev pub scan :
    {Tree : Type 0}
    → Bool
    → SearchOptions
    → ProjectionView Tree
    → Result ViewError ProjectionIterator
scan ended opts v =
    if ended
    then err context_ended
    else if v.closed
    then err view_closed
    else ok (record { opts = opts; last = none; closed = false; count = 0; examined = 0 })

-- projectionView.Close
abbrev pub close_view : {Tree : Type 0} → ProjectionView Tree → ProjectionView Tree
close_view v = record v { closed = true }

-- projectionIterator.Close
abbrev pub close_iterator : ProjectionIterator → ProjectionIterator
close_iterator it = record it { closed = true }

-- `!(it.started && !lessFunc(it.last, item))`
abbrev pub is_new : Option BtreeItem → BtreeItem → Bool
is_new none x = true
is_new (some l) x = less_func l x

-- What the callback of Next has found, with the items that it has counted for the view and for itself.
pub record Sought : Type 0 where
  pub result : Result ViewError (Option BtreeItem)
  pub of_view : ℕ
  pub of_iterator : ℕ

abbrev pub counted_one : Sought → Sought
counted_one r = record r { of_view = r.of_view + 1; of_iterator = r.of_iterator + 1 }

abbrev pub stopped : Option BtreeItem → Sought
stopped found = record { result = ok found; of_view = 0; of_iterator = 0 }

-- `opts.StartAfter != nil && bytes.Compare(item.orderKey, opts.StartAfter) <= 0`
abbrev pub is_before_cursor : Option Bytes → Bytes → Bool
is_before_cursor none key = false
is_before_cursor (some after) key = at_most (bytes_compare key after)

-- The callback over the items that the tree offers, with what is left of the view's work limit.
unfoldable pub seek : SearchOptions → Option BtreeItem → ℕ → List BtreeItem → Sought
seek opts last room [] = stopped none
seek opts last zero (x ∷ xs) =
    let skipped = seek opts last zero xs in
    if not (is_new last x)
    then skipped
    else if is_past opts.upper x.order_key
    then stopped none
    else record { result = err work_limit; of_view = 1; of_iterator = 0 }
seek opts last (suc n) (x ∷ xs) =
    let skipped = seek opts last (suc n) xs in
    let next = seek opts last n xs in
    if not (is_new last x)
    then skipped
    else if is_past opts.upper x.order_key
    then stopped none
    else if is_before_cursor opts.start_after x.order_key
    then counted_one next
    else counted_one (stopped (some x))

-- The key at which Next starts before its first row.
abbrev pub first_key : SearchOptions → Option Bytes → Bytes
first_key opts none = opts.lower
first_key opts (some after) = if is_lt (bytes_compare opts.lower after) then after else opts.lower

abbrev pub start_item : SearchOptions → Option BtreeItem → BtreeItem
start_item opts none = record { order_key = first_key opts opts.start_after; id = [] }
start_item opts (some l) = l

-- The iterator and the answer behind what was found.
abbrev pub answered :
    Result ViewError (Option BtreeItem)
    → ProjectionIterator
    → Result ViewError (Option DocRef) × ProjectionIterator
answered (err e) it = (err e, it)
answered (ok none) it = (ok none, record it { closed = true })
answered (ok (some x)) it = (
  ok (some (record { id = x.id; order_key = x.order_key })),
  record it { last = some x; count = it.count + 1 },
)

abbrev pub is_done : ProjectionIterator → Bool
is_done it = it.closed || (ltb 0 it.opts.limit && leb it.opts.limit it.count)

-- projectionIterator.Next
unfoldable pub next :
    {Tree : Type 0}
    → BTree Tree
    → Bool
    → ProjectionIterator
    → ProjectionView Tree
    → Result ViewError (Option DocRef) × (ProjectionIterator × ProjectionView Tree)
unfolding seek
next btree ended it v =
    let r =
      seek it.opts it.last (v.max_examined - v.examined)
        (btree.ascend (start_item it.opts it.last) v.tree) in
    let a = answered r.result (record it { examined = it.examined + r.of_iterator }) in
    if ended
    then (err context_ended, (it, v))
    else if is_done it
    then (ok none, (it, v))
    else if v.closed
    then (err view_closed, (it, v))
    else (a.0, (a.1, record v { examined = v.examined + r.of_view }))
