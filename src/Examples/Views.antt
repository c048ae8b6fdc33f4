-- ===== src/Examples/Views.antt =====
-- A read view of a query index with two rows, over the ascending list.
use syntrix.Common.{
  ◌≡◌, refl, ℕ, ◌+◌, ◌≤◌, false, Option, none, some, [], ◌∷◌, codes, Result, ok, bytes_compare,
  length, arith,
}
use syntrix.Indexer.MemStore.Index.{DocRef}
use syntrix.Indexer.MemStore.Tree.{BtreeItem, less_func}
use syntrix.Indexer.MemStore.Views.{ViewError, ProjectionView, ProjectionIterator, next}
use syntrix.Indexer.MemStore.Views.Rows.{IsAdvanced, first_row, ref_of_row, next_lem}
use syntrix.Examples.Trees.{SortedItems, sorted_items, insert}

abbrev item : ℕ → BtreeItem
item n = record { order_key = n ∷ []; id = codes "a" }

abbrev view : ProjectionView SortedItems
view = record {
  tree =
      sorted_items.replace_or_insert (item 7)
        (sorted_items.replace_or_insert (item 3) sorted_items.new);
  closed = false;
  max_examined = 10;
  examined = 1;
}

abbrev behind_three : ProjectionIterator
behind_three = record {
  opts = record { lower = 1 ∷ []; upper = some (9 ∷ []); start_after = none; limit = 2 };
  last = some (item 3);
  closed = false;
  count = 1;
  examined = 1;
}

abbrev call : Result ViewError (Option DocRef) × (ProjectionIterator × ProjectionView SortedItems)
call = next sorted_items false behind_three view

abbrev row : Option BtreeItem
row = first_row behind_three.opts behind_three.last (sorted_items.items view.tree)

next_lem_example :
    (call.0 ≡ ok (ref_of_row row))
    × ((call.1.0.opts ≡ behind_three.opts)
        × (IsAdvanced behind_three row call.1.0
            × ((call.1.1.tree ≡ view.tree)
                × ((call.1.1.closed ≡ false)
                    × (call.1.1.examined ≤ 1 + length (sorted_items.items view.tree))))))
unfolding sorted_items insert less_func bytes_compare
next_lem_example = next_lem sorted_items behind_three view refl refl refl (ground arith)
