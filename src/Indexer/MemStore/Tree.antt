-- ===== src/Indexer/MemStore/Tree.antt =====
-- The ordered tree of github.com/google/btree as packages/syntrix/internal/indexer/mem_store uses it: an
-- interface, with what its documentation promises for the order of `lessFunc`.
pub mod Order
use syntrix.Common.{
  ◌≡◌, ◌≢◌, ◌↔◌, ◌⊎◌, Bool, true, false, List, [], ◌∷◌, Bytes, Ordering, bytes_compare,
  then_compare, IsIn, All, if◌then◌else◌,
}

-- btreeItem
pub record BtreeItem : Type 0 where
  pub order_key : Bytes
  pub id : Bytes

-- The two comparisons of `lessFunc`.
abbrev pub compare_items : BtreeItem → BtreeItem → Ordering
compare_items a b = then_compare (bytes_compare a.order_key b.order_key) (bytes_compare a.id b.id)

abbrev pub is_lt : Ordering → Bool
is_lt Ordering.lt = true
is_lt _ = false

-- lessFunc
unfoldable pub less_func : BtreeItem → BtreeItem → Bool
less_func a b = is_lt (compare_items a b)

-- Each item is less than those behind it.
abbrev pub IsAscending : List BtreeItem → Type 0
IsAscending [] = Unit
IsAscending (x ∷ xs) = All (λ y. less_func x y ≡ true) xs × IsAscending xs

-- The items that are not less than `start`.
unfoldable pub from : BtreeItem → List BtreeItem → List BtreeItem
unfolding less_func
from start [] = []
from start (x ∷ xs) = let rest = from start xs in if less_func x start then rest else x ∷ rest

pub record BTree (Tree : Type 0) : Type 0 where
  pub new : Tree
  pub replace_or_insert : BtreeItem → Tree → Tree
  pub delete : BtreeItem → Tree → Tree
  -- What AscendGreaterOrEqual offers to its callback, in order, until that answers false.
  pub ascend : BtreeItem → Tree → List BtreeItem
  pub items : Tree → List BtreeItem
  pub items-new : items new ≡ []
  pub items-IsAscending : (t : Tree) → IsAscending (items t)
  pub items-insert :
      (x y : BtreeItem) (t : Tree)
      → IsIn x (items (replace_or_insert y t)) ↔ ((y ≡ x) ⊎ IsIn x (items t))
  pub items-delete :
      (x y : BtreeItem) (t : Tree) → IsIn x (items (delete y t)) ↔ (IsIn x (items t) × (y ≢ x))
  pub ascend_lem : (start : BtreeItem) (t : Tree) → ascend start t ≡ from start (items t)
