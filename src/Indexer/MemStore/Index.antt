-- ===== src/Indexer/MemStore/Index.antt =====
-- One index: packages/syntrix/internal/indexer/mem_store/index.go, without its lock. Byte strings are
-- values here, so that what `bytes.Clone` copies is the string itself.
pub mod Search
pub mod Coherence
use syntrix.Common.{
  ℕ, zero, suc, ◌+◌, Bool, true, false, not, ◌&&◌, Option, none, some, List, [], ◌∷◌, Bytes, codes,
  bytes_eq, ◌==◌, ltb, if◌then◌else◌, length, Ordering, bytes_compare, at_most, Assoc, lookup, put,
  remove,
}
use syntrix.Indexer.MemStore.Tree.{BtreeItem, BTree, less_func}

-- State; `state_other` is any int that is none of the constants.
pub data State : Type 0 where
  state_healthy state_rebuilding state_failed state_other : State

-- State.String
abbrev pub state_name : State → Bytes
state_name state_healthy = codes "healthy"
state_name state_rebuilding = codes "rebuilding"
state_name state_failed = codes "failed"
state_name state_other = codes "unknown"

-- Index
pub record Index (Tree : Type 0) : Type 0 where
  pub pattern : Bytes
  pub template_id : Bytes
  pub raw_pattern : Bytes
  pub state : State
  pub tree : Tree
  pub by_id : Assoc Bytes

-- DocRef
pub record DocRef : Type 0 where
  pub id : Bytes
  pub order_key : Bytes

-- SearchOptions; `none` is nil. Lower is the empty string where it is nil, which is the same bound.
pub record SearchOptions : Type 0 where
  pub lower : Bytes
  pub upper : Option Bytes
  pub start_after : Option Bytes
  pub limit : ℕ

-- `opts.Upper != nil && bytes.Compare(item.orderKey, opts.Upper) >= 0`
abbrev pub is_past : Option Bytes → Bytes → Bool
is_past none key = false
is_past (some upper) key = at_most (bytes_compare upper key)

-- `isStartAfter && bytes.Equal(item.orderKey, opts.StartAfter)`
abbrev pub is_cursor : SearchOptions → Option Bytes → Bytes → Bool
is_cursor opts none key = false
is_cursor opts (some after) key = at_most (bytes_compare opts.lower after) && bytes_eq key after

-- The key at which the search starts.
abbrev pub start_key : SearchOptions → Option Bytes → Bytes
start_key opts none = opts.lower
start_key opts (some after) = if at_most (bytes_compare opts.lower after) then after else opts.lower

-- A limit of 0, or below, is the default.
abbrev pub limit_of : ℕ → ℕ
limit_of limit = if limit == 0 then 1000 else limit

-- The callback of Search over the items that the tree offers, with room for `n` more results. It is
-- asked only while there is room for one.
unfoldable pub collect : SearchOptions → ℕ → List BtreeItem → List DocRef
collect opts zero xs = []
collect opts (suc n) [] = []
collect opts (suc n) (x ∷ xs) =
    let skipped = collect opts (suc n) xs in
    let taken = collect opts n xs in
    if is_cursor opts opts.start_after x.order_key
    then skipped
    else if is_past opts.upper x.order_key
    then []
    else record { id = x.id; order_key = x.order_key } ∷ taken

module _ {Tree : Type 0} where
  -- Index.Get
  abbrev pub get : Bytes → Index Tree → Option Bytes
  get id idx = lookup id idx.by_id

  -- Index.Len
  abbrev pub len : Index Tree → ℕ
  len idx = length idx.by_id

  -- Index.SetState
  abbrev pub set_state : State → Index Tree → Index Tree
  set_state state idx = record idx { state = state }

  -- Index.IsHealthy
  abbrev pub is_healthy : Index Tree → Bool
  is_healthy idx = elim idx.state [ state_healthy ↦ true | _ ↦ false ]

module _ {Tree : Type 0} (btree : BTree Tree) where
  -- NewIndex
  unfoldable pub new_index : Bytes → Bytes → Bytes → Index Tree
  new_index pattern template_id raw_pattern = record {
    pattern = pattern;
    template_id = template_id;
    raw_pattern = raw_pattern;
    state = state_healthy;
    tree = btree.new;
    by_id = [];
  }

  -- The tree without the old entry of a document, if it has one.
  abbrev pub without : Bytes → Option Bytes → Tree → Tree
  without id none tree = tree
  without id (some old) tree = btree.delete (record { order_key = old; id = id }) tree

  -- Index.Upsert
  unfoldable pub upsert : Bytes → Bytes → Index Tree → Index Tree
  upsert id order_key idx = record idx {
    tree =
        btree.replace_or_insert (record { order_key = order_key; id = id })
          (without id (lookup id idx.by_id) idx.tree);
    by_id = put id order_key idx.by_id;
  }

  -- Index.Delete; where there is no entry, `remove` changes nothing.
  unfoldable pub delete : Bytes → Index Tree → Index Tree
  delete id idx = record idx {
    tree = without id (lookup id idx.by_id) idx.tree;
    by_id = remove id idx.by_id;
  }

  -- Index.Search
  unfoldable pub search : SearchOptions → Index Tree → List DocRef
  unfolding collect
  search opts idx =
      collect opts (limit_of opts.limit)
        (btree.ascend (record { order_key = start_key opts opts.start_after; id = [] }) idx.tree)

  -- Index.Clear
  unfoldable pub clear : Index Tree → Index Tree
  clear idx = record idx { tree = btree.new; by_id = [] }
