-- ===== src/Indexer/MemStore/Database.antt =====
-- The indexes of one database: packages/syntrix/internal/indexer/mem_store/database.go, without its
-- lock. An index that is written through its pointer is stored again.
use syntrix.Common.{
  ℕ, Option, none, some, List, [], ◌∷◌, ◌++◌, Bytes, codes, Assoc, lookup, put, remove, length,
}
use syntrix.Indexer.Store.{IndexState, index_healthy, index_rebuilding, index_failed, IndexInfo}
use syntrix.Indexer.MemStore.Tree.{BTree}
use syntrix.Indexer.MemStore.Index.{State, state_rebuilding, state_failed, Index, new_index, len}

-- Database
pub record Database (Tree : Type 0) : Type 0 where
  pub name : Bytes
  pub indexes : Assoc (Index Tree)

-- NewDatabase
abbrev pub new_database : {Tree : Type 0} → Bytes → Database Tree
new_database name = record { name = name; indexes = [] }

-- IndexKey
unfoldable pub index_key : Bytes → Bytes → Bytes
index_key pattern template_id = pattern ++ (codes "|" ++ template_id)

-- The state that the stores share.
abbrev pub shared_state : State → IndexState
shared_state state_rebuilding = index_rebuilding
shared_state state_failed = index_failed
shared_state _ = index_healthy

module _ {Tree : Type 0} where
  -- Database.GetIndex
  abbrev pub get_index : Bytes → Bytes → Database Tree → Option (Index Tree)
  get_index pattern template_id d = lookup (index_key pattern template_id) d.indexes

  abbrev pub with_index : Bytes → Bytes → Index Tree → Database Tree → Database Tree
  with_index pattern template_id idx d = record d {
    indexes = put (index_key pattern template_id) idx d.indexes;
  }

  -- Database.DeleteIndex
  abbrev pub delete_index : Bytes → Bytes → Database Tree → Database Tree
  delete_index pattern template_id d = record d {
    indexes = remove (index_key pattern template_id) d.indexes;
  }

  abbrev pub index_info : Index Tree → IndexInfo
  index_info idx = record {
    pattern = idx.pattern;
    template_id = idx.template_id;
    raw_pattern = idx.raw_pattern;
    state = shared_state idx.state;
    doc_count = len idx;
  }

  unfoldable pub infos : Assoc (Index Tree) → List IndexInfo
  infos [] = []
  infos ((k, idx) ∷ m) = index_info idx ∷ infos m

  -- Database.ListIndexes
  abbrev pub list_indexes : Database Tree → List IndexInfo
  list_indexes d = infos d.indexes

  -- Database.IndexCount
  abbrev pub index_count : Database Tree → ℕ
  index_count d = length d.indexes

  -- Database.Clear
  abbrev pub clear : Database Tree → Database Tree
  clear d = record d { indexes = [] }

-- Database.GetOrCreateIndex, for what is found or made
abbrev pub get_or_create_index :
    {Tree : Type 0} → BTree Tree → Bytes → Bytes → Bytes → Database Tree → Index Tree
get_or_create_index btree pattern template_id raw_pattern d =
    elim (get_index pattern template_id d) [
      | none ↦ new_index btree pattern template_id raw_pattern
      | some idx ↦ idx
    ]
