-- ===== src/Indexer/MemStore/Index/Coherence.antt =====
-- The tree and the map of an index hold the same entries, whatever was written:
-- packages/syntrix/internal/indexer/mem_store/index.go.
use syntrix.Common.{
  ◌≡◌, refl, ◌∙◌, ◌↔◌, inl, inr, false, Option, none, some, List, [], ◌∷◌, Bytes, bytes_eq,
  bytes_eq_iff, if◌then◌else◌, lookup, lookup-put, lookup-remove, IsIn, arith, Option-cases,
}
use syntrix.Indexer.MemStore.Tree.{BtreeItem, BTree}
use syntrix.Indexer.MemStore.Index.{Index, new_index, without, upsert, delete, clear}

-- The writes of an index.
pub data Write : Type 0 where
  upserts : Bytes → Bytes → Write
  deletes : Bytes → Write
  clears : Write

-- The key of each document, as a function, behind one more write.
abbrev pub noted : (Bytes → Option Bytes) → Write → Bytes → Option Bytes
noted keys (upserts id key) j = if bytes_eq id j then some key else keys j
noted keys (deletes id) j = if bytes_eq id j then none else keys j
noted keys clears j = none

unfoldable pub replay : List Write → (Bytes → Option Bytes) → Bytes → Option Bytes
replay [] keys = keys
replay (w ∷ ws) keys = replay ws (noted keys w)

module _ {Tree : Type 0} (btree : BTree Tree) where
  abbrev pub write : Write → Index Tree → Index Tree
  write (upserts id key) idx = upsert btree id key idx
  write (deletes id) idx = delete btree id idx
  write clears idx = clear btree idx

  unfoldable pub run : List Write → Index Tree → Index Tree
  run [] idx = idx
  run (w ∷ ws) idx = run ws (write w idx)

  -- The tree has one entry for each document that has a key, under that key.
  abbrev pub Holds : Index Tree → (Bytes → Option Bytes) → Type 0
  Holds idx keys =
      ((j : Bytes) → lookup j idx.by_id ≡ keys j)
      × ((x : BtreeItem) → IsIn x (btree.items idx.tree) ↔ (keys x.id ≡ some x.order_key))

  new-Holds :
      ((j : Bytes) → lookup {V = Bytes} j [] ≡ none)
      × ((x : BtreeItem)
          → IsIn x (btree.items btree.new) ↔ (◌≡◌ {A = Option Bytes} none (some x.order_key)))
  unfolding lookup
  new-Holds = (λ j. refl, λ x. rw btree.items-new (ground arith))

  IsIn-without :
      (id : Bytes) (idx : Index Tree) (keys : Bytes → Option Bytes) (x : BtreeItem)
      → Holds idx keys
      → IsIn x (btree.items (without btree id (lookup id idx.by_id) idx.tree))
        ↔ ((keys x.id ≡ some x.order_key) × (bytes_eq id x.id ≡ false))
  IsIn-without id idx keys x h = elim (Option-cases (lookup id idx.by_id)) [
    | inl n ↦ rw n (ground (arith, n, h.0 id, h.1 x, bytes_eq_iff id x.id))
    | inr (old, e) ↦ rw e (
        ground (
          arith,
          e,
          h.0 id,
          h.1 x,
          bytes_eq_iff id x.id,
          btree.items-delete x (record { order_key = old; id = id }) idx.tree,
        ))
  ]

  write-Holds :
      (w : Write) (idx : Index Tree) (keys : Bytes → Option Bytes)
      → Holds idx keys
      → Holds (write w idx) (noted keys w)
  unfolding upsert delete clear
  write-Holds (upserts id key) idx keys h = (
    λ j. lookup-put id j key idx.by_id ∙ ground (arith, h.0 j),
    λ x. ground (
      arith,
      bytes_eq_iff id x.id,
      IsIn-without id idx keys x h,
      btree.items-insert x (record { order_key = key; id = id })
          (without btree id (lookup id idx.by_id) idx.tree),
    ),
  )
  write-Holds (deletes id) idx keys h = (
    λ j. lookup-remove id j idx.by_id ∙ ground (arith, h.0 j),
    λ x. ground (arith, IsIn-without id idx keys x h),
  )
  write-Holds clears idx keys h = new-Holds

  run-Holds :
      (ws : List Write) (idx : Index Tree) (keys : Bytes → Option Bytes)
      → Holds idx keys
      → Holds (run ws idx) (replay ws keys)
  unfolding run replay
  run-Holds [] idx keys h = h
  run-Holds (w ∷ ws) idx keys h =
      run-Holds ws (write w idx) (noted keys w) (write-Holds w idx keys h)

  -- Behind any run of Upsert, Delete and Clear on a new index, the map gives each document the key that
  -- the run's last write about it left, or none, and the tree has exactly one entry for each document
  -- that has a key, under that key.
  pub run-Holds_new :
      (ws : List Write) (pattern template_id raw_pattern : Bytes)
      → Holds (run ws (new_index btree pattern template_id raw_pattern)) (replay ws (λ j. none))
  unfolding new_index
  run-Holds_new ws pattern template_id raw_pattern =
      run-Holds ws (new_index btree pattern template_id raw_pattern) (λ j. none) new-Holds
