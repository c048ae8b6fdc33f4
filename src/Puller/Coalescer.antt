-- ===== src/Puller/Coalescer.antt =====
-- Merging the events of one document: packages/syntrix/internal/puller/buffer/coalescer.go.
pub mod Effect
pub mod Documents
pub mod Lost
use syntrix.Common.{
  ℕ, Bool, true, false, not, Option, none, some, List, [], ◌∷◌, ◌++◌, Bytes, codes, ◌&&◌, ◌||◌,
  if◌then◌else◌, Ordering, bytes_compare, Assoc, lookup, put, remove, length,
}
use syntrix.Puller.Events.{
  Operation, insert, update, replace, delete, other, StoreChangeEvent, buffer_key,
}

-- docKey
unfoldable pub doc_key : Bytes → Bytes → Bytes
doc_key collection document_id = collection ++ (codes "/" ++ document_id)

abbrev pub is_delete : Operation → Bool
is_delete delete = true
is_delete _ = false

abbrev pub is_insert : Operation → Bool
is_insert insert = true
is_insert _ = false

-- `OpType == Update || OpType == Replace`
abbrev pub is_update : Operation → Bool
is_update update = true
is_update replace = true
is_update _ = false

-- `a < b` of two strings.
abbrev pub is_before : Ordering → Bool
is_before Ordering.lt = true
is_before _ = false

-- Coalescer: the map `pending`.
abbrev pub Pending : Type 0 → Type 0 → Type 0
Pending Doc Desc = Assoc (StoreChangeEvent Doc Desc)

module _ {Doc Desc : Type 0} where
  -- The insert with the data of an update; the literal of the source names neither UpdateDesc nor
  -- Backend, which stay empty.
  abbrev pub updated_insert : StoreChangeEvent Doc Desc → StoreChangeEvent Doc Desc
  updated_insert incoming = record {
    event_id = incoming.event_id;
    database = incoming.database;
    mgo_coll = incoming.mgo_coll;
    mgo_doc_id = incoming.mgo_doc_id;
    op_type = insert;
    full_document = incoming.full_document;
    update_desc = none;
    cluster_time = incoming.cluster_time;
    txn_number = incoming.txn_number;
    timestamp = incoming.timestamp;
    backend = [];
  }

  -- merge
  unfoldable pub merge :
      StoreChangeEvent Doc Desc → StoreChangeEvent Doc Desc → Option (StoreChangeEvent Doc Desc)
  merge existing incoming =
      if is_delete incoming.op_type
      then (if is_insert existing.op_type then none else some incoming)
      else if is_delete existing.op_type
      then some incoming
      else if is_insert existing.op_type
      then (if is_update incoming.op_type then some (updated_insert incoming) else some incoming)
      else if is_update existing.op_type && is_update incoming.op_type
      then some incoming
      else some incoming

  abbrev pub key_of : StoreChangeEvent Doc Desc → Bytes
  key_of evt = doc_key evt.mgo_coll evt.mgo_doc_id

  -- What Add does once the map was read.
  abbrev pub store_merged :
      Bytes → Option (StoreChangeEvent Doc Desc) → Pending Doc Desc → Pending Doc Desc
  store_merged key none c = remove key c
  store_merged key (some merged) c = put key merged c

  abbrev pub add_found :
      Bytes
      → StoreChangeEvent Doc Desc
      → Option (StoreChangeEvent Doc Desc)
      → Pending Doc Desc
      → Pending Doc Desc
  add_found key evt none c = put key evt c
  add_found key evt (some existing) c = store_merged key (merge existing evt) c

  -- Coalescer.Add, which returns nil on every path.
  unfoldable pub add : StoreChangeEvent Doc Desc → Pending Doc Desc → Pending Doc Desc
  add evt c = add_found (key_of evt) evt (lookup (key_of evt) c) c

  -- `sort.Slice` by BufferKey, as insertion into a sorted list.
  unfoldable pub insert_sorted :
      StoreChangeEvent Doc Desc
      → List (StoreChangeEvent Doc Desc)
      → List (StoreChangeEvent Doc Desc)
  insert_sorted e [] = e ∷ []
  insert_sorted e (x ∷ xs) =
      let later = insert_sorted e xs in
      if is_before (bytes_compare (buffer_key x) (buffer_key e)) then x ∷ later else e ∷ x ∷ xs

  unfoldable pub sort_events : List (StoreChangeEvent Doc Desc) → List (StoreChangeEvent Doc Desc)
  unfolding insert_sorted
  sort_events [] = []
  sort_events (e ∷ es) = insert_sorted e (sort_events es)

  abbrev pub values : Pending Doc Desc → List (StoreChangeEvent Doc Desc)
  values [] = []
  values ((k, e) ∷ c) = e ∷ values c

  -- Coalescer.Flush; a nil result is the empty list.
  unfoldable pub flush : Pending Doc Desc → List (StoreChangeEvent Doc Desc) × Pending Doc Desc
  unfolding sort_events
  flush c = (sort_events (values c), [])

  -- Coalescer.FlushOne
  unfoldable pub flush_one :
      Bytes → Bytes → Pending Doc Desc → Option (StoreChangeEvent Doc Desc) × Pending Doc Desc
  flush_one collection document_id c =
      let key = doc_key collection document_id in
      elim (lookup key c) [ none ↦ (none, c) | some evt ↦ (some evt, remove key c) ]

  -- Coalescer.Count, Coalescer.Clear
  abbrev pub count : Pending Doc Desc → ℕ
  count c = length c

  abbrev pub clear : Pending Doc Desc → Pending Doc Desc
  clear c = []

  -- The loop of CoalesceEvents.
  unfoldable pub add_all : List (StoreChangeEvent Doc Desc) → Pending Doc Desc → Pending Doc Desc
  unfolding add
  add_all [] c = c
  add_all (evt ∷ evts) c = add_all evts (add evt c)

  -- CoalesceEvents
  unfoldable pub coalesce_events :
      List (StoreChangeEvent Doc Desc) → List (StoreChangeEvent Doc Desc)
  unfolding add_all flush
  coalesce_events evts = (flush (add_all evts [])).0
