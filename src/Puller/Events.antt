-- ===== src/Puller/Events.antt =====
-- The events of the Puller: packages/syntrix/internal/puller/events/types.go.
use syntrix.Common.{
  ℕ, zero, suc, ◌+◌, ◌-◌, ◌/◌, ◌%◌, Bool, true, false, Option, [], ◌∷◌, ◌++◌, Bytes, codes, ◌==◌,
  ltb, if◌then◌else◌, length, drop, Ordering, ℤ,
}

-- StoreOperationType; `other` is any string that is no operation.
pub data Operation : Type 0 where
  insert update replace delete other : Operation

-- StoreOperationType.IsValid
abbrev pub is_valid_operation : Operation → Bool
is_valid_operation other = false
is_valid_operation _ = true

-- Two uint32.
pub record ClusterTime : Type 0 where
  pub t : ℕ
  pub i : ℕ

-- ClusterTime.Compare; its -1, 0 and 1 are `lt`, `eq` and `gt`.
unfoldable pub compare_time : ClusterTime → ClusterTime → Ordering
compare_time c d =
    if ltb c.t d.t
    then Ordering.lt
    else if ltb d.t c.t
    then Ordering.gt
    else if ltb c.i d.i
    then Ordering.lt
    else if ltb d.i c.i
    then Ordering.gt
    else Ordering.eq

-- ClusterTime.IsZero
abbrev pub is_zero_time : ClusterTime → Bool
is_zero_time c = if c.t == 0 then c.i == 0 else false

-- StoreChangeEvent, over the types of the documents and of the update descriptions.
pub record StoreChangeEvent (Doc Desc : Type 0) : Type 0 where
  pub event_id : Bytes
  pub database : Bytes
  pub mgo_coll : Bytes
  pub mgo_doc_id : Bytes
  pub op_type : Operation
  pub full_document : Option Doc
  pub update_desc : Option Desc
  pub cluster_time : ClusterTime
  pub txn_number : Option ℤ
  pub timestamp : ℤ
  pub backend : Bytes

-- The loop of uintToString, which writes the digits from the last one back; ten rounds are enough for
-- a uint32.
unfoldable pub write_digits : ℕ → ℕ → Bytes → Bytes
write_digits zero v buf = buf
write_digits (suc fuel) v buf =
    let next = write_digits fuel (v / 10) ((b'0' + v % 10) ∷ buf) in if v == 0 then buf else next

-- uintToString
unfoldable pub uint_to_string : ℕ → Bytes
unfolding write_digits
uint_to_string v = if v == 0 then codes "0" else write_digits 10 v []

-- formatUint32: the last ten bytes behind ten zeros.
unfoldable pub format_uint32 : ℕ → Bytes
unfolding uint_to_string
format_uint32 v = let n : Bytes = codes "0000000000" ++ uint_to_string v in drop (length n - 10) n

-- FormatBufferKey
unfoldable pub format_buffer_key : ClusterTime → Bytes → Bytes
format_buffer_key ct event_id =
    format_uint32 ct.t ++ (codes "-" ++ (format_uint32 ct.i ++ (codes "-" ++ event_id)))

-- StoreChangeEvent.BufferKey
unfoldable pub buffer_key : {Doc Desc : Type 0} → StoreChangeEvent Doc Desc → Bytes
unfolding format_buffer_key
buffer_key e = format_buffer_key e.cluster_time e.event_id
