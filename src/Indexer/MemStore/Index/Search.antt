-- ===== src/Indexer/MemStore/Index/Search.antt =====
-- What a search answers: packages/syntrix/internal/indexer/mem_store/index.go.
use syntrix.Common.{
  ◌≡◌, refl, ap, ◌∙◌, ℕ, zero, suc, Bool, true, false, not, ◌&&◌, Option, none, some, List, [], ◌∷◌,
  Bytes, bytes_eq_iff, if◌then◌else◌, take, bytes_compare, bytes_compare-flip, bytes_compare_trans,
  bytes_compare_refl, eq_of_bytes_compare, at_most, All, arith, Bool-cases, inl, inr,
}
use syntrix.Indexer.MemStore.Tree.{BtreeItem, BTree, less_func, from, IsAscending, is_lt}
use syntrix.Indexer.MemStore.Index.{
  Index, DocRef, SearchOptions, is_past, is_cursor, start_key, limit_of, collect, search,
}

-- The cursor is before the key.
abbrev pub is_after : Option Bytes → Bytes → Bool
is_after none key = true
is_after (some after) key = is_lt (bytes_compare after key)

-- The key is before the upper bound.
abbrev pub is_before_upper : Option Bytes → Bytes → Bool
is_before_upper none key = true
is_before_upper (some upper) key = is_lt (bytes_compare key upper)

pub is_before_upper_lem :
    (upper : Option Bytes) (key : Bytes) → is_before_upper upper key ≡ not (is_past upper key)
is_before_upper_lem none key = refl
is_before_upper_lem (some u) key = ground (arith, bytes_compare-flip u key)

-- The number of answers that is asked for: 1000 where no limit is set.
abbrev pub most : ℕ → ℕ
most zero = 1000
most (suc n) = suc n

most-eq-limit_of : (n : ℕ) → limit_of n ≡ most n
most-eq-limit_of zero = refl
most-eq-limit_of (suc n) = ground arith

-- From the lower bound on, before the upper bound and behind the cursor.
abbrev pub in_range : SearchOptions → Bytes → Bool
in_range opts key =
    at_most (bytes_compare opts.lower key)
    && (is_before_upper opts.upper key && is_after opts.start_after key)

abbrev pub ref_of : BtreeItem → DocRef
ref_of x = record { id = x.id; order_key = x.order_key }

-- The references of all items in the range, in the order of the list.
unfoldable pub all_in_range : SearchOptions → List BtreeItem → List DocRef
all_in_range opts [] = []
all_in_range opts (x ∷ xs) =
    let rest = all_in_range opts xs in if in_range opts x.order_key then ref_of x ∷ rest else rest

-- From the start on, what is not the cursor is behind the lower bound and behind the cursor.
behind-start :
    (opts : SearchOptions) (after : Option Bytes) (key : Bytes)
    → at_most (bytes_compare (start_key opts after) key) ≡ true
    → is_cursor opts after key ≡ false
    → (at_most (bytes_compare opts.lower key) ≡ true) × (is_after after key ≡ true)
behind-start opts none key h c = (h, refl)
behind-start opts (some a) key h c = ground (
  arith,
  bytes_compare_trans opts.lower a key,
  bytes_compare-flip opts.lower a,
  bytes_compare-flip a key,
  eq_of_bytes_compare a key,
  bytes_compare_trans key a opts.lower,
  bytes_compare_trans a opts.lower key,
  bytes_eq_iff key a,
)

-- What is in the range is from the start on.
start-in_range :
    (opts : SearchOptions) (after : Option Bytes) (key : Bytes)
    → at_most (bytes_compare opts.lower key) ≡ true
    → is_after after key ≡ true
    → (at_most (bytes_compare (start_key opts after) key) ≡ true)
      × (is_cursor opts after key ≡ false)
start-in_range opts none key h a = (h, refl)
start-in_range opts (some b) key h a =
    ground (arith, bytes_compare_refl b, bytes_compare-flip b key, bytes_eq_iff key b)

abbrev pub start_of : Bytes → BtreeItem
start_of key = record { order_key = key; id = [] }

nothing-lt-nil : (id : Bytes) → is_lt (bytes_compare id []) ≡ false
unfolding bytes_compare
nothing-lt-nil [] = refl
nothing-lt-nil (x ∷ xs) = refl

pub less_func-start_of :
    (x : BtreeItem) (key : Bytes)
    → less_func x (start_of key) ≡ not (at_most (bytes_compare key x.order_key))
unfolding less_func
less_func-start_of x key = ground (arith, bytes_compare-flip x.order_key key, nothing-lt-nil x.id)

from-all_in_range :
    (opts : SearchOptions) (xs : List BtreeItem)
    → all_in_range opts (from (start_of (start_key opts opts.start_after)) xs)
      ≡ all_in_range opts xs
unfolding from all_in_range
from-all_in_range opts [] = refl
from-all_in_range opts (x ∷ xs) =
    let key = start_key opts opts.start_after in
    elim (Bool-cases (at_most (bytes_compare key x.order_key))) [
      | inl b ↦
          rw (less_func-start_of x key, b, all_in_range)
            (ap (λ r. if in_range opts x.order_key then ref_of x ∷ r else r)
              (from-all_in_range opts xs))
      | inr b ↦
          rw (less_func-start_of x key, b)
            (from-all_in_range opts xs
              ∙ ground (arith, b, start-in_range opts opts.start_after x.order_key))
    ]

-- Every item is from the start on.
from-All :
    (opts : SearchOptions) (xs : List BtreeItem)
    → All
        (λ x. at_most (bytes_compare (start_key opts opts.start_after) x.order_key) ≡ true)
        (from (start_of (start_key opts opts.start_after)) xs)
unfolding from
from-All opts [] = tt
from-All opts (x ∷ xs) =
    let key = start_key opts opts.start_after in
    elim (Bool-cases (at_most (bytes_compare key x.order_key))) [
      | inl b ↦ rw (less_func-start_of x key, b) (b, from-All opts xs)
      | inr b ↦ rw (less_func-start_of x key, b) (from-All opts xs)
    ]

All-from :
    (P : BtreeItem → Type 0) (start : BtreeItem) (xs : List BtreeItem)
    → All P xs
    → All P (from start xs)
unfolding from
All-from P start [] h = tt
All-from P start (x ∷ xs) h = elim (Bool-cases (less_func x start)) [
  | inl b ↦ rw b (All-from P start xs (h.1))
  | inr b ↦ rw b (h.0, All-from P start xs (h.1))
]

pub from-IsAscending :
    (start : BtreeItem) (xs : List BtreeItem) → IsAscending xs → IsAscending (from start xs)
unfolding from
from-IsAscending start [] h = tt
from-IsAscending start (x ∷ xs) h = elim (Bool-cases (less_func x start)) [
  | inl b ↦ rw b (from-IsAscending start xs (h.1))
  | inr b ↦
      rw b (All-from (λ y. less_func x y ≡ true) start xs (h.0), from-IsAscending start xs (h.1))
]

-- What is less has no greater key, and behind a key that is past the upper bound each key is.
less_func-at_most :
    (x y : BtreeItem)
    → less_func x y ≡ true
    → at_most (bytes_compare x.order_key y.order_key) ≡ true
unfolding less_func
less_func-at_most x y h = ground (arith, h)

is_past-at_most :
    (upper : Option Bytes) (j k : Bytes)
    → is_past upper j ≡ true
    → at_most (bytes_compare j k) ≡ true
    → is_past upper k ≡ true
is_past-at_most none j k h a = cc
is_past-at_most (some u) j k h a = bytes_compare_trans u j k h a

-- Behind an item that is past the upper bound nothing is in the range.
all_in_range-past :
    (opts : SearchOptions) (x : BtreeItem) (xs : List BtreeItem)
    → is_past opts.upper x.order_key ≡ true
    → All (λ y. less_func x y ≡ true) xs
    → all_in_range opts xs ≡ []
unfolding all_in_range
all_in_range-past opts x [] h a = refl
all_in_range-past opts x (y ∷ ys) h a = ground (
  arith,
  is_before_upper_lem opts.upper y.order_key,
  is_past-at_most opts.upper x.order_key y.order_key h (less_func-at_most x y (a.0)),
  all_in_range-past opts x ys h (a.1),
)

collect_lem :
    (opts : SearchOptions) (n : ℕ) (xs : List BtreeItem)
    → IsAscending xs
    → All (λ x. at_most (bytes_compare (start_key opts opts.start_after) x.order_key) ≡ true) xs
    → collect opts n xs ≡ take n (all_in_range opts xs)
unfolding collect all_in_range
collect_lem opts zero xs h a = refl
collect_lem opts (suc n) [] h a = refl
collect_lem opts (suc n) (x ∷ xs) h a =
    let rest = collect_lem opts (suc n) xs (h.1) (a.1) in
    let less = collect_lem opts n xs (h.1) (a.1) in
    elim (Bool-cases (is_cursor opts opts.start_after x.order_key)) [
      | inl b ↦ rw b (
          rest
          ∙ ap (take (suc n)) (ground (arith, b, start-in_range opts opts.start_after x.order_key)))
      | inr b ↦ elim (Bool-cases (is_past opts.upper x.order_key)) [
        | inl p ↦
            rw (b, p)
              (ground (
                arith,
                b,
                p,
                is_before_upper_lem opts.upper x.order_key,
                all_in_range-past opts x xs p (h.0),
              ))
        | inr p ↦
            let r = behind-start opts opts.start_after x.order_key (a.0) b in
            let u : is_before_upper opts.upper x.order_key ≡ true =
              is_before_upper_lem opts.upper x.order_key ∙ rw p refl in
            rw (b, p, r.0, u, r.1) (ap (λ l. ref_of x ∷ l) less)
      ]
    ]

-- Search answers with the first entries, as many as the limit says (1000 for 0), of all entries of the tree in its
-- order that are not before the lower bound, before the upper bound if there is one, and behind the
-- cursor if there is one.
pub search_lem :
    {Tree : Type 0} (btree : BTree Tree) (opts : SearchOptions) (idx : Index Tree)
    → search btree opts idx ≡ take (most opts.limit) (all_in_range opts (btree.items idx.tree))
unfolding search
search_lem btree opts idx =
    let all =
      from-IsAscending (start_of (start_key opts opts.start_after)) (btree.items idx.tree)
        (btree.items-IsAscending idx.tree) in
    ap (collect opts (limit_of opts.limit))
      (btree.ascend_lem (start_of (start_key opts opts.start_after)) idx.tree)
    ∙ collect_lem opts (limit_of opts.limit) _ all (from-All opts (btree.items idx.tree))
    ∙ ap (take (limit_of opts.limit)) (from-all_in_range opts (btree.items idx.tree))
    ∙ ap (λ n. take n (all_in_range opts (btree.items idx.tree))) (most-eq-limit_of opts.limit)
