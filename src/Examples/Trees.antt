-- ===== src/Examples/Trees.antt =====
-- A tree that keeps the promises of the ordered tree: an ascending list, beside the use in
-- packages/syntrix/internal/indexer/mem_store.
use syntrix.Common.{
  ◌≡◌, ◌≢◌, refl, ap, ◌↔◌, ◌⊎◌, inl, inr, true, ◌||◌, List, [], ◌∷◌, IsIn, All, if◌then◌else◌,
  arith, Bool-cases,
}
use syntrix.Indexer.MemStore.Tree.Order.{less_func_irrefl, less_func_trans, eq_of_less_func}
use syntrix.Indexer.MemStore.Tree.{BtreeItem, BTree, less_func, IsAscending, from}

unfoldable pub insert : BtreeItem → List BtreeItem → List BtreeItem
insert y [] = y ∷ []
insert y (x ∷ xs) =
    let rest = insert y xs in
    if less_func y x then y ∷ x ∷ xs else if less_func x y then x ∷ rest else x ∷ xs

unfoldable pub erase : BtreeItem → List BtreeItem → List BtreeItem
erase y [] = []
erase y (x ∷ xs) =
    let rest = erase y xs in if less_func y x || less_func x y then x ∷ rest else rest

pub IsIn-insert :
    (x y : BtreeItem) (xs : List BtreeItem) → IsIn x (insert y xs) ↔ ((y ≡ x) ⊎ IsIn x xs)
unfolding insert
IsIn-insert x y [] = ground arith
IsIn-insert x y (z ∷ xs) = ground (arith, IsIn-insert x y xs, eq_of_less_func y z)

pub IsIn-erase :
    (x y : BtreeItem) (xs : List BtreeItem) → IsIn x (erase y xs) ↔ (IsIn x xs × (y ≢ x))
unfolding erase
IsIn-erase x y [] = ground arith
IsIn-erase x y (z ∷ xs) = elim (Bool-cases (less_func y z || less_func z y)) [
  | inl b ↦
      let other : y ≢ z = λ e. absurd (
        ground
          (arith, b, less_func_irrefl z, ap (λ t. less_func t z) e, ap (λ t. less_func z t) e)) in
      rw b (ground (arith, IsIn-erase x y xs, other))
  | inr b ↦
      let own : y ≡ z = eq_of_less_func y z (ground (arith, b)) (ground (arith, b)) in
      rw b (ground (arith, IsIn-erase x y xs, own))
]

All-insert :
    (P : BtreeItem → Type 0) (y : BtreeItem) (xs : List BtreeItem)
    → P y
    → All P xs
    → All P (insert y xs)
unfolding insert
All-insert P y [] h a = (h, tt)
All-insert P y (x ∷ xs) h a = elim (Bool-cases (less_func y x)) [
  | inl b ↦ rw b (h, a)
  | inr b ↦ elim (Bool-cases (less_func x y)) [
    | inl c ↦ rw (b, c) (a.0, All-insert P y xs h (a.1))
    | inr c ↦ rw (b, c) a
  ]
]

All-erase :
    (P : BtreeItem → Type 0) (y : BtreeItem) (xs : List BtreeItem) → All P xs → All P (erase y xs)
unfolding erase
All-erase P y [] a = tt
All-erase P y (x ∷ xs) a = elim (Bool-cases (less_func y x || less_func x y)) [
  | inl b ↦ rw b (a.0, All-erase P y xs (a.1))
  | inr b ↦ rw b (All-erase P y xs (a.1))
]

All-less :
    (y x : BtreeItem) (xs : List BtreeItem)
    → less_func y x ≡ true
    → All (λ z. less_func x z ≡ true) xs
    → All (λ z. less_func y z ≡ true) xs
All-less y x [] h a = tt
All-less y x (z ∷ xs) h a = (less_func_trans y x z h (a.0), All-less y x xs h (a.1))

pub IsAscending-insert :
    (y : BtreeItem) (xs : List BtreeItem) → IsAscending xs → IsAscending (insert y xs)
unfolding insert
IsAscending-insert y [] a = (tt, tt)
IsAscending-insert y (x ∷ xs) a = elim (Bool-cases (less_func y x)) [
  | inl b ↦ rw b ((b, All-less y x xs b (a.0)), a)
  | inr b ↦ elim (Bool-cases (less_func x y)) [
    | inl c ↦
        rw (b, c)
          (All-insert (λ z. less_func x z ≡ true) y xs c (a.0), IsAscending-insert y xs (a.1))
    | inr c ↦ rw (b, c) a
  ]
]

pub IsAscending-erase :
    (y : BtreeItem) (xs : List BtreeItem) → IsAscending xs → IsAscending (erase y xs)
unfolding erase
IsAscending-erase y [] a = tt
IsAscending-erase y (x ∷ xs) a = elim (Bool-cases (less_func y x || less_func x y)) [
  | inl b ↦ rw b (All-erase (λ z. less_func x z ≡ true) y xs (a.0), IsAscending-erase y xs (a.1))
  | inr b ↦ rw b (IsAscending-erase y xs (a.1))
]

abbrev pub SortedItems : Type 0
SortedItems = (xs : List BtreeItem) × IsAscending xs

unfoldable pub sorted_items : BTree SortedItems
sorted_items = record {
  new = ([], tt);
  replace_or_insert = λ y t. (insert y t.0, IsAscending-insert y t.0 (t.1));
  delete = λ y t. (erase y t.0, IsAscending-erase y t.0 (t.1));
  ascend = λ start t. from start t.0;
  items = λ t. t.0;
  items-new = refl;
  items-IsAscending = λ t. t.1;
  items-insert = λ x y t. IsIn-insert x y t.0;
  items-delete = λ x y t. IsIn-erase x y t.0;
  ascend_lem = λ start t. refl;
}
