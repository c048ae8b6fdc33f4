-- ===== src/Indexer/MemStore/Tree/Order.antt =====
-- The order of the items: `lessFunc` of packages/syntrix/internal/indexer/mem_store/index.go.
use syntrix.Common.{
  ◌≡◌, true, false, bytes_compare_refl, bytes_compare-flip, bytes_compare_trans,
  eq_of_bytes_compare, arith,
}
use syntrix.Indexer.MemStore.Tree.{BtreeItem, less_func}

pub less_func_irrefl : (x : BtreeItem) → less_func x x ≡ false
unfolding less_func
less_func_irrefl x = ground (arith, bytes_compare_refl x.order_key, bytes_compare_refl x.id)

pub less_func_trans :
    (x y z : BtreeItem) → less_func x y ≡ true → less_func y z ≡ true → less_func x z ≡ true
unfolding less_func
less_func_trans x y z h k = ground (
  arith,
  h,
  k,
  bytes_compare_trans x.order_key y.order_key z.order_key,
  bytes_compare_trans z.order_key x.order_key y.order_key,
  bytes_compare_trans y.order_key z.order_key x.order_key,
  bytes_compare-flip x.order_key y.order_key,
  bytes_compare-flip y.order_key z.order_key,
  bytes_compare-flip x.order_key z.order_key,
  bytes_compare_trans x.id y.id z.id,
  bytes_compare_trans z.id x.id y.id,
  bytes_compare_trans y.id z.id x.id,
  bytes_compare-flip x.id y.id,
  bytes_compare-flip y.id z.id,
  bytes_compare-flip x.id z.id,
)

pub eq_of_less_func : (x y : BtreeItem) → less_func x y ≡ false → less_func y x ≡ false → x ≡ y
unfolding less_func
eq_of_less_func x y h k =
    let keys : x.order_key ≡ y.order_key = eq_of_bytes_compare x.order_key y.order_key (
      ground
        (arith, h, k, bytes_compare-flip x.order_key y.order_key, bytes_compare-flip x.id y.id)) in
    let ids : x.id ≡ y.id = eq_of_bytes_compare x.id y.id (
      ground
        (arith, h, k, bytes_compare-flip x.order_key y.order_key, bytes_compare-flip x.id y.id)) in
    λ i. record { order_key = keys i; id = ids i }
