-- ===== src/Puller/Coalescer/Lost.antt =====
-- A delete that coalescing loses: packages/syntrix/internal/puller/buffer/coalescer.go.
use syntrix.Common.{
  ◌≡◌, refl, ap, ◌∙◌, Option, none, some, [], ◌∷◌, Bytes, bytes_eq_refl, lookup, put, remove,
}
use syntrix.Puller.Events.{StoreChangeEvent, insert, delete}
use syntrix.Puller.Coalescer.{
  merge, key_of, add, store_merged, add_all, flush, coalesce_events, Pending,
}

module _ {Doc Desc : Type 0} where
  add_to_one :
      (k : Bytes) (p e : StoreChangeEvent Doc Desc) (m : Option (StoreChangeEvent Doc Desc))
      → key_of e ≡ k
      → merge p e ≡ m
      → add e ((k, p) ∷ []) ≡ elim m as (λ x. Pending Doc Desc) [ none ↦ [] | some q ↦ (k, q) ∷ [] ]
  unfolding add lookup put remove
  add_to_one k p e none h g = rw (h, bytes_eq_refl k, g, store_merged, bytes_eq_refl k) refl
  add_to_one k p e (some q) h g = rw (h, bytes_eq_refl k, g, store_merged, bytes_eq_refl k) refl

  first : (e : StoreChangeEvent Doc Desc) → add e [] ≡ (key_of e, e) ∷ []
  unfolding add lookup put
  first e = refl

  -- A delete, an insert and a delete of one document coalesce to nothing, so that its first delete is
  -- lost.
  pub coalesce_events-delete_insert_delete :
      (a b c : StoreChangeEvent Doc Desc)
      → a.op_type ≡ delete
      → b.op_type ≡ insert
      → c.op_type ≡ delete
      → key_of b ≡ key_of a
      → key_of c ≡ key_of a
      → coalesce_events (a ∷ b ∷ c ∷ []) ≡ []
  unfolding coalesce_events add_all merge flush
  coalesce_events-delete_insert_delete a b c ha hb hc kb kc =
      ap (λ p. (flush (add c (add b p))).0) (first a)
      ∙ ap (λ p. (flush (add c p)).0) (add_to_one (key_of a) a b (some b) kb (rw (hb, ha) refl))
      ∙ ap (λ p. (flush p).0) (add_to_one (key_of a) b c none kc (rw (hc, hb) refl))
