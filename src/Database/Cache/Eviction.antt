-- ===== src/Database/Cache/Eviction.antt =====
-- The bound of the cache of packages/syntrix/internal/core/database/cache.go.
use syntrix.Common.{
  ◌≡◌, ◌≢◌, refl, ap, ℕ, zero, suc, ◌≤◌, ◌<◌, false, none, some, [], ◌∷◌, Bytes, bytes_eq, arith,
  lookup, remove, length, leb, ltb, Assoc, Bool-cases, inl, inr, ◌⊎◌, bytes_eq_refl,
}
use syntrix.Database.Cache.{
  Cache, CacheEntry, find_oldest, evict_oldest, evict, drop_expired, evict_if_needed, evicted, live,
}

-- No database has the empty string for its ID.
unfoldable pub IsNamed : Assoc CacheEntry → Type 0
IsNamed [] = Unit
IsNamed ((id, entry) ∷ m) = (bytes_eq id [] ≡ false) × IsNamed m

length-remove : (k : Bytes) (m : Assoc CacheEntry) → length (remove k m) ≤ length m
unfolding remove
length-remove k [] = ground arith
length-remove k ((j, e) ∷ m) = ground (arith, length-remove k m)

length-remove_found :
    (k : Bytes) (m : Assoc CacheEntry) → lookup k m ≢ none → length (remove k m) < length m
unfolding remove lookup
length-remove_found k [] h = absurd (h refl)
length-remove_found k ((j, e) ∷ m) h = elim (Bool-cases (bytes_eq j k)) [
  | inl b ↦ ground (arith, b, length-remove k m)
  | inr b ↦ ground (arith, b, length-remove_found k m (λ g. h (ground (arith, b, g))))
]

IsNamed-remove : (k : Bytes) (m : Assoc CacheEntry) → IsNamed m → IsNamed (remove k m)
unfolding IsNamed remove
IsNamed-remove k [] h = tt
IsNamed-remove k ((j, e) ∷ m) h = elim (Bool-cases (bytes_eq j k)) [
  | inl b ↦ rw b (IsNamed-remove k m (h.1))
  | inr b ↦ rw b (h.0, IsNamed-remove k m (h.1))
]

IsKey : Bytes → Assoc CacheEntry → Type 0
IsKey k m = (lookup k m ≢ none) × (bytes_eq k [] ≡ false)

IsKey-later :
    (k j : Bytes) (e : CacheEntry) (m : Assoc CacheEntry) → IsKey k m → IsKey k ((j, e) ∷ m)
unfolding IsKey lookup
IsKey-later k j e m h = elim (Bool-cases (bytes_eq j k)) [
  | inl b ↦ (rw b (λ g. cc), h.1)
  | inr b ↦ (rw b (h.0), h.1)
]

IsKey-first :
    (j : Bytes) (e : CacheEntry) (m : Assoc CacheEntry)
    → bytes_eq j [] ≡ false
    → IsKey j ((j, e) ∷ m)
unfolding IsKey lookup
IsKey-first j e m h = (rw (bytes_eq_refl j) (λ g. cc), h)

skip_second :
    (k i j : Bytes) (d e : CacheEntry) (m : Assoc CacheEntry)
    → IsKey k ((i, d) ∷ m)
    → IsKey k ((i, d) ∷ (j, e) ∷ m)
unfolding IsKey lookup
skip_second k i j d e m h = elim (Bool-cases (bytes_eq i k)) [
  | inl b ↦ (rw b (λ g. cc), h.1)
  | inr b ↦ (λ g. h.0 (ground (arith, b, g, Bool-cases (bytes_eq j k))), h.1)
]

-- From a key on, the search ends with that key or with one of the map.
find_oldest-IsKey :
    (m : Assoc CacheEntry) (id : Bytes) (t : ℕ) (first : CacheEntry)
    → bytes_eq id [] ≡ false
    → IsNamed m
    → IsKey (find_oldest m id t) ((id, first) ∷ m)
unfolding find_oldest IsNamed
find_oldest-IsKey [] id t first n h = IsKey-first id first [] n
find_oldest-IsKey ((j, e) ∷ m) id t first n h = elim (Bool-cases (ltb e.expires_at t)) [
  | inl b ↦
      rw (n, b)
        (IsKey-later (find_oldest m j e.expires_at) id first ((j, e) ∷ m)
          (find_oldest-IsKey m j e.expires_at e (h.0) (h.1)))
  | inr b ↦
      rw (n, b)
        (skip_second (find_oldest m id t) id j first e m (find_oldest-IsKey m id t first n (h.1)))
]

evict_oldest-length :
    (m : Assoc CacheEntry) (slugs : Assoc Bytes)
    → IsNamed m
    → (m ≡ []) ⊎ (length (evict_oldest m slugs).0 < length m)
unfolding evict_oldest find_oldest IsNamed IsKey bytes_eq
evict_oldest-length [] slugs h = inl refl
evict_oldest-length ((j, e) ∷ m) slugs h =
    let k : IsKey (find_oldest m j e.expires_at) ((j, e) ∷ m) =
      find_oldest-IsKey m j e.expires_at e (h.0) (h.1) in
    inr (rw (k.1) (length-remove_found (find_oldest m j e.expires_at) ((j, e) ∷ m) (k.0)))

evict_oldest-IsNamed :
    (m : Assoc CacheEntry) (slugs : Assoc Bytes) → IsNamed m → IsNamed (evict_oldest m slugs).0
unfolding evict_oldest
evict_oldest-IsNamed m slugs h = elim (Bool-cases (bytes_eq (find_oldest m [] 0) [])) [
  | inl b ↦ rw b h
  | inr b ↦ rw b (IsNamed-remove (find_oldest m [] 0) m h)
]

evict-bound :
    (fuel size : ℕ) (m : Assoc CacheEntry) (slugs : Assoc Bytes)
    → IsNamed m
    → length m ≤ fuel
    → (r : Assoc CacheEntry × Assoc Bytes) × ((evict fuel size m slugs ≡ some r)
        × (length r.0 ≤ size))
unfolding evict
evict-bound zero size m slugs h le = ((m, slugs), (ground (arith), ground arith))
evict-bound (suc fuel) size m slugs h le = elim (Bool-cases (leb (length m) size)) [
  | inl b ↦ ((m, slugs), (rw b refl, ground (arith, b)))
  | inr b ↦
      let (r, (e, l)) =
        evict-bound fuel size (evict_oldest m slugs).0 (evict_oldest m slugs).1
          (evict_oldest-IsNamed m slugs h) (ground (arith, b, evict_oldest-length m slugs h)) in
      (r, (rw b e, l))
]

drop_expired-IsNamed :
    (now : ℕ) (m : Assoc CacheEntry) (slugs : Assoc Bytes)
    → IsNamed m
    → IsNamed (drop_expired now m slugs).0
unfolding drop_expired IsNamed
drop_expired-IsNamed now [] slugs h = tt
drop_expired-IsNamed now ((id, e) ∷ m) slugs h = elim (Bool-cases (ltb e.expires_at now)) [
  | inl b ↦ rw b (drop_expired-IsNamed now m _ (h.1))
  | inr b ↦ rw b (h.0, drop_expired-IsNamed now m slugs (h.1))
]

-- If no ID of the cache is the empty string, evictIfNeeded ends, and the cache holds no more entries
-- behind it than its configured size.
pub evict_if_needed-bound :
    (now : ℕ) (c : Cache)
    → IsNamed c.id_cache
    → (d : Cache) × ((evict_if_needed now c ≡ some d) × (length d.id_cache ≤ c.config.size))
unfolding evict_if_needed
evict_if_needed-bound now c h =
    let kept : Assoc CacheEntry × Assoc Bytes = drop_expired now c.id_cache c.slug_cache in
    let (r, (e, l)) =
      evict-bound (length kept.0) c.config.size kept.0 kept.1
        (drop_expired-IsNamed now c.id_cache c.slug_cache h) (ground arith) in
    (_, (ap (evicted c (live now c.negative_cache)) e, l))
