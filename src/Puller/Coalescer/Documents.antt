-- ===== src/Puller/Coalescer/Documents.antt =====
-- What CoalesceEvents puts out: packages/syntrix/internal/puller/buffer/coalescer.go.
use syntrix.Common.{
  ◌≡◌, refl, sym, ap, ◌∙◌, true, false, Option, none, some, List, [], ◌∷◌, Bytes, arith, bytes_eq,
  bytes_eq_iff, if◌then◌else◌, lookup, put, remove, lookup-put, lookup-remove, Bool-cases,
  Option-cases, inl, inr, bytes_compare,
}
use syntrix.Puller.Events.{StoreChangeEvent, buffer_key}
use syntrix.Puller.Coalescer.{
  Pending, merge, key_of, add, add_all, values, insert_sorted, sort_events, flush, coalesce_events,
  is_before,
}
use syntrix.Puller.Coalescer.Effect.{
  State, is_legal, apply_event, apply_pending, state_after, IsLegal, lookup-add, Explains,
  step-Explains,
}

module _ {Doc Desc : Type 0} where
  add-Explains :
      (k : Bytes) (s₀ s : State Doc) (e : StoreChangeEvent Doc Desc) (c : Pending Doc Desc)
      → Explains s₀ (lookup k c) s
      → (bytes_eq (key_of e) k ≡ true → is_legal s₀ s e.op_type ≡ true)
      → Explains s₀ (lookup k (add e c)) (if bytes_eq (key_of e) k then apply_event s e else s)
  add-Explains k s₀ s e c h l = elim (Bool-cases (bytes_eq (key_of e) k)) [
    | inl b ↦ rw (lookup-add k e c, b) (step-Explains s₀ s (lookup k c) e h (l b))
    | inr b ↦ rw (lookup-add k e c, b) h
  ]

  add_all-Explains :
      (k : Bytes) (s₀ s : State Doc) (es : List (StoreChangeEvent Doc Desc)) (c : Pending Doc Desc)
      → Explains s₀ (lookup k c) s
      → IsLegal k s₀ s es
      → Explains s₀ (lookup k (add_all es c)) (state_after k s es)
  unfolding add_all state_after
  add_all-Explains k s₀ s [] c h l = h
  add_all-Explains k s₀ s (e ∷ es) c h l =
      add_all-Explains k s₀ (if bytes_eq (key_of e) k then apply_event s e else s) es (add e c)
        (add-Explains k s₀ s e c h (l.0)) (l.1)

  Explains-apply :
      (s₀ s : State Doc) (p : Option (StoreChangeEvent Doc Desc))
      → Explains s₀ p s
      → apply_pending s₀ p ≡ s
  Explains-apply s₀ s none h = h
  Explains-apply s₀ s (some p) h = h.1

  -- No event of the document with key `k`.
  IsAbsent : Bytes → List (StoreChangeEvent Doc Desc) → Type 0
  IsAbsent k [] = Unit
  IsAbsent k (e ∷ es) = (bytes_eq (key_of e) k ≡ false) × IsAbsent k es

  -- Each event stands under its own key, once.
  IsKeyed : Pending Doc Desc → Type 0
  IsKeyed [] = Unit
  IsKeyed ((j, e) ∷ c) = (key_of e ≡ j) × ((lookup j c ≡ none) × IsKeyed c)

  IsKeyed-put :
      (k : Bytes) (e : StoreChangeEvent Doc Desc) (c : Pending Doc Desc)
      → key_of e ≡ k
      → IsKeyed c
      → IsKeyed (put k e c)
  unfolding IsKeyed put lookup
  IsKeyed-put k e [] h hc = (h, (refl, tt))
  IsKeyed-put k e ((j, d) ∷ c) h hc = elim (Bool-cases (bytes_eq j k)) [
    | inl b ↦ rw b (h ∙ sym ((bytes_eq_iff j k).0 b), hc.1)
    | inr b ↦ rw b (
      hc.0,
      (
        ground (arith, lookup-put k j e c, bytes_eq_iff k j, bytes_eq_iff j k),
        IsKeyed-put k e c h ((hc.1).1),
      ),
    )
  ]

  IsKeyed-remove : (k : Bytes) (c : Pending Doc Desc) → IsKeyed c → IsKeyed (remove k c)
  unfolding IsKeyed remove
  IsKeyed-remove k [] hc = tt
  IsKeyed-remove k ((j, d) ∷ c) hc = elim (Bool-cases (bytes_eq j k)) [
    | inl b ↦ rw b (IsKeyed-remove k c ((hc.1).1))
    | inr b ↦ rw b (
      hc.0,
      (
        ground (arith, lookup-remove k j c, bytes_eq_iff k j, bytes_eq_iff j k),
        IsKeyed-remove k c ((hc.1).1),
      ),
    )
  ]

  merge-key : (p e m : StoreChangeEvent Doc Desc) → merge p e ≡ some m → key_of m ≡ key_of e
  unfolding merge
  merge-key p e m h = ground arith

  IsKeyed-add :
      (e : StoreChangeEvent Doc Desc) (c : Pending Doc Desc) → IsKeyed c → IsKeyed (add e c)
  unfolding add
  IsKeyed-add e c hc = elim (Option-cases (lookup (key_of e) c)) [
    | inl h ↦ rw h (IsKeyed-put (key_of e) e c refl hc)
    | inr (p, h) ↦ rw h elim (Option-cases (merge p e)) [
      | inl g ↦ rw g (IsKeyed-remove (key_of e) c hc)
      | inr (m, g) ↦ rw g (IsKeyed-put (key_of e) m c (merge-key p e m g) hc)
    ]
  ]

  IsKeyed-add_all :
      (es : List (StoreChangeEvent Doc Desc)) (c : Pending Doc Desc)
      → IsKeyed c
      → IsKeyed (add_all es c)
  unfolding add_all
  IsKeyed-add_all [] c hc = hc
  IsKeyed-add_all (e ∷ es) c hc = IsKeyed-add_all es (add e c) (IsKeyed-add e c hc)

  IsAbsent-insert_sorted :
      (k : Bytes) (e : StoreChangeEvent Doc Desc) (es : List (StoreChangeEvent Doc Desc))
      → bytes_eq (key_of e) k ≡ false
      → IsAbsent k es
      → IsAbsent k (insert_sorted e es)
  unfolding IsAbsent insert_sorted
  IsAbsent-insert_sorted k e [] h a = (h, tt)
  IsAbsent-insert_sorted k e (x ∷ xs) h a =
      elim (Bool-cases (is_before (bytes_compare (buffer_key x) (buffer_key e)))) [
        | inl b ↦ rw b (a.0, IsAbsent-insert_sorted k e xs h a.1)
        | inr b ↦ rw b (h, a)
      ]

  IsAbsent-sort_events :
      (k : Bytes) (c : Pending Doc Desc)
      → IsKeyed c
      → lookup k c ≡ none
      → IsAbsent k (sort_events (values c))
  unfolding IsKeyed IsAbsent sort_events lookup
  IsAbsent-sort_events k [] hc h = tt
  IsAbsent-sort_events k ((j, e) ∷ c) hc h = elim (Bool-cases (bytes_eq j k)) [
    | inl b ↦ ground (arith, b)
    | inr b ↦
        IsAbsent-insert_sorted k e (sort_events (values c)) (ap (λ i. bytes_eq i k) (hc.0) ∙ b)
          (IsAbsent-sort_events k c ((hc.1).1) (ground (arith, b)))
  ]

  state_after-absent :
      (k : Bytes) (s : State Doc) (es : List (StoreChangeEvent Doc Desc))
      → IsAbsent k es
      → state_after k s es ≡ s
  unfolding IsAbsent state_after
  state_after-absent k s [] a = refl
  state_after-absent k s (e ∷ es) a = rw a.0 (state_after-absent k s es a.1)

  state_after-skip :
      (k : Bytes) (s : State Doc) (e : StoreChangeEvent Doc Desc)
      (es : List (StoreChangeEvent Doc Desc))
      → bytes_eq (key_of e) k ≡ false
      → state_after k s (insert_sorted e es) ≡ state_after k s es
  unfolding state_after insert_sorted
  state_after-skip k s e [] h = rw h refl
  state_after-skip k s e (x ∷ xs) h =
      elim (Bool-cases (is_before (bytes_compare (buffer_key x) (buffer_key e)))) [
        | inl b ↦
            rw b (state_after-skip k (if bytes_eq (key_of x) k then apply_event s x else s) e xs h)
        | inr b ↦ rw (b, state_after, h) refl
      ]

  state_after-only :
      (k : Bytes) (s : State Doc) (e : StoreChangeEvent Doc Desc)
      (es : List (StoreChangeEvent Doc Desc))
      → bytes_eq (key_of e) k ≡ true
      → IsAbsent k es
      → state_after k s (insert_sorted e es) ≡ apply_event s e
  unfolding state_after insert_sorted IsAbsent
  state_after-only k s e [] h a = rw h refl
  state_after-only k s e (x ∷ xs) h a =
      elim (Bool-cases (is_before (bytes_compare (buffer_key x) (buffer_key e)))) [
        | inl b ↦ rw (b, state_after, a.0) (state_after-only k s e xs h (a.1))
        | inr b ↦
            rw (b, state_after, h, state_after, a.0) (state_after-absent k (apply_event s e) xs a.1)
      ]

  state_after-sort_events :
      (k : Bytes) (s : State Doc) (c : Pending Doc Desc)
      → IsKeyed c
      → state_after k s (sort_events (values c)) ≡ apply_pending s (lookup k c)
  unfolding IsKeyed state_after sort_events lookup
  state_after-sort_events k s [] hc = refl
  state_after-sort_events k s ((j, e) ∷ c) hc = elim (Bool-cases (bytes_eq j k)) [
    | inl b ↦ rw b (
        state_after-only k s e (sort_events (values c)) (ap (λ i. bytes_eq i k) (hc.0) ∙ b) (
          IsAbsent-sort_events k c ((hc.1).1)
            (ap (λ i. lookup i c) (sym ((bytes_eq_iff j k).0 b)) ∙ (hc.1).0)))
    | inr b ↦ rw b (
        state_after-skip k s e (sort_events (values c)) (ap (λ i. bytes_eq i k) (hc.0) ∙ b)
        ∙ state_after-sort_events k s c ((hc.1).1))
  ]

  -- For a run of events in which each event of the document with key `k` could happen when it did, and
  -- which does not insert the document again if it existed before the run, the events that
  -- CoalesceEvents returns leave the document in the state in which the run leaves it.
  pub coalesce_events-state_after :
      (k : Bytes) (s : State Doc) (es : List (StoreChangeEvent Doc Desc))
      → IsLegal k s s es
      → state_after k s (coalesce_events es) ≡ state_after k s es
  unfolding coalesce_events flush IsKeyed lookup
  coalesce_events-state_after k s es l =
      state_after-sort_events k s (add_all es []) (IsKeyed-add_all es [] tt)
      ∙ Explains-apply s (state_after k s es) (lookup k (add_all es []))
          (add_all-Explains k s s es [] refl l)
