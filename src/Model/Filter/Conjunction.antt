-- ===== src/Model/Filter/Conjunction.antt =====
-- A list of filters is a conjunction: EvaluateFilters of packages/syntrix/pkg/model/filter_eval.go.
use syntrix.Common.{
  ℕ, ◌+◌, ◌≡◌, ◌↔◌, refl, ap, ◌∙◌, Bool, true, Option, List, [], ◌∷◌, Bytes, arith, All, ok, err,
  Result-cases, ◌>>=◌, ◌&&◌, inl, inr,
}
use syntrix.Model.Number.{Float64}
use syntrix.Model.Value.{Value}
use syntrix.Model.Filter.{
  Filter, FilterError, normalize_filter, normalize_filters, evaluate_normalized, evaluate_filter,
  evaluate_all, evaluate_filters,
}

module _ (parse_float : Bytes → Option Float64) (get : Bytes → Option Value) where
  -- The filter alone is true of the document that `get` reads.
  abbrev pub IsTrue : Filter → Type 0
  IsTrue f = evaluate_filter parse_float f (get f.field) ≡ ok true

  normalize_filter-field :
      (f : Filter) {g : Filter} → normalize_filter parse_float f ≡ ok g → g.field ≡ f.field
  unfolding normalize_filter
  normalize_filter-field f h = ground arith

  evaluate_filter-normalized :
      (f : Filter) {g : Filter}
      → normalize_filter parse_float f ≡ ok g
      → evaluate_filter parse_float f (get f.field)
        ≡ evaluate_normalized parse_float g (get g.field)
  unfolding evaluate_filter
  evaluate_filter-normalized f h = simp (h, normalize_filter-field f h)

  unnormalized :
      (f : Filter) {x : FilterError} → normalize_filter parse_float f ≡ err x → ¬ IsTrue f
  unfolding evaluate_filter
  unnormalized f e h = ground arith

  All-of_evaluate :
      (i : ℕ) (m : Bool) (fs : List Filter)
      → (normalize_filters parse_float i fs >>= λ gs. evaluate_all parse_float m gs get) ≡ ok true
      → (m ≡ true) × All IsTrue fs
  unfolding normalize_filters evaluate_all
  All-of_evaluate i m [] h = (ground arith, tt)
  All-of_evaluate i m (f ∷ fs) h = elim (Result-cases (normalize_filter parse_float f)) [
    | inr (x, e) ↦ ground arith
    | inl (g, e) ↦ elim (Result-cases (normalize_filters parse_float (i + 1) fs)) [
      | inr (x, e') ↦ ground arith
      | inl (gs, e') ↦ elim (Result-cases (evaluate_normalized parse_float g (get g.field))) [
        | inr (x, e'') ↦ ground arith
        | inl (r, e'') ↦
            let (both, rest) = All-of_evaluate (i + 1) (m && r) fs (rw e' (rw (e, e', e'') at h)) in
            (
              ground arith,
              (
                evaluate_filter-normalized f e
                    ∙ (e'' ∙ (let yes' : r ≡ true = ground arith in ap ok yes')),
                rest,
              ),
            )
      ]
    ]
  ]

  evaluate_of_All :
      (i : ℕ) (fs : List Filter)
      → All IsTrue fs
      → (normalize_filters parse_float i fs >>= λ gs. evaluate_all parse_float true gs get)
        ≡ ok true
  unfolding normalize_filters evaluate_all
  evaluate_of_All i [] h = refl
  evaluate_of_All i (f ∷ fs) h = elim (Result-cases (normalize_filter parse_float f)) [
    | inr (x, e) ↦ absurd (unnormalized f e h.0)
    | inl (g, e) ↦ elim (Result-cases (normalize_filters parse_float (i + 1) fs)) [
      | inr (x, e') ↦ ground (arith, evaluate_of_All (i + 1) fs h.1)
      | inl (gs, e') ↦
          ground (arith, evaluate_of_All (i + 1) fs h.1, evaluate_filter-normalized f e, h.0)
    ]
  ]

  -- EvaluateFilters answers true exactly if EvaluateFilter answers true for every filter of the list,
  -- each on the field that it names.
  pub evaluate_filters_iff :
      (fs : List Filter) → (evaluate_filters parse_float fs get ≡ ok true) ↔ All IsTrue fs
  unfolding evaluate_filters
  evaluate_filters_iff fs = (λ h. (All-of_evaluate 0 true fs h).1, evaluate_of_All 0 fs)
