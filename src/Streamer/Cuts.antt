-- ===== src/Streamer/Cuts.antt =====
-- Lists of subscribers with distinct IDs, and the loops that cut one out:
-- packages/syntrix/internal/streamer/manager/manager.go.
use syntrix.Common.{
  ◌≡◌, refl, sym, ap, ◌∙◌, ◌↔◌, inl, inr, false, List, [], ◌∷◌, ◌++◌, Bytes, bytes_eq, bytes_eq_iff,
  bytes_eq_sym, if◌then◌else◌, IsIn, IsIn-All, All, arith, Bool-cases,
}
use syntrix.Streamer.Subscription.{Subscriber, ExpressionSubscriber}
use syntrix.Streamer.Exact.{cut}
use syntrix.Streamer.Registry.{cut_expression}

pub All-of_IsIn :
    {A : Type 0} (P : A → Type 0) (xs : List A) → ((x : A) → IsIn x xs → P x) → All P xs
All-of_IsIn P [] h = tt
All-of_IsIn P (x ∷ xs) h = (h x (inl refl), All-of_IsIn P xs (λ y i. h y (inr i)))

module _ {A : Type 0} (id_of : A → Bytes) where
  -- No element has this ID.
  abbrev pub IsUnused : Bytes → List A → Type 0
  IsUnused id xs = All (λ x. bytes_eq (id_of x) id ≡ false) xs

  abbrev pub IsDistinct : List A → Type 0
  IsDistinct [] = Unit
  IsDistinct (x ∷ xs) = IsUnused (id_of x) xs × IsDistinct xs

  -- The list without the first element that has this ID.
  unfoldable pub cut_by : Bytes → List A → List A
  cut_by id [] = []
  cut_by id (x ∷ xs) = let rest = cut_by id xs in if bytes_eq (id_of x) id then xs else x ∷ rest

  IsUnused-IsIn :
      (id : Bytes) (x : A) (xs : List A)
      → IsUnused id xs
      → IsIn x xs
      → bytes_eq (id_of x) id ≡ false
  IsUnused-IsIn id x xs u i = IsIn-All (λ y. bytes_eq (id_of y) id ≡ false) x xs i u

  pub IsIn-cut_by :
      (id : Bytes) (x : A) (xs : List A)
      → IsDistinct xs
      → IsIn x (cut_by id xs) ↔ (IsIn x xs × (bytes_eq (id_of x) id ≡ false))
  unfolding cut_by
  IsIn-cut_by id x [] d = ground arith
  IsIn-cut_by id x (y ∷ ys) d = elim (Bool-cases (bytes_eq (id_of y) id)) [
    | inl b ↦ rw b (
      λ i. (
        inr i,
        ap (λ j. bytes_eq (id_of x) j) (sym ((bytes_eq_iff (id_of y) id).0 b))
            ∙ IsUnused-IsIn (id_of y) x ys (d.0) i,
      ),
      λ (i, f). elim i [ inl e ↦ absurd (ground (arith, b, f, ap id_of e)) | inr j ↦ j ],
    )
    | inr b ↦ rw b (ground (arith, b, IsIn-cut_by id x ys (d.1)))
  ]

  IsUnused-cut_by : (id j : Bytes) (xs : List A) → IsUnused j xs → IsUnused j (cut_by id xs)
  unfolding cut_by
  IsUnused-cut_by id j [] u = tt
  IsUnused-cut_by id j (x ∷ xs) u = elim (Bool-cases (bytes_eq (id_of x) id)) [
    | inl b ↦ rw b (u.1)
    | inr b ↦ rw b (u.0, IsUnused-cut_by id j xs (u.1))
  ]

  pub IsDistinct-cut_by : (id : Bytes) (xs : List A) → IsDistinct xs → IsDistinct (cut_by id xs)
  unfolding cut_by
  IsDistinct-cut_by id [] d = tt
  IsDistinct-cut_by id (x ∷ xs) d = elim (Bool-cases (bytes_eq (id_of x) id)) [
    | inl b ↦ rw b (d.1)
    | inr b ↦ rw b (IsUnused-cut_by id (id_of x) xs (d.0), IsDistinct-cut_by id xs (d.1))
  ]

  IsUnused-append :
      (j : Bytes) (xs : List A) (y : A)
      → IsUnused j xs
      → bytes_eq (id_of y) j ≡ false
      → IsUnused j (xs ++ (y ∷ []))
  IsUnused-append j [] y u h = (h, tt)
  IsUnused-append j (x ∷ xs) y u h = (u.0, IsUnused-append j xs y (u.1) h)

  pub IsDistinct-append :
      (xs : List A) (y : A) → IsDistinct xs → IsUnused (id_of y) xs → IsDistinct (xs ++ (y ∷ []))
  IsDistinct-append [] y d u = (tt, tt)
  IsDistinct-append (x ∷ xs) y d u = (
    IsUnused-append (id_of x) xs y (d.0) (bytes_eq_sym (id_of y) (id_of x) ∙ u.0),
    IsDistinct-append xs y (d.1) (u.1),
  )

pub cut-eq-cut_by : (id : Bytes) (xs : List Subscriber) → cut id xs ≡ cut_by (λ s. s.id) id xs
unfolding cut cut_by
cut-eq-cut_by id [] = refl
cut-eq-cut_by id (x ∷ xs) = ground (arith, cut-eq-cut_by id xs)

pub cut_expression-eq-cut_by :
    {Program : Type 0} (id : Bytes) (xs : List (ExpressionSubscriber Program))
    → cut_expression id xs ≡ cut_by (λ e. e.subscriber.id) id xs
unfolding cut_expression cut_by
cut_expression-eq-cut_by id [] = refl
cut_expression-eq-cut_by id (x ∷ xs) = ground (arith, cut_expression-eq-cut_by id xs)
