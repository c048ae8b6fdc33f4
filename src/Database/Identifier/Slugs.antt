-- ===== src/Database/Identifier/Slugs.antt =====
-- Which slugs packages/syntrix/internal/core/database/id.go admits.
use syntrix.Common.{
  List, IsIn, codes, bytes_eq_iff, inr, Bool-cases, ◌≡◌, refl, ◌↔◌, ◌⊎◌, inl, ◌≤◌, ℕ, true, Bytes,
  [], ◌∷◌, length, All, arith, ok,
}
use syntrix.Database.Identifier.{
  validate_slug, matches_slug, is_reserved_slug, is_slug_byte, all, is_between,
}

-- A lower case letter, from a to z, a digit or a dash, by their ASCII codes.
abbrev pub IsLetter : ℕ → Type 0
IsLetter c = (97 ≤ c) × (c ≤ 122)

abbrev pub IsSlugByte : ℕ → Type 0
IsSlugByte c = IsLetter c ⊎ (((48 ≤ c) × (c ≤ 57)) ⊎ (c ≡ 45))

-- A slug as the documentation has it: 3 to 63 bytes, of which the first is a lower case letter and each
-- is one, a digit or a dash.
abbrev pub IsSlug : Bytes → Type 0
IsSlug [] = ⊥
IsSlug (c ∷ cs) =
    (3 ≤ length (c ∷ cs)) × ((length (c ∷ cs) ≤ 63) × (IsLetter c × All IsSlugByte cs))

abbrev pub reserved_words : List Bytes
reserved_words = codes "default" ∷ codes "admin" ∷ codes "system" ∷ codes "api" ∷ codes "auth" ∷ []

is_between-IsLetter : (c : ℕ) → (is_between b'a' b'z' c ≡ true) ↔ IsLetter c
is_between-IsLetter c = ground arith

is_slug_byte_iff : (c : ℕ) → (is_slug_byte c ≡ true) ↔ IsSlugByte c
is_slug_byte_iff c = ground arith

all-All : (cs : Bytes) → (all is_slug_byte cs ≡ true) ↔ All IsSlugByte cs
unfolding all
all-All [] = (λ h. tt, λ h. refl)
all-All (c ∷ cs) =
    let head = is_slug_byte_iff c in
    let tail = all-All cs in
    (
      λ h. (head.0 (ground (arith, h)), tail.0 (ground (arith, h))),
      λ h. ground (arith, head.1 (h.0), tail.1 (h.1)),
    )

matches_slug_iff : (slug : Bytes) → (matches_slug slug ≡ true) ↔ IsSlug slug
unfolding matches_slug
matches_slug_iff [] = ground arith
matches_slug_iff (c ∷ cs) =
    let head = is_between-IsLetter c in
    let tail = all-All cs in
    (
      λ h. (
        ground (arith, h),
        (ground (arith, h), (head.0 (ground (arith, h)), tail.0 (ground (arith, h)))),
      ),
      λ h. ground (arith, h.0, (h.1).0, head.1 (((h.1).1).0), tail.1 (((h.1).1).1)),
    )

is_reserved_slug_iff : (slug : Bytes) → (is_reserved_slug slug ≡ true) ↔ IsIn slug reserved_words
unfolding is_reserved_slug
is_reserved_slug_iff slug = ground (
  arith,
  bytes_eq_iff slug (codes "default"),
  bytes_eq_iff slug (codes "admin"),
  bytes_eq_iff slug (codes "system"),
  bytes_eq_iff slug (codes "api"),
  bytes_eq_iff slug (codes "auth"),
)

-- ValidateSlug accepts a string exactly if it is empty, or has 3 to 63 bytes, of which the first is a
-- lower case letter and each is one, a digit or a dash, and is none of the five reserved words.
pub validate_slug_iff :
    (slug : Bytes)
    → (validate_slug slug ≡ ok tt) ↔ ((slug ≡ []) ⊎ (IsSlug slug × (IsIn slug reserved_words → ⊥)))
unfolding validate_slug
validate_slug_iff [] = (λ h. inl refl, λ h. refl)
validate_slug_iff (c ∷ cs) =
    let slug = c ∷ cs in
    let shape = matches_slug_iff slug in
    let word = is_reserved_slug_iff slug in
    (
      λ h. inr (shape.0 (ground (arith, h)), λ i. absurd (ground (arith, h, word.1 i))),
      λ h. elim h [
        | inl e ↦ absurd (cc)
        | inr (s, n) ↦ elim (Bool-cases (is_reserved_slug slug)) [
          | inl b ↦ absurd (n (word.0 b))
          | inr b ↦ ground (arith, shape.1 s, b)
        ]
      ],
    )
