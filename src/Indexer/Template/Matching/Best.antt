-- ===== src/Indexer/Template/Matching/Best.antt =====
-- The best templates of a path: packages/syntrix/internal/indexer/template/template.go.
use syntrix.Common.{◌≡◌, ◌⊎◌, true, false, List, [], ◌∷◌, Bytes, All, IsIn}
use syntrix.Indexer.Template.{Template, split, is_wild}
use syntrix.Indexer.Template.Matching.{less, MatchResult, calculate_score}

-- A path fits a pattern with as many segments, each of which is wild or the path's own.
abbrev pub Fits : List Bytes → List Bytes → Type 0
Fits [] [] = Unit
Fits [] (q ∷ pattern) = ⊥
Fits (p ∷ path) [] = ⊥
Fits (p ∷ path) (q ∷ pattern) = ((is_wild q ≡ true) ⊎ (p ≡ q)) × Fits path pattern

-- A result that a path has among the templates.
abbrev pub IsMatch : Bytes → List Template → MatchResult → Type 0
IsMatch path ts r =
    IsIn r.template ts
    × (Fits (split path) (split r.template.collection_pattern)
        × (r.score ≡ calculate_score (split r.template.collection_pattern)))

-- No result has a greater score than the one before it.
IsSorted : List MatchResult → Type 0
IsSorted [] = Unit
IsSorted (r ∷ rs) = All (λ x. less r.score x.score ≡ false) rs × IsSorted rs
