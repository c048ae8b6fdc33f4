-- ===== src/Indexer/Template/Matching.antt =====
-- Which templates a collection path matches: packages/syntrix/internal/indexer/template/template.go.
pub mod Best
use syntrix.Common.{
  ◌≡◌, ◌≢◌, refl, ℕ, zero, suc, ◌+◌, ◌≤◌, Bool, true, false, not, ◌&&◌, ◌||◌, Option, none, some,
  List, [], ◌∷◌, ◌++◌, Bytes, bytes_eq, ◌==◌, ltb, if◌then◌else◌, length, All, arith, Bool-cases,
  inl, inr,
}
use syntrix.Indexer.Template.{Template, split, is_wild}

-- PatternScore
pub record PatternScore : Type 0 where
  pub fixed_segments : ℕ
  pub total_segments : ℕ

-- PatternScore.Less
unfoldable pub less : PatternScore → PatternScore → Bool
less s other =
    if not (s.fixed_segments == other.fixed_segments)
    then ltb s.fixed_segments other.fixed_segments
    else ltb s.total_segments other.total_segments

-- PatternScore.Equal
unfoldable pub equal : PatternScore → PatternScore → Bool
equal s other = s.fixed_segments == other.fixed_segments && s.total_segments == other.total_segments

-- MatchResult
pub record MatchResult : Type 0 where
  pub template : Template
  pub score : PatternScore

-- segmentsMatch, of as many segments on either side
unfoldable pub segments_match : List Bytes → List Bytes → Bool
segments_match [] pattern = true
segments_match (p ∷ path) [] = false
segments_match (p ∷ path) (q ∷ pattern) = (is_wild q || bytes_eq p q) && segments_match path pattern

-- The loop of calculateScore.
unfoldable pub count_fixed : List Bytes → ℕ
count_fixed [] = 0
count_fixed (seg ∷ segs) = if is_wild seg then count_fixed segs else suc (count_fixed segs)

-- calculateScore
unfoldable pub calculate_score : List Bytes → PatternScore
unfolding count_fixed
calculate_score segments = record {
  fixed_segments = count_fixed segments;
  total_segments = length segments;
}

-- The loop of MatchTemplates.
unfoldable pub find_matches : List Bytes → List Template → List MatchResult
unfolding segments_match calculate_score split
find_matches path [] = []
find_matches path (t ∷ ts) =
    let rest = find_matches path ts in
    let pattern = split t.collection_pattern in
    if length path == length pattern && segments_match path pattern
    then record { template = t; score = calculate_score pattern } ∷ rest
    else rest

-- `sort.Slice` with the highest score first, as insertion into a sorted list; the source leaves open how
-- it orders equal scores.
unfoldable pub insert_result : MatchResult → List MatchResult → List MatchResult
unfolding less
insert_result r [] = r ∷ []
insert_result r (x ∷ xs) =
    let later = insert_result r xs in if less r.score x.score then x ∷ later else r ∷ x ∷ xs

unfoldable pub sort_results : List MatchResult → List MatchResult
unfolding insert_result
sort_results [] = []
sort_results (r ∷ rs) = insert_result r (sort_results rs)

-- MatchTemplates
unfoldable pub match_templates : Bytes → List Template → List MatchResult
unfolding find_matches sort_results split
match_templates path templates = sort_results (find_matches (split path) templates)

-- The loop of SelectBestTemplates.
unfoldable pub while_equal : PatternScore → List MatchResult → List MatchResult
unfolding equal
while_equal best [] = []
while_equal best (r ∷ rs) =
    let rest = while_equal best rs in if equal r.score best then r ∷ rest else []

-- SelectBestTemplates
unfoldable pub select_best_templates : List MatchResult → List MatchResult
unfolding while_equal
select_best_templates [] = []
select_best_templates (r ∷ rs) = while_equal r.score (r ∷ rs)
