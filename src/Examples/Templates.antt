-- ===== src/Examples/Templates.antt =====
-- The best templates of one path.
use syntrix.Common.{false, List, [], ◌∷◌, Bytes, codes}
use syntrix.Indexer.Template.{Template, asc, scalar}
use syntrix.Indexer.Template.Matching.{MatchResult}

abbrev template : Bytes → Template
template pattern = record {
  name = [];
  collection_pattern = pattern;
  fields = record { field = codes "age"; order = asc; mode = scalar } ∷ [];
  include_deleted = false;
}

abbrev templates : List Template
templates = template (codes "users/{id}/posts") ∷ template (codes "users/ann/posts") ∷ []

abbrev best : MatchResult
best = record {
  template = template (codes "users/ann/posts");
  score = record { fixed_segments = 3; total_segments = 3 };
}
