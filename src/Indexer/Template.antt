-- ===== src/Indexer/Template.antt =====
-- Index templates: packages/syntrix/internal/indexer/template/template.go. The hash of a template's
-- semantics is a parameter; files and YAML have no model.
pub mod Matching
use syntrix.Common.{
  ℕ, zero, suc, ◌+◌, Bool, true, false, not, ◌&&◌, ◌||◌, Option, none, some, List, [], ◌∷◌, ◌++◌,
  Bytes, codes, bytes_eq, ◌==◌, ltb, if◌then◌else◌, length, Result, ok, err, require, wrap, ◌>>◌,
  ◌>>=◌,
}
use syntrix.Model.Filter.{validate_query_field}

-- Direction; `no_order` is the empty string, `other_order` any other.
pub data Order : Type 0 where
  asc desc no_order : Order
  other_order : Bytes → Order

-- Mode; `no_mode` is the empty string, `other_mode` any other.
pub data Mode : Type 0 where
  scalar membership no_mode other_mode : Mode

-- Field
pub record TemplateField : Type 0 where
  pub field : Bytes
  pub order : Order
  pub mode : Mode

-- Template
pub record Template : Type 0 where
  pub name : Bytes
  pub collection_pattern : Bytes
  pub fields : List TemplateField
  pub include_deleted : Bool

-- The errors of ValidateTemplate and ValidateTemplates.
pub data TemplateError : Type 0 where
  empty_pattern empty_segment no_fields invalid_direction duplicate_field : TemplateError
  duplicate_template too_many_memberships membership_order metadata_membership invalid_mode
        invalid_field :
      TemplateError

-- `strings.Split(s, sep)` for a separator of one byte: the part before the first one, and the rest.
unfoldable pub split_at : ℕ → Bytes → Bytes → List Bytes
split_at sep [] part = part ∷ []
split_at sep (c ∷ cs) part =
    let rest = split_at sep cs [] in
    let longer = split_at sep cs (part ++ (c ∷ [])) in if c == sep then part ∷ rest else longer

unfoldable pub split : Bytes → List Bytes
unfolding split_at
split s = split_at b'/' s []

-- `strings.Join(parts, sep)`
unfoldable pub join : Bytes → List Bytes → Bytes
join sep [] = []
join sep (p ∷ []) = p
join sep (p ∷ q ∷ ps) = p ++ (sep ++ join sep (q ∷ ps))

abbrev last_is_brace : Bytes → Bool
last_is_brace [] = false
last_is_brace (c ∷ []) = c == b'}'
last_is_brace (c ∷ d ∷ cs) = not (c == b'}') && last_is_brace (d ∷ cs)

abbrev has_two : Bytes → Bool
has_two [] = false
has_two (c ∷ []) = false
has_two (c ∷ d ∷ cs) = true

-- varPattern: `^\{[^}]+\}$`
unfoldable pub is_variable : Bytes → Bool
is_variable [] = false
is_variable (c ∷ cs) = c == b'{' && (has_two cs && last_is_brace cs)

-- `varPattern.MatchString(seg) || seg == "*"`
unfoldable pub is_wild : Bytes → Bool
unfolding is_variable
is_wild seg = is_variable seg || bytes_eq seg (codes "*")

unfoldable pub starred : List Bytes → List Bytes
unfolding is_variable
starred [] = []
starred (seg ∷ segs) = (if is_variable seg then codes "*" else seg) ∷ starred segs

-- NormalizePattern
unfoldable pub normalize_pattern : Bytes → Bytes
unfolding split starred join
normalize_pattern pattern = join (codes "/") (starred (split pattern))

abbrev order_text : Order → Bytes
order_text asc = codes "asc"
order_text desc = codes "desc"
order_text no_order = []
order_text (other_order o) = o

abbrev identity_part : TemplateField → Bytes
identity_part f =
    f.field
    ++ (elim f.mode [ membership ↦ codes ":membership" | _ ↦ codes ":" ++ order_text f.order ])

abbrev identity_parts : List TemplateField → List Bytes
identity_parts [] = []
identity_parts (f ∷ fs) = identity_part f ∷ identity_parts fs

abbrev is_nil : {A : Type 0} → List A → Bool
is_nil [] = true
is_nil (x ∷ xs) = false

-- Template.Identity
unfoldable pub identity : Template → Bytes
unfolding join
identity t = if not (is_nil t.name) then t.name else join (codes ",") (identity_parts t.fields)

unfoldable pub contains : Bytes → List Bytes → Bool
contains x [] = false
contains x (y ∷ ys) = bytes_eq y x || contains x ys

-- The members of a membership dimension that the documents' metadata has taken.
abbrev metadata_fields : List Bytes
metadata_fields =
    codes "id"
    ∷ codes "collection"
    ∷ codes "version"
    ∷ codes "createdAt"
    ∷ codes "updatedAt"
    ∷ codes "deleted"
    ∷ []

abbrev is_direction : Order → Bool
is_direction asc = true
is_direction desc = true
is_direction _ = false

abbrev is_ascending : Order → Bool
is_ascending asc = true
is_ascending no_order = true
is_ascending _ = false

-- The switch on the mode, with the number of memberships before the field.
abbrev check_mode : TemplateField → Mode → Bool → Result TemplateError Unit
check_mode f scalar counted = require (is_direction f.order) invalid_direction
check_mode f no_mode counted = require (is_direction f.order) invalid_direction
check_mode f membership counted =
    (require (not counted) too_many_memberships >> require (is_ascending f.order) membership_order)
    >> require (not (contains f.field metadata_fields)) metadata_membership
check_mode f other_mode counted = err invalid_mode

abbrev is_membership : Mode → Bool
is_membership membership = true
is_membership _ = false

abbrev check_field : TemplateField → Result TemplateError Unit
check_field f = require (validate_query_field f.field) invalid_field

-- The loop of ValidateTemplate, with the names seen and whether a membership was.
unfoldable pub validate_fields : List TemplateField → List Bytes → Bool → Result TemplateError Unit
unfolding contains
validate_fields [] seen counted = ok tt
validate_fields (f ∷ fs) seen counted =
    let rest = validate_fields fs (f.field ∷ seen) (counted || is_membership f.mode) in
    check_field f
    >> check_mode f f.mode counted
    >> require (not (contains f.field seen)) duplicate_field
    >> rest

-- ValidateTemplate
unfoldable pub validate_template : Template → Result TemplateError Unit
unfolding validate_fields split contains
validate_template t =
    require (not (is_nil t.collection_pattern)) empty_pattern
    >> require (not (contains [] (split t.collection_pattern))) empty_segment
    >> require (not (is_nil t.fields)) no_fields
    >> validate_fields t.fields [] false

-- The loop of ValidateTemplates, with the keys and the fingerprints seen.
unfoldable pub validate_distinct :
    (Template → Bytes) → List Template → List Bytes → List Bytes → Result TemplateError Unit
unfolding contains normalize_pattern identity
validate_distinct fingerprint [] keys prints = ok tt
validate_distinct fingerprint (t ∷ ts) keys prints =
    let key = normalize_pattern t.collection_pattern ++ (codes "|" ++ identity t) in
    let rest = validate_distinct fingerprint ts (key ∷ keys) (fingerprint t ∷ prints) in
    require (not (contains key keys)) duplicate_template
    >> require (not (contains (fingerprint t) prints)) duplicate_template
    >> rest

-- ValidateTemplates
unfoldable pub validate_templates : (Template → Bytes) → List Template → Result TemplateError Unit
unfolding validate_distinct
validate_templates fingerprint ts = validate_distinct fingerprint ts [] []
