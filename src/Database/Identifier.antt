-- ===== src/Database/Identifier.antt =====
-- Identifiers and slugs: packages/syntrix/internal/core/database/id.go.
pub mod Slugs
use syntrix.Common.{
  ℕ, ◌-◌, Bool, true, false, not, ◌&&◌, ◌||◌, Option, none, some, List, [], ◌∷◌, Bytes, codes,
  bytes_eq, ltb, leb, ◌==◌, if◌then◌else◌, length, take, drop, Result, ok, err,
}
use syntrix.Database.Types.{
  DatabaseError, invalid_database_id, invalid_slug_length, invalid_slug_format, reserved_slug,
}

-- `lo <= c && c <= hi`
abbrev pub is_between : ℕ → ℕ → ℕ → Bool
is_between lo hi c = leb lo c && leb c hi

abbrev pub is_hex : ℕ → Bool
is_hex c = is_between b'0' b'9' c || is_between b'a' b'f' c

unfoldable pub all : (ℕ → Bool) → Bytes → Bool
all p [] = true
all p (c ∷ cs) = p c && all p cs

-- ValidateID. The source walks runes, but every rune that it takes is one byte.
unfoldable pub validate_id : Bytes → Result DatabaseError Unit
validate_id id =
    if not (length id == 16)
    then err invalid_database_id
    else if all is_hex id
    then ok tt
    else err invalid_database_id

abbrev pub is_slug_byte : ℕ → Bool
is_slug_byte c = is_between b'a' b'z' c || (is_between b'0' b'9' c || c == b'-')

-- slugRegexp: `^[a-z][a-z0-9-]{2,62}$`
unfoldable pub matches_slug : Bytes → Bool
unfolding all
matches_slug [] = false
matches_slug (c ∷ cs) =
    is_between b'a' b'z' c && (all is_slug_byte cs && is_between 2 62 (length cs))

-- ReservedSlugs, IsReservedSlug
unfoldable pub is_reserved_slug : Bytes → Bool
is_reserved_slug slug =
    bytes_eq slug (codes "default")
    || (bytes_eq slug (codes "admin")
        || (bytes_eq slug (codes "system")
            || (bytes_eq slug (codes "api") || bytes_eq slug (codes "auth"))))

abbrev pub is_empty : Bytes → Bool
is_empty [] = true
is_empty (c ∷ cs) = false

-- ValidateSlugForSystem
unfoldable pub validate_slug_for_system : Bytes → Result DatabaseError Unit
validate_slug_for_system slug =
    if is_empty slug
    then ok tt
    else if not (matches_slug slug)
    then (if ltb (length slug) 3 || ltb 63 (length slug)
        then err invalid_slug_length
        else err invalid_slug_format)
    else ok tt

-- ValidateSlug
unfoldable pub validate_slug : Bytes → Result DatabaseError Unit
validate_slug slug =
    if is_empty slug
    then ok tt
    else if not (matches_slug slug)
    then (if ltb (length slug) 3 || ltb 63 (length slug)
        then err invalid_slug_length
        else err invalid_slug_format)
    else if is_reserved_slug slug
    then err reserved_slug
    else ok tt

-- What ParseIdentifier returns: its flag with the one string that is not empty by construction.
pub data Identifier : Type 0 where
  by_id by_slug : Bytes → Identifier

-- ParseIdentifier
unfoldable pub parse_identifier : Bytes → Identifier
parse_identifier identifier =
    if bytes_eq (take 3 identifier) (codes "id:")
    then by_id (drop 3 identifier)
    else by_slug identifier
