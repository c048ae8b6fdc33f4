-- ===== src/Database/Types.antt =====
-- packages/syntrix/internal/core/database/types.go and the interface in store.go.
use syntrix.Common.{
  ℕ, ℤ, Bool, true, false, Option, none, some, List, Bytes, codes, bytes_eq, Result,
}

-- DatabaseStatus; `other_status` is any string that is no status.
pub data DatabaseStatus : Type 0 where
  status_active status_suspended status_deleting other_status : DatabaseStatus

-- DatabaseStatus.IsValid
abbrev pub is_valid_status : DatabaseStatus → Bool
is_valid_status other_status = false
is_valid_status _ = true

-- DatabaseSettings
pub record DatabaseSettings : Type 0 where
  pub max_documents : ℤ
  pub max_storage_bytes : ℤ

-- Database
pub record Database : Type 0 where
  pub id : Bytes
  pub slug : Option Bytes
  pub display_name : Bytes
  pub description : Option Bytes
  pub owner_id : Bytes
  pub created_at : ℕ
  pub updated_at : ℕ
  pub max_documents : ℤ
  pub max_storage_bytes : ℤ
  pub status : DatabaseStatus

-- The errors of the package; `other_error` is one that a store makes.
pub data DatabaseError : Type 0 where
  database_not_found database_exists database_suspended database_deleting protected_database :
      DatabaseError
  not_owner quota_exceeded reserved_slug invalid_slug_format invalid_slug_length : DatabaseError
  slug_immutable slug_exists invalid_database_id invalid_status display_name_required :
      DatabaseError
  other_error : Bytes → DatabaseError

abbrev is_protected_slug : Option Bytes → Bool
is_protected_slug none = false
is_protected_slug (some slug) = bytes_eq slug (codes "default")

-- Database.IsProtected
abbrev pub is_protected : Database → Bool
is_protected d = is_protected_slug d.slug

-- Database.Settings
abbrev pub settings : Database → DatabaseSettings
settings d = record { max_documents = d.max_documents; max_storage_bytes = d.max_storage_bytes }

-- ListOptions; an empty owner and no status are no filters.
pub record ListOptions : Type 0 where
  pub owner_id : Bytes
  pub status : Option DatabaseStatus
  pub limit : ℕ
  pub offset : ℕ

-- What the code uses of DatabaseStore, over the states of a store.
pub record DatabaseStore (Store : Type 0) : Type 0 where
  pub create : Database → Store → Result DatabaseError Store
  pub get : Bytes → Store → Result DatabaseError Database
  pub get_by_slug : Bytes → Store → Result DatabaseError Database
  pub list : ListOptions → Store → Result DatabaseError (List Database × ℕ)
  pub update : Database → Store → Result DatabaseError Store
  pub count_by_owner : Bytes → Store → Result DatabaseError ℕ
