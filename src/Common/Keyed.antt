-- ===== src/Common/Keyed.antt =====
-- Go maps whose keys are structs, as association lists with the `==` of the struct.
use mathlib.Core.Path.{◌≡◌}
use mathlib.Core.Logic.{◌↔◌}
use mathlib.Core.Bool.{Bool, true}
use mathlib.Core.Option.{Option, none, some}
use mathlib.Core.List.{List, [], ◌∷◌}
use native.Mathlib.Omega.{arith}
use syntrix.Common.Tests.{if◌then◌else◌}

abbrev pub KeyedMap : Type 0 → Type 0 → Type 0
KeyedMap K V = List (K × V)

module _ {K V : Type 0} (eq : K → K → Bool) where
  -- `m[k]`
  unfoldable pub find : K → KeyedMap K V → Option V
  find k [] = none
  find k ((j, v) ∷ m) = if eq j k then some v else find k m

  -- `m[k] = v`
  unfoldable pub set : K → V → KeyedMap K V → KeyedMap K V
  set k v [] = (k, v) ∷ []
  set k v ((j, w) ∷ m) = let rest = set k v m in if eq j k then (j, v) ∷ m else (j, w) ∷ rest

-- `delete(m, k)` for each key that has a property
unfoldable pub drop_keys : {K V : Type 0} → (K → Bool) → KeyedMap K V → KeyedMap K V
drop_keys f [] = []
drop_keys f ((j, v) ∷ m) = let rest = drop_keys f m in if f j then rest else (j, v) ∷ rest

module _ {K V : Type 0} (eq : K → K → Bool) (eq-iff : (a b : K) → (eq a b ≡ true) ↔ (a ≡ b)) where
  pub find-set :
      (k j : K) (v : V) (m : KeyedMap K V)
      → find eq j (set eq k v m) ≡ (if eq k j then some v else find eq j m)
  unfolding find set
  find-set k j v [] = ground arith
  find-set k j v ((i, w) ∷ m) = ground (arith, eq-iff k j, eq-iff i k, eq-iff i j, find-set k j v m)

  pub find-drop_keys :
      (f : K → Bool) (j : K) (m : KeyedMap K V)
      → find eq j (drop_keys f m) ≡ (if f j then none else find eq j m)
  unfolding find drop_keys
  find-drop_keys f j [] = ground arith
  find-drop_keys f j ((i, w) ∷ m) = ground (arith, eq-iff i j, find-drop_keys f j m)
