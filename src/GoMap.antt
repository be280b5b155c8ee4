-- ===== src/GoMap.antt =====
-- A Go map keyed by strings, as an association list.
pub mod Laws
use s3ftpgateway.Base.{
  Bool, true, false, Option, none, some, List, [], ◌∷◌, if◌then◌else◌, Bytes, beq,
}

abbrev pub Map : Type 0 → Type 0
Map V = List (Bytes × V)

module _ {V : Type 0} where
  unfoldable pub lookup : Bytes → Map V → Option V
  lookup k [] = none
  lookup k ((j, v) ∷ m) = if beq j k then some v else lookup k m

  -- `m[k] = v`
  unfoldable pub insert : Bytes → V → Map V → Map V
  insert k v [] = (k, v) ∷ []
  insert k v ((j, w) ∷ m) = if beq j k then (k, v) ∷ m else (j, w) ∷ insert k v m

  -- `delete(m, k)`: a key stands at most once, and every copy goes.
  unfoldable pub delete : Bytes → Map V → Map V
  delete k [] = []
  delete k ((j, w) ∷ m) = let rest = delete k m in if beq j k then rest else (j, w) ∷ rest

  -- `_, ok := m[k]`
  abbrev pub contains : Bytes → Map V → Bool
  contains k m = elim (lookup k m) [ none ↦ false | some _ ↦ true ]
