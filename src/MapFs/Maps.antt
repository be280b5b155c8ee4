-- ===== src/MapFs/Maps.antt =====
-- The loops of vfs/mapfs/mapfs.go over names below a directory.
use s3ftpgateway.Base.{◌≡◌, refl, true, ◌||◌, [], ◌∷◌, Bytes, beq_iff, arith}
use s3ftpgateway.Text.{has_prefix}
use s3ftpgateway.GoMap.{Map, lookup, insert, contains}
use s3ftpgateway.MapFs.{any_below, any_other_below}

module _ {V : Type 0} where
  pub any_below-insert :
      (p k : Bytes) (v : V) (m : Map V)
      → any_below p (insert k v m) ≡ (has_prefix k p || any_below p m)
  unfolding any_below insert
  any_below-insert p k v [] = refl
  any_below-insert p k v ((i, w) ∷ m) = ground (arith, beq_iff i k, any_below-insert p k v m)

pub has_prefix_self : (p : Bytes) → has_prefix p p ≡ true
unfolding has_prefix
has_prefix_self [] = refl
has_prefix_self (b ∷ bs) = ground (arith, has_prefix_self bs)

module _ {V : Type 0} where
  -- A name that is in the map stands below itself.
  pub any_below-contains : (p : Bytes) (m : Map V) → contains p m ≡ true → any_below p m ≡ true
  unfolding any_below lookup
  any_below-contains p [] h = cc
  any_below-contains p ((i, w) ∷ m) h =
      ground (arith, beq_iff i p, has_prefix_self p, any_below-contains p m)

  -- Below a name stand the name itself and the others.
  pub any_below-split :
      (p : Bytes) (m : Map V) → any_below p m ≡ (contains p m || any_other_below p m)
  unfolding any_below any_other_below lookup
  any_below-split p [] = refl
  any_below-split p ((i, w) ∷ m) =
      ground (arith, beq_iff i p, has_prefix_self p, any_below-split p m)
