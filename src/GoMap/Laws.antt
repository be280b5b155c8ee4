-- ===== src/GoMap/Laws.antt =====
-- The laws of a Go map.
use s3ftpgateway.Base.{◌≡◌, refl, none, some, [], ◌∷◌, if◌then◌else◌, Bytes, beq, beq_iff, arith}
use s3ftpgateway.GoMap.{Map, lookup, insert, delete}

module _ {V : Type 0} where
  pub lookup-insert :
      (k j : Bytes) (v : V) (m : Map V)
      → lookup j (insert k v m) ≡ (if beq k j then some v else lookup j m)
  unfolding lookup insert
  lookup-insert k j v [] = refl
  lookup-insert k j v ((i, w) ∷ m) =
      ground (arith, beq_iff k j, beq_iff i k, beq_iff i j, lookup-insert k j v m)

  pub lookup-delete :
      (k j : Bytes) (m : Map V) → lookup j (delete k m) ≡ (if beq k j then none else lookup j m)
  unfolding lookup delete
  lookup-delete k j [] = ground arith
  lookup-delete k j ((i, w) ∷ m) =
      ground (arith, beq_iff k j, beq_iff i k, beq_iff i j, lookup-delete k j m)
