-- ===== src/LifeCycle/Conns.antt =====
-- Predicates on the sessions of the connections of a server of ftp/server.go.
use s3ftpgateway.Base.{ℕ, ◌≡◌, refl, true, List, [], ◌∷◌, ◌++◌, map, ◌==◌, Bool-cases, inl, inr}
use s3ftpgateway.Session.{Session}
use s3ftpgateway.LifeCycle.{Connection, others, close_conn}

module _ {S : Type 0} where
  abbrev pub All : (Session S → Type 0) → List (Connection S) → Type 0
  All P [] = Unit
  All P (c ∷ cs) = P c.session × All P cs

  abbrev pub IsClosed : Session S → Type 0
  IsClosed x = x.closed ≡ true

  pub All-append :
      (P : Session S → Type 0) (cs ds : List (Connection S))
      → All P cs
      → All P ds
      → All P (cs ++ ds)
  All-append P [] ds h k = k
  All-append P (c ∷ cs) ds h k = (h.0, All-append P cs ds h.1 k)

  pub All-close : (cs : List (Connection S)) → All IsClosed (map close_conn cs)
  All-close [] = tt
  All-close (c ∷ cs) = (refl, All-close cs)

  pub All-others :
      (P : Session S → Type 0) (n : ℕ) (cs : List (Connection S)) → All P cs → All P (others n cs)
  unfolding others
  All-others P n [] h = tt
  All-others P n (c ∷ cs) h = elim (Bool-cases (c.name == n)) [
    | inl same ↦ rw same (All-others P n cs h.1)
    | inr differ ↦ rw differ (h.0, All-others P n cs h.1)
  ]

  pub All-replaced :
      (P : Session S → Type 0) (before after : List (Connection S)) (c d : Connection S)
      → (P c.session → P d.session)
      → All P (before ++ c ∷ after)
      → All P (before ++ d ∷ after)
  All-replaced P [] after c d f h = (f h.0, h.1)
  All-replaced P (b ∷ bs) after c d f h = (h.0, All-replaced P bs after c d f h.1)

  pub All-map :
      (P Q : Session S → Type 0) (cs : List (Connection S))
      → ((x : Session S) → P x → Q x)
      → All P cs
      → All Q cs
  All-map P Q [] f h = tt
  All-map P Q (c ∷ cs) f h = (f c.session h.0, All-map P Q cs f h.1)
