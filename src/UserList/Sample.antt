-- ===== src/UserList/Sample.antt =====
-- Two users out of order, and a sort by insertion, for the tests of authorizer.go.
use s3ftpgateway.Base.{
  ◌≡◌, ◌≢◌, refl, sym, ◌∙◌, inl, inr, ◌↔◌, false, List, [], ◌∷◌, if◌then◌else◌, Bytes, codes, beq,
  ok, arith, Bool-cases,
}
use s3ftpgateway.Text.{less}
use s3ftpgateway.Text.Order.{less-asym, not_less_trans}
use s3ftpgateway.UserList.{
  Value, text, dict, Items, end, item, done, field, AuthUser, read_users, read_user, value_at,
}
use s3ftpgateway.UserList.Users.{Has, NoneIsLess, IsSorted, Sorts, HasDistinctNames}

unfoldable pub insert_user : AuthUser → List AuthUser → List AuthUser
insert_user u [] = u ∷ []
insert_user u (v ∷ vs) =
    let rest = insert_user u vs in if less v.name u.name then v ∷ rest else u ∷ v ∷ vs

unfoldable pub sort_users : List AuthUser → List AuthUser
sort_users [] = []
sort_users (u ∷ us) = insert_user u (sort_users us)

NoneIsLess-insert_user :
    (name : Bytes) (u : AuthUser) (us : List AuthUser)
    → less u.name name ≡ false
    → NoneIsLess name us
    → NoneIsLess name (insert_user u us)
unfolding insert_user
NoneIsLess-insert_user name u [] p h = (p, tt)
NoneIsLess-insert_user name u (v ∷ vs) p h = ground (arith, NoneIsLess-insert_user name u vs p h.1)

NoneIsLess-trans :
    (a b : Bytes) (us : List AuthUser) → less b a ≡ false → NoneIsLess b us → NoneIsLess a us
NoneIsLess-trans a b [] p h = tt
NoneIsLess-trans a b (v ∷ vs) p h = (not_less_trans a b v.name p h.0, NoneIsLess-trans a b vs p h.1)

insert_user-IsSorted :
    (u : AuthUser) (us : List AuthUser) → IsSorted us → IsSorted (insert_user u us)
unfolding insert_user
insert_user-IsSorted u [] h = (tt, tt)
insert_user-IsSorted u (v ∷ vs) h = elim (Bool-cases (less v.name u.name)) [
  | inl first ↦ rw first (
    NoneIsLess-insert_user v.name u vs (less-asym v.name u.name first) h.0,
    insert_user-IsSorted u vs h.1,
  )
  | inr later ↦ rw later ((later, NoneIsLess-trans u.name v.name vs later h.0), h)
]

sort_users-IsSorted : (us : List AuthUser) → IsSorted (sort_users us)
unfolding sort_users
sort_users-IsSorted [] = tt
sort_users-IsSorted (u ∷ us) = insert_user-IsSorted u (sort_users us) (sort_users-IsSorted us)

Has-insert_user : (w u : AuthUser) (us : List AuthUser) → Has w (insert_user u us) ↔ Has w (u ∷ us)
unfolding insert_user
Has-insert_user w u [] = (λ h. h, λ h. h)
Has-insert_user w u (v ∷ vs) = elim (Bool-cases (less v.name u.name)) [
  | inr later ↦ rw later (λ h. h, λ h. h)
  | inl first ↦
      let ih = Has-insert_user w u vs in
      rw first (
        λ h. elim h [
          | inl e ↦ inr (inl e)
          | inr k ↦ elim (ih.0 k) [ inl e ↦ inl e | inr l ↦ inr (inr l) ]
        ],
        λ h. elim h [
          | inl e ↦ inr (ih.1 (inl e))
          | inr k ↦ elim k [ inl e ↦ inl e | inr l ↦ inr (ih.1 (inr l)) ]
        ],
      )
]

Has-sort_users : (us : List AuthUser) (w : AuthUser) → Has w (sort_users us) ↔ Has w us
unfolding sort_users
Has-sort_users [] w = (λ h. h, λ h. h)
Has-sort_users (u ∷ us) w =
    let ih = Has-sort_users us w in
    let step = Has-insert_user w u (sort_users us) in
    (
      λ h. elim (step.0 h) [ inl e ↦ inl e | inr k ↦ inr (ih.0 k) ],
      λ h. elim h [ inl e ↦ step.1 (inl e) | inr k ↦ step.1 (inr (ih.1 k)) ],
    )

pub sort_users-Sorts : Sorts sort_users
sort_users-Sorts = record { sorted = sort_users-IsSorted; same = Has-sort_users }

abbrev user_named : Bytes → Value
user_named name = dict (
    field (text (codes "name")) (text name)
      (field (text (codes "password")) (text (codes "hash")) done))

abbrev pub users : Items
users = item (user_named (98 ∷ [])) (item (user_named (97 ∷ [])) end)

abbrev pub bob : AuthUser
bob = record { name = 98 ∷ []; password = codes "hash" }

abbrev pub alice : AuthUser
alice = record { name = 97 ∷ []; password = codes "hash" }

pub users_read : read_users users ≡ ok (bob ∷ alice ∷ [])
unfolding read_users read_user value_at codes beq
users_read = refl

names-differ : alice.name ≢ bob.name
names-differ e = ground arith

pub distinct : HasDistinctNames (bob ∷ alice ∷ [])
distinct u v (inl p) (inl q) e = p ∙ sym q
distinct u v (inl p) (inr (inl q)) e = absurd (ground (arith, names-differ))
distinct u v (inr (inl p)) (inl q) e = absurd (ground (arith, names-differ))
distinct u v (inr (inl p)) (inr (inl q)) e = p ∙ sym q
distinct u v (inr (inr p)) h e = elim p [ ]
distinct u v h (inr (inr q)) e = elim q [ ]
