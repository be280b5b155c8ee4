-- ===== src/UserList/Users.antt =====
-- `Authorize` of authorizer.go against the list of users as it was configured.
use s3ftpgateway.Base.{
  ℕ, zero, suc, ◌≤◌, ◌<◌, ◌≡◌, refl, sym, ap, ◌∙◌, ◌⊎◌, inl, inr, ◌↔◌, Bool, true, false, Option,
  none, some, List, [], ◌∷◌, length, get_elem?, get_or, get_elem?-eq-get_or, Bytes, codes, beq,
  beq_iff, beq_refl, Result, ok, err, arith, Bool-cases,
}
use s3ftpgateway.Session.{AuthError, authorize_failed, Authorization, Server}
use s3ftpgateway.Text.{less}
use s3ftpgateway.Text.Order.{less_irrefl, not_less_trans, less-antisym}
use s3ftpgateway.UserList.Search.{Splits, search_least-Splits}
use s3ftpgateway.UserList.{
  AuthUser, array, Items, read_users, search_least, name_at, not_below, check_user, authorize_user,
  new_user_list, new_authorizer,
}

-- `u` is one of the users.
abbrev pub Has : AuthUser → List AuthUser → Type 0
Has u [] = ⊥
Has u (x ∷ xs) = (u ≡ x) ⊎ Has u xs

abbrev pub NoneIsLess : Bytes → List AuthUser → Type 0
NoneIsLess name [] = Unit
NoneIsLess name (x ∷ xs) = (less x.name name ≡ false) × NoneIsLess name xs

-- No user's name is less than an earlier one.
abbrev pub IsSorted : List AuthUser → Type 0
IsSorted [] = Unit
IsSorted (x ∷ xs) = NoneIsLess x.name xs × IsSorted xs

-- What `sort.Sort` promises, by the methods of `authUsers`: the same users, in order.
pub record Sorts (sort : List AuthUser → List AuthUser) : Type 0 where
  pub sorted : (us : List AuthUser) → IsSorted (sort us)
  pub same : (us : List AuthUser) (u : AuthUser) → Has u (sort us) ↔ Has u us

-- No two users share a name.
abbrev pub HasDistinctNames : List AuthUser → Type 0
HasDistinctNames us = (u v : AuthUser) → Has u us → Has v us → u.name ≡ v.name → u ≡ v

NoneIsLess-name_at :
    (name : Bytes) (us : List AuthUser) (i : ℕ)
    → NoneIsLess name us
    → i < length us
    → less (name_at us i) name ≡ false
NoneIsLess-name_at name [] i h lt = elim lt [ ]
NoneIsLess-name_at name (x ∷ xs) zero h lt = h.0
NoneIsLess-name_at name (x ∷ xs) (suc i) h lt = NoneIsLess-name_at name xs i h.1 (omega arith)

IsSorted-name_at :
    (us : List AuthUser) (i j : ℕ)
    → IsSorted us
    → i ≤ j
    → j < length us
    → less (name_at us j) (name_at us i) ≡ false
IsSorted-name_at [] i j h le lt = elim lt [ ]
IsSorted-name_at (x ∷ xs) zero zero h le lt = less_irrefl x.name
IsSorted-name_at (x ∷ xs) zero (suc j) h le lt = NoneIsLess-name_at x.name xs j h.0 (omega arith)
IsSorted-name_at (x ∷ xs) (suc i) zero h le lt = elim le [ ]
IsSorted-name_at (x ∷ xs) (suc i) (suc j) h le lt =
    IsSorted-name_at xs i j h.1 (omega arith) (omega arith)

index_of :
    (u : AuthUser) (us : List AuthUser)
    → Has u us
    → (i : ℕ) × (i < length us) × (name_at us i ≡ u.name)
index_of u [] h = elim h [ ]
index_of u (x ∷ xs) (inl e) = (0, omega arith, ap (λ (v : AuthUser). v.name) (sym e))
index_of u (x ∷ xs) (inr h) = let (i, lt, e) = index_of u xs h in (suc i, omega arith, e)

Has-get_elem? : (us : List AuthUser) (i : ℕ) (u : AuthUser) → get_elem? us i ≡ some u → Has u us
Has-get_elem? [] i u e = cc
Has-get_elem? (x ∷ xs) zero u e = inl (cc e)
Has-get_elem? (x ∷ xs) (suc i) u e = inr (Has-get_elem? xs i u e)

module _ (us : List AuthUser) (sorted : IsSorted us) (user : Bytes) where
  abbrev found : ℕ
  found = search_least (length us) (not_below us user)

  found-Splits : Splits (length us) (not_below us user) found
  found-Splits = search_least-Splits (length us) (not_below us user) λ i j le lt e. ground (
    arith,
    not_less_trans user (name_at us i) (name_at us j),
    IsSorted-name_at us i j sorted le lt,
  )

  -- A configured name stands where the search ends.
  name_at-found :
      (u : AuthUser)
      → Has u us
      → u.name ≡ user
      → (v : AuthUser) × (get_elem? us found ≡ some v) × (v.name ≡ user)
  name_at-found u h e =
      let (i, lt, at_i) = index_of u us h in
      let none_user : AuthUser = record { name = []; password = [] } in
      let le : found ≤ i = ground (arith, found-Splits.below i, less_irrefl user, at_i, e) in
      let inside : found < length us = omega arith in
      (
        get_or us found none_user,
        get_elem?-eq-get_or us found none_user inside,
        less-antisym (name_at us found) user (ground (arith, found-Splits.above found))
            (ground (arith, IsSorted-name_at us found i sorted le lt, at_i, e)),
      )

module _ {S : Type 0} (compare_hash : Bytes → Bytes → Bool) (srv : Server S) where
  -- What a successful `Authorize` returns.
  abbrev pub granted : Bytes → Authorization S
  granted user = record { user = user; file_system = srv.file_system }

  -- Some configured user has the name, and the password fits its hash.
  abbrev pub Knows : List AuthUser → Bytes → Bytes → Type 0
  Knows us user password =
      (u : AuthUser) × Has u us × (u.name ≡ user) × (compare_hash u.password password ≡ true)

  check_user-ok :
      (user password : Bytes) (found : Option AuthUser)
      → check_user compare_hash srv user password found ≡ ok (granted user)
      → (u : AuthUser) × (found ≡ some u)
        × (u.name ≡ user)
        × (compare_hash u.password password ≡ true)
  check_user-ok user password none e = cc
  check_user-ok user password (some u) e =
      (u, refl, ground (arith, beq_iff u.name user), ground arith)

  -- The two results of a check.
  check_user-cases :
      (user password : Bytes) (found : Option AuthUser)
      → (check_user compare_hash srv user password found ≡ ok (granted user))
        ⊎ (check_user compare_hash srv user password found ≡ err authorize_failed)
  check_user-cases user password none = inr refl
  check_user-cases user password (some u) = elim (Bool-cases (beq u.name user)) [
    | inr other ↦ inr (rw other)
    | inl same ↦ elim (Bool-cases (compare_hash u.password password)) [
      | inl fits ↦ inl (rw (same, fits))
      | inr wrong ↦ inr (rw (same, wrong))
    ]
  ]

  module _ (sort : List AuthUser → List AuthUser) (sorts : Sorts sort) where
    authorize_user-Knows :
        (us : List AuthUser) (user password : Bytes)
        → authorize_user compare_hash srv (sort us) user password ≡ ok (granted user)
        → Knows us user password
    unfolding authorize_user
    authorize_user-Knows us user password e =
        let at = search_least (length (sort us)) (not_below (sort us) user) in
        let (u, at_u, name, fits) = check_user-ok user password (get_elem? (sort us) at) e in
        (u, (sorts.same us u).0 (Has-get_elem? (sort us) at u at_u), name, fits)

    Knows-authorize_user :
        (us : List AuthUser) (user password : Bytes)
        → HasDistinctNames us
        → Knows us user password
        → authorize_user compare_hash srv (sort us) user password ≡ ok (granted user)
    unfolding authorize_user
    Knows-authorize_user us user password distinct (u, member, name, fits) =
        let at = search_least (length (sort us)) (not_below (sort us) user) in
        let (v, at_v, name') =
          name_at-found (sort us) (sorts.sorted us) user u ((sorts.same us u).1 member) name in
        let member' = (sorts.same us v).0 (Has-get_elem? (sort us) at v at_v) in
        let same : v ≡ u = distinct v u member' member (name' ∙ sym name) in
        rw at_v (ground (arith, beq_iff v.name user, same))

    -- The authorizer of a list of users without equal names lets a user in exactly if some user of the
    -- list has the name and the password fits its hash; it refuses all others.
    pub new_authorizer-Knows :
        (users : Items) (us : List AuthUser)
        → read_users users ≡ ok us
        → HasDistinctNames us
        → (auth : Bytes → Bytes → Result AuthError (Authorization S)) × (new_authorizer compare_hash
              srv sort
              (codes "userlist")
              (some (array users))
            ≡ ok auth)
          × ((user password : Bytes)
              → ((auth user password ≡ ok (granted user)) ↔ Knows us user password)
                × ((auth user password ≡ ok (granted user))
                    ⊎ (auth user password ≡ err authorize_failed)))
    unfolding new_authorizer new_user_list
    new_authorizer-Knows users us read distinct = (
      authorize_user compare_hash srv (sort us),
      rw (beq_refl (codes "userlist"), new_user_list, read) refl,
      λ user password. (
        (authorize_user-Knows us user password, Knows-authorize_user us user password distinct),
        unfold authorize_user in check_user-cases user password _,
      ),
    )
