-- ===== src/UserList.antt =====
-- authorizer.go: the user list of the configuration, and the authorizer that looks users up in it.
-- The comparison of a password with its hash, `bcrypt.CompareHashAndPassword`, and the order in
-- which `sort.Sort` leaves the users are parameters.
pub mod Search
pub mod Users
pub mod Sample
use s3ftpgateway.Base.{
  ℕ, zero, suc, ◌+◌, ◌/◌, Bool, true, false, not, Option, none, some, List, [], ◌∷◌, ltb,
  if◌then◌else◌, length, get_elem?, get_or, Bytes, codes, beq, Result, ok, err,
}
use s3ftpgateway.Session.{AuthError, authorize_failed, Authorization, Authorizer, Server}
use s3ftpgateway.Text.{less}

-- What a configuration decodes to. The keys of a map are of any type.
mutual
  pub data Value : Type 0 where
    text : Bytes → Value
    array : Items → Value
    dict : Fields → Value
    scalar : Value

  pub data Items : Type 0 where
    end : Items
    item : Value → Items → Items

  pub data Fields : Type 0 where
    done : Fields
    field : Value → Value → Fields → Fields

-- `m[key]` for a string key.
unfoldable pub value_at : Bytes → Fields → Option Value
value_at key done = none
value_at key (field (text k) v m) = let rest = value_at key m in if beq k key then some v else rest
value_at key (field _ v m) = value_at key m

pub data ConfigError : Type 0 where
  unknown_method users_not_array user_not_map name_not_string password_not_string : ConfigError

-- `authUser`
pub record AuthUser : Type 0 where
  pub name : Bytes
  pub password : Bytes

abbrev string_at : Bytes → Fields → Option Bytes
string_at key m = elim (value_at key m) [ some (text s) ↦ some s | _ ↦ none ]

unfoldable pub read_user : Value → Result ConfigError AuthUser
unfolding value_at
read_user (dict m) = elim (string_at (codes "name") m) [
  | none ↦ err name_not_string
  | some name ↦ elim (string_at (codes "password") m) [
    | none ↦ err password_not_string
    | some password ↦ ok (record { name = name; password = password })
  ]
]
read_user _ = err user_not_map

abbrev add_user :
    Result ConfigError AuthUser
    → Result ConfigError (List AuthUser)
    → Result ConfigError (List AuthUser)
add_user (err e) rest = err e
add_user (ok u) (err e) = err e
add_user (ok u) (ok us) = ok (u ∷ us)

-- The loop over the users; it stops at the first error.
unfoldable pub read_users : Items → Result ConfigError (List AuthUser)
read_users end = ok []
read_users (item v vs) = let rest = read_users vs in add_user (read_user v) rest

-- `sort.Search`: bisection of [i, j), with the rounds that are left.
search_loop : ℕ → (ℕ → Bool) → ℕ → ℕ → ℕ
search_loop zero f i j = i
search_loop (suc k) f i j =
    let h = (i + j) / 2 in
    let upper = search_loop k f (h + 1) j in
    let lower = search_loop k f i h in if ltb i j then (if f h then lower else upper) else i

unfoldable pub search_least : ℕ → (ℕ → Bool) → ℕ
unfolding search_loop
search_least n f = search_loop (suc n) f 0 n

-- `a.Users[i].Name`; the index is in range wherever it is used.
abbrev pub name_at : List AuthUser → ℕ → Bytes
name_at users i = (get_or users i (record { name = []; password = [] })).name

-- `a.Users[i].Name >= user`
abbrev pub not_below : List AuthUser → Bytes → ℕ → Bool
not_below users user i = not (less (name_at users i) user)

module _ {S : Type 0} (compare_hash : Bytes → Bytes → Bool) (srv : Server S) where
  abbrev check_user : Bytes → Bytes → Option AuthUser → Result AuthError (Authorization S)
  check_user user password none = err authorize_failed
  check_user user password (some u) =
      if not (beq u.name user)
      then err authorize_failed
      else if not (compare_hash u.password password)
      then err authorize_failed
      else ok (record { user = user; file_system = srv.file_system })

  -- `userListAuthorizer.Authorize`. An index behind the end reads as no user.
  unfoldable pub authorize_user : List AuthUser → Authorizer S
  authorize_user users user password =
      check_user user password
        (get_elem? users (search_least (length users) (not_below users user)))

  -- `newUserListAuthorizer`, from the value under "users".
  unfoldable pub new_user_list :
      (List AuthUser → List AuthUser) → Option Value → Result ConfigError (Authorizer S)
  new_user_list sort (some (array vs)) = elim (read_users vs) [
    | err e ↦ err e
    | ok users ↦ ok (authorize_user (sort users))
  ]
  new_user_list sort _ = err users_not_array

  -- `NewAuthorizer`
  unfoldable pub new_authorizer :
      (List AuthUser → List AuthUser) → Bytes → Option Value → Result ConfigError (Authorizer S)
  new_authorizer sort method users =
      if beq method (codes "userlist") then new_user_list sort users else err unknown_method
