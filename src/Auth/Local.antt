-- ===== src/Auth/Local.antt =====
-- internal/auth/local.go: accounts of the configuration and of the portal.
pub mod Precedence
use devops_tools.Prelude.{
  Text, Bool, true, false, not, ◌||◌, Option, none, some, List, [], ◌∷◌, Dict, lookup, insert,
  has_key, to_lower, if◌then◌else◌,
}
use devops_tools.Auth.Service.{Account, Bcrypt, Provider, dummy_hash}

-- config.LocalUser
pub record LocalUser : Type 0 where
  pub username : Text
  pub email : Text
  pub roles : List Text
  pub password_hash : Text

-- The loop of newLocalProvider over the configured users: `none` for a duplicate, or for a hash
-- that `is_hash`, bcrypt.Cost, refuses.
unfoldable pub index_users :
    (Text → Bool) → List LocalUser → Dict LocalUser → Option (Dict LocalUser)
index_users is_hash [] users = some users
index_users is_hash (u ∷ us) users =
    let rest = index_users is_hash us (insert (to_lower u.username) u users) in
    if has_key (to_lower u.username) users
    then none
    else if not (is_hash u.password_hash)
    then none
    else rest

module _ (bcrypt : Bcrypt) (users : Dict LocalUser) where
  unfoldable pub login_configured : Text → Text → Option Account
  login_configured username password =
      let found = lookup (to_lower username) users in
      let hash : Text = elim found [ none ↦ dummy_hash | some u ↦ u.password_hash ] in
      if not (bcrypt hash password) then none else elim found [
        | none ↦ none
        | some u ↦
            some (record { username = u.username; email = u.email; roles = u.roles; groups = [] })
      ]

  -- `store` is LocalCredential, of a directory that has it.
  unfoldable pub login : {D : Type 0} → Option (D → Text → Option Text) → Provider D
  login store username password d =
      elim (elim store as (λ _. Option Text) [
        | none ↦ none
        | some credential ↦ credential d username
      ]) [
        | none ↦ login_configured username password
        | some hash ↦
            if not (bcrypt hash password)
            then none
            else some (record { username = username; email = []; roles = []; groups = [] })
      ]
