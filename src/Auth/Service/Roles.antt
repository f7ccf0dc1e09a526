-- ===== src/Auth/Service/Roles.antt =====
-- The roles of an account (internal/auth/auth.go).
use devops_tools.Prelude.{
  Text, ◌≡◌, arith, not, ◌&&◌, ◌||◌, none, some, List, [], contains, filter, contains-append,
  contains-filter,
}
use devops_tools.Auth.Service.{Service, grants, roles_for}

module _ {D : Type 0} (s : Service D) where
  -- What the directory holds for a name.
  abbrev pub assigned : Text → D → List Text
  assigned username d = elim s.dir as (λ _. List Text) [
    | none ↦ []
    | some dir ↦ dir.roles_for d username
  ]

  -- The roles of an account are those that the directory holds, and those of the bootstrap grant
  -- if it names the account.
  pub contains-roles_for :
      (username : Text) (d : D) (r : Text)
      → contains (roles_for s username d) r ≡ (
          contains (assigned username d) r
          || (grants s.bootstrap username && contains s.bootstrap.roles r))
  unfolding roles_for
  contains-roles_for username d r = ground (
    arith,
    contains-append r (assigned username d)
        (filter (λ x. not (contains (assigned username d) x)) s.bootstrap.roles),
    contains-filter (λ x. not (contains (assigned username d) x)) r s.bootstrap.roles,
  )
