-- ===== src/Store/Users.antt =====
-- internal/store/users.go and store.go: the changes to the users, as `mutate` runs them.
pub mod Seen
pub mod Accounts
use devops_tools.Prelude.{
  is_empty, Text, text, Bool, true, false, not, ◌&&◌, ◌||◌, Option, none, some, List, [], ◌∷◌,
}
use devops_tools.Prelude.{lookup, insert, erase, has_key, ◌==◌, if◌then◌else◌, contains, trim_space}
use devops_tools.Store.Model.{User, Model, Change, Step, write, no_change, fail, key, invited}
use devops_tools.Store.Model.{already_exists, not_found, not_managed}

unfoldable pub same_strings : List Text → List Text → Bool
same_strings [] [] = true
same_strings (a ∷ l) (b ∷ r) = a == b && same_strings l r
same_strings _ _ = false

abbrev pub put_user : Text → User → Model → Model
put_user username u m = record m { users = insert (key username) u m.users }

unfoldable pub record_seen : Text → Text → Text → List Text → List Text → Change Unit
record_seen username email provider groups initial_roles now m =
    elim (lookup (key username) m.users) [
      | none ↦ record {
        verdict = write;
        model =
            put_user username
              (record {
                username = username;
                email = email;
                provider = provider;
                groups = groups;
                roles = initial_roles;
                first_seen = now;
                last_seen = now;
                password_hash = [];
                managed = false;
              })
              m;
        out = tt;
      }
      | some u ↦
          let claimed = invited u in
          let changed =
            claimed
            || not (u.email == email)
            || not (u.provider == provider)
            || not (same_strings u.groups groups) in
          let seen =
            put_user username
              (record u {
                username = username;
                email = email;
                provider = provider;
                groups = groups;
                last_seen = now;
              })
              m in
          if not changed
          then record { verdict = no_change; model = record seen { seen_dirty = true }; out = tt }
          else record { verdict = write; model = seen; out = tt }
    ]

unfoldable pub create_local_user : Text → Text → Text → List Text → Change Unit
create_local_user username email password_hash roles now m =
    if has_key (key username) m.users
    then record { verdict = fail already_exists; model = m; out = tt }
    else record {
      verdict = write;
      model =
          put_user username
            (record {
              username = username;
              email = email;
              provider = text "local";
              groups = [];
              roles = roles;
              first_seen = now;
              last_seen = 0;
              password_hash = password_hash;
              managed = true;
            })
            m;
      out = tt;
    }

unfoldable pub invite : Text → Text → List Text → Change Unit
invite username email roles now m =
    if has_key (key username) m.users
    then record { verdict = fail already_exists; model = m; out = tt }
    else record {
      verdict = write;
      model =
          put_user username
            (record {
              username = username;
              email = email;
              provider = [];
              groups = [];
              roles = roles;
              first_seen = now;
              last_seen = 0;
              password_hash = [];
              managed = false;
            })
            m;
      out = tt;
    }

unfoldable pub set_password : Text → Text → Change Unit
set_password username password_hash now m = elim (lookup (key username) m.users) [
  | none ↦ record { verdict = fail not_found; model = m; out = tt }
  | some u ↦
      if not u.managed then record { verdict = fail not_managed; model = m; out = tt } else record {
        verdict = write;
        model = put_user username (record u { password_hash = password_hash }) m;
        out = tt;
      }
]

unfoldable pub set_roles : Text → List Text → Change Unit
set_roles username roles now m = elim (lookup (key username) m.users) [
  | none ↦ record { verdict = fail not_found; model = m; out = tt }
  | some u ↦ record {
    verdict = write;
    model = put_user username (record u { roles = roles }) m;
    out = tt;
  }
]

unfoldable pub delete_user : Text → Change Unit
delete_user username now m =
    if not (has_key (key username) m.users)
    then record { verdict = fail not_found; model = m; out = tt }
    else record {
      verdict = write;
      model = record m { users = erase (key username) m.users };
      out = tt;
    }

-- The loop of NormaliseRoles: `seen` is its map.
unfoldable pub normalise_from : List Text → List Text → List Text
normalise_from seen [] = []
normalise_from seen (r ∷ roles) =
    let name = trim_space r in
    let skipped = normalise_from seen roles in
    let kept = normalise_from (name ∷ seen) roles in
    if is_empty name || contains seen name then skipped else name ∷ kept

unfoldable pub normalise_roles : List Text → List Text
normalise_roles roles = normalise_from [] roles
