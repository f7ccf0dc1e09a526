-- ===== src/Store/Model.antt =====
-- internal/store/store.go and users.go: the state of the store and what reads it.
use devops_tools.Prelude.{
  is_empty, ℕ, Text, Bool, false, not, ◌&&◌, ◌||◌, Option, none, some, List, [], ◌∷◌,
}
use devops_tools.Prelude.{Dict, lookup, has_key, trim_space, to_lower, if◌then◌else◌}
use devops_tools.Prelude.{leb, eqb, length, all, map, sort_by}
use devops_tools.Config.Roles.{RoleSpec}

-- Nanoseconds on one clock; 0 is the zero time.
abbrev pub Time : Type 0
Time = ℕ

pub record User : Type 0 where
  pub username : Text
  pub email : Text
  pub provider : Text
  pub groups : List Text
  pub roles : List Text
  pub first_seen : Time
  pub last_seen : Time
  pub password_hash : Text
  pub managed : Bool

-- What a change may touch: the three maps, and the mark of unwritten sightings.
pub record Model : Type 0 where
  pub users : Dict User
  pub roles : Dict RoleSpec
  pub lockouts : Dict Time
  pub seen_dirty : Bool

-- The sentinels that the errors of the store wrap; `other` stands for an error of a backend.
pub data Error : Type 0 where
  not_found already_exists not_managed invalid_username conflict not_exist unreadable : Error
  newer_format no_users : Error
  other : Text → Error

-- How a change ends: with something to write, with errNoChange, or with an error.
pub data Verdict : Type 0 where
  write no_change : Verdict
  fail : Error → Verdict

-- What a change leaves: its verdict, the model, and what it assigned for its caller.
pub record Step (A : Type 0) : Type 0 where
  pub verdict : Verdict
  pub model : Model
  pub out : A

abbrev pub Change : Type 0 → Type 0
Change A = Time → Model → Step A

-- The key of a username.
unfoldable pub key : Text → Text
key username = to_lower (trim_space username)

unfoldable pub invited : User → Bool
invited u = eqb u.last_seen 0

unfoldable pub count : Model → ℕ
count m = length m.users

unfoldable pub roles_for : Model → Text → List Text
roles_for m username = elim (lookup (key username) m.users) [ none ↦ [] | some u ↦ u.roles ]

unfoldable pub groups_for : Model → Text → List Text
groups_for m username = elim (lookup (key username) m.users) [ none ↦ [] | some u ↦ u.groups ]

unfoldable pub get : Model → Text → Option User
get m username = lookup (key username) m.users

unfoldable pub known : Model → Text → Bool
known m username = has_key (key username) m.users

-- The hash of an account that signs in with a password held here.
unfoldable pub local_credential : Model → Text → Option Text
local_credential m username = elim (lookup (key username) m.users) [
  | none ↦ none
  | some u ↦ if not u.managed || is_empty u.password_hash then none else some u.password_hash
]

-- Every user, in the order of the usernames.
unfoldable pub list_users : Model → List User
list_users m = sort_by (λ u. u.username) (map (λ (_, u). u) m.users)

-- The character classes of `usernamePattern`.
unfoldable pub is_alnum : ℕ → Bool
is_alnum c = (leb b'a' c && leb c b'z') || (leb b'A' c && leb c b'Z') || (leb b'0' c && leb c b'9')

unfoldable pub is_name_char : ℕ → Bool
is_name_char c = is_alnum c || eqb c b'.' || eqb c b'_' || eqb c b'-'

unfoldable pub matches_pattern : Text → Bool
matches_pattern [] = false
matches_pattern (c ∷ rest) =
    is_alnum c && all is_name_char rest && leb 1 (length rest) && leb (length rest) 63

unfoldable pub validate_username : Text → Option Error
validate_username name = if not (matches_pattern name) then some invalid_username else none
