-- ===== src/Store/Operations.antt =====
-- internal/store: the methods that change the store, each a change run by `mutate`.
pub mod Access
pub mod Following
use devops_tools.Prelude.{
  ℕ, Text, Bool, true, false, not, Option, none, some, List, [], ◌∷◌, text_dec, ◌==◌, if◌then◌else◌,
}
use devops_tools.Config.Roles.{RoleSpec, RbacConfig}
use devops_tools.Store.Model.{
  Model, Time, Error, not_exist, validate_username, write, no_change, Step, Change,
}
use devops_tools.Store.Users
use devops_tools.Store.Roles
use devops_tools.Store.Roles.{Membership}
use devops_tools.Store.Lockouts
use devops_tools.Store.Mutate.{Json, Backend, Store, Outcome, mutate, reload, persist, apply}

abbrev pub empty_model : Model
empty_model = record { users = []; roles = []; lockouts = []; seen_dirty = false }

-- errors.Is(err, fs.ErrNotExist)
unfoldable pub is_not_exist : Error → Bool
is_not_exist not_exist = true
is_not_exist _ = false

-- A replica's part of Follow: whether the caller is told of the change.
unfoldable pub follow : Json → Text → Text → Store → Bool × Store
follow json bytes version s =
    if version == s.version
    then (false, s)
    else let (e, s') = apply json bytes version s in
      elim e [ none ↦ (true, s') | some _ ↦ (false, s') ]

-- A method that checks a name before it changes anything.
unfoldable pub checked : {W : Type 0} → Option Error → Store → W → Outcome Unit W → Outcome Unit W
checked none s w o = o
checked (some e) s w o = record { error = some e; out = tt; store = s; world = w }

module _ (json : Json) {W : Type 0} (backend : Backend W) where
  unfoldable pub opened : Option Error × Store × W → Option Error × Store × W
  opened (none, s, w) = (none, s, w)
  opened (some e, s, w) = if not (is_not_exist e) then (some e, s, w) else persist json backend s w

  unfoldable pub open_with : W → Option Error × Store × W
  open_with w =
      opened (reload json backend (record { model = empty_model; version = []; last_write = 0 }) w)

  unfoldable pub record_seen :
      Text → Text → Text → List Text → List Text → Store → W → Outcome Unit W
  record_seen username email provider groups initial =
      mutate json backend (Users.record_seen username email provider groups initial)

  unfoldable pub create_local_user : Text → Text → Text → List Text → Store → W → Outcome Unit W
  create_local_user username email password_hash roles s w =
      checked (validate_username username) s w
        (mutate json backend (Users.create_local_user username email password_hash roles) s w)

  unfoldable pub invite : Text → Text → List Text → Store → W → Outcome Unit W
  invite username email roles = mutate json backend (Users.invite username email roles)

  unfoldable pub set_password : Text → Text → Store → W → Outcome Unit W
  set_password username password_hash =
      mutate json backend (Users.set_password username password_hash)

  unfoldable pub set_roles : Text → List Text → Store → W → Outcome Unit W
  set_roles username roles = mutate json backend (Users.set_roles username roles)

  unfoldable pub delete_user : Text → Store → W → Outcome Unit W
  delete_user username = mutate json backend (Users.delete_user username)

  unfoldable pub seed_roles : RbacConfig → Store → W → Outcome Bool W
  seed_roles cfg = mutate json backend (Roles.seed_roles cfg)

  unfoldable pub save_role : Text → RoleSpec → Store → W → Outcome Unit W
  save_role name spec s w =
      checked (validate_username name) s w (mutate json backend (Roles.save_role name spec) s w)

  unfoldable pub delete_role : Text → Store → W → Outcome (List Text) W
  delete_role name = mutate json backend (Roles.delete_role name)

  unfoldable pub change_role_membership : Text → List Text → Bool → Store → W → Outcome Membership W
  change_role_membership role usernames add =
      mutate json backend (Roles.change_role_membership role usernames add)

  unfoldable pub lock_until : Text → Time → Store → W → Outcome Unit W
  lock_until username until = mutate json backend (Lockouts.lock_until username until)

  unfoldable pub unlock : Text → Store → W → Outcome Unit W
  unlock username = mutate json backend (Lockouts.unlock username)

  -- The mark falls once the sightings are written.
  unfoldable pub flushed : Outcome Unit W → Outcome Unit W
  flushed o = elim o.error [
    | some e ↦ o
    | none ↦ record o {
      store = record o.store { model = record o.store.model { seen_dirty = false } };
    }
  ]

  unfoldable pub flush_seen : Store → W → Outcome Unit W
  flush_seen s w =
      if not s.model.seen_dirty
      then record { error = none; out = tt; store = s; world = w }
      else flushed
          (mutate json backend (λ _ m. record { verdict = write; model = m; out = tt }) s w)
