-- ===== src/Api/RoleChanges.antt =====
-- internal/api/access.go: the handlers that change roles, each of which hands the authorizer the
-- new access model, and the listing of the roles.
use devops_tools.Prelude.{
  ℕ, Text, text, Bool, true, false, ◌&&◌, Option, none, some, List, [], ◌∷◌, Dict, if◌then◌else◌,
  contains, filter,
}
use devops_tools.Config.Operations.{namespace_operations, global_operations, config_operations}
use devops_tools.Config.Roles.{RoleSpec, validate}
use devops_tools.Rbac.{replace}
use devops_tools.Store.Roles.{Membership, access_model, list_roles, role_holders}
use devops_tools.Store.Mutate.{Json, Backend, Outcome}
use devops_tools.Store.Operations.{save_role, delete_role, change_role_membership}
use devops_tools.Auth.Service.{Account, grants}
use devops_tools.Api.{
  Settings, Server, Reply, done, refused, bad_role, deleted, moved, status_ok, bad_request,
  malformed, arrow, log_access_change, after_call, write_store_error,
}

pub record MembershipRequest : Type 0 where
  pub users : List Text
  pub add : Bool

-- What the listing carries.
pub record RoleListing : Type 0 where
  pub roles : List (Text × RoleSpec)
  pub operations : List Text
  pub namespace_ops : List Text
  pub global_ops : List Text
  pub config_ops : List Text
  pub holders : Dict ℕ

unfoldable pub handle_list_roles : {W : Type 0} → Settings → Server W → RoleListing
handle_list_roles cfg st = record {
  roles = list_roles st.store.model;
  operations = cfg.operations;
  namespace_ops = namespace_operations;
  global_ops = global_operations;
  config_ops = config_operations;
  holders = role_holders st.store.model;
}

-- s.authz.Replace(s.store.AccessModel(s.operations))
unfoldable pub install : {W : Type 0} → Settings → Server W → Server W
install cfg st = record st { authz = replace st.authz (access_model st.store.model cfg.operations) }

unfoldable pub membership_verb : Bool → Text
membership_verb true = text "role-granted"
membership_verb false = text "role-revoked"

-- One entry for each user that changed.
unfoldable pub log_each :
    {W : Type 0} → Settings → Option Account → Text → Text → List Text → Server W → Server W
log_each cfg actor verb role [] st = st
log_each cfg actor verb role (name ∷ names) st =
    log_each cfg actor verb role names (log_access_change cfg actor verb (arrow name role) none st)

-- The changed users who hold the role all the same, from the configuration.
unfoldable pub still_granted : Settings → Text → Bool → List Text → List Text
still_granted cfg role add changed =
    if add
    then []
    else filter (λ name. grants cfg.bootstrap name && contains cfg.bootstrap.roles role) changed

unfoldable pub is_nil : List Text → Bool
is_nil [] = true
is_nil (_ ∷ _) = false

module _ (json : Json) {W : Type 0} (backend : Backend W) (cfg : Settings)
    (actor : Option Account) where
  unfoldable pub saved_role : Text → Outcome Unit W → Server W → Reply × Server W
  saved_role name o st =
      let st' =
        log_access_change cfg actor (text "role-save") name o.error (after_call cfg actor o st) in
      elim o.error [
        | some e ↦ (write_store_error e, st')
        | none ↦ (record { status = status_ok; body = done (text "saved") }, install cfg st')
      ]

  -- The request carries the role.
  unfoldable pub handle_save_role : Text → Option RoleSpec → Server W → Reply × Server W
  handle_save_role name none st = (malformed, st)
  handle_save_role name (some spec) st =
      elim (validate (record { operations = cfg.operations; roles = (name, spec) ∷ [] })) [
        | some e ↦ (bad_request (bad_role e), st)
        | none ↦ saved_role name (save_role json backend name spec st.store st.world) st
      ]

  unfoldable pub moved_role : Text → Bool → Outcome Membership W → Server W → Reply × Server W
  moved_role role add o st = elim o.error [
    | some e ↦ (write_store_error e, after_call cfg actor o st)
    | none ↦ (
      record { status = status_ok; body = moved o.out (still_granted cfg role add o.out.changed) },
      install cfg
          (log_each cfg actor (membership_verb add) role o.out.changed (after_call cfg actor o st)),
    )
  ]

  unfoldable pub handle_role_membership :
      Text → Option MembershipRequest → Server W → Reply × Server W
  handle_role_membership role none st = (malformed, st)
  handle_role_membership role (some body) st =
      if is_nil body.users
      then (bad_request (refused (text "no users given")), st)
      else moved_role role body.add
          (change_role_membership json backend role body.users body.add st.store st.world) st

  unfoldable pub deleted_role : Text → Outcome (List Text) W → Server W → Reply × Server W
  deleted_role name o st =
      let st' =
        log_access_change cfg actor (text "role-delete") name o.error (after_call cfg actor o st) in
      elim o.error [
        | some e ↦ (write_store_error e, st')
        | none ↦ (record { status = status_ok; body = deleted o.out }, install cfg st')
      ]

  unfoldable pub handle_delete_role : Text → Server W → Reply × Server W
  handle_delete_role name st =
      deleted_role name (delete_role json backend name st.store st.world) st
