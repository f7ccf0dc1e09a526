-- ===== src/Configs/Listed.antt =====
-- The configuration files that a user is shown (internal/api/configs.go).
use devops_tools.Prelude.{
  Text, Bool, ◌&&◌, some, List, [], ◌∷◌, ◌==◌, ◌≡◌, refl, arith, any, ap, ◌∙◌,
}
use devops_tools.Config.Operations.{op_config_read, op_config_write}
use devops_tools.Rbac.{Authorizer, allowed_config}
use devops_tools.Store.Roles.{same_bool}
use devops_tools.Auth.Service.{Account}
use devops_tools.ConfigSource.Sources.{Entry, Reply, ok, error}
use devops_tools.Configs.{
  Configurations, ConfigServer, ConfigEntry, Side, Listing, ConfigReply, bad_gateway, listed,
}
use devops_tools.Configs.Handlers.{
  config_entry, config_entries, chosen, source_for, listing, list_side, handle_list_configs,
}

-- Whether a list of the page has a path with that mark.
abbrev pub is_row : Text → Bool → ConfigEntry → Bool
is_row path writable c = c.path == path && same_bool c.writable writable

-- A file of the source that the roles let the user read, with whether they may write it.
abbrev pub is_readable : Authorizer → List Text → Text → Bool → Entry → Bool
is_readable authz roles path writable e =
    allowed_config authz roles e.path op_config_read
    && (e.path == path && same_bool (allowed_config authz roles e.path op_config_write) writable)

abbrev answer :
    {W : Type 0} (s : ConfigServer W) (configs : Configurations W) (u : Account) (side : Side W)
    (name : Text)
    → Reply (List Entry)
    → ConfigReply
answer s configs u side name (error e) = bad_gateway
answer s configs u side name (ok entries) = listed (listing s configs u side name entries)

module _ {W : Type 0} (s : ConfigServer W) (configs : Configurations W) where
  any-config_entries :
      (roles : List Text) (path : Text) (writable : Bool) (entries : List Entry)
      → any (is_row path writable) (config_entries s configs roles entries)
        ≡ any (is_readable s.authz roles path writable) entries
  unfolding config_entries config_entry any
  any-config_entries roles path writable [] = refl
  any-config_entries roles path writable (e ∷ entries) =
      ground (arith, any-config_entries roles path writable entries)

  -- The page lists exactly the files of the side that is asked for which the roles let the user
  -- read, and marks as writable exactly those that they let the user write.
  pub handle_list_configs-listed :
      (u : Account) (wanted name path : Text) (side : Side W) (entries : List Entry)
      (writable : Bool)
      → source_for s configs wanted ≡ chosen side name
      → side.list s.world ≡ ok entries
      → (l : Listing) × (handle_list_configs s configs (some u) wanted ≡ listed l)
        × (any (is_row path writable) l.entries
            ≡ any (is_readable s.authz u.roles path writable) entries)
  unfolding handle_list_configs list_side listing
  handle_list_configs-listed u wanted name path side entries writable chose answered = (
    listing s configs u side name entries,
    ap (list_side s configs u) chose ∙ ap (answer s configs u side name) answered,
    any-config_entries u.roles path writable entries,
  )
