-- ===== src/Configs/Saves.antt =====
-- What saving a configuration file does, and who may (internal/api/configs.go).
use devops_tools.Prelude.{
  Text, text, Bool, true, false, Option, none, some, [], ◌∷◌, ◌++◌, ◌≡◌, is_empty,
}
use devops_tools.Config.Operations.{op_config_write}
use devops_tools.Rbac.{allowed_config}
use devops_tools.Auth.Service.{Account}
use devops_tools.ConfigSource.Pair.{PutError}
use devops_tools.Configs.{
  Configurations, Dual, cleaned, unclean, clean_config_path, Action, ConfigServer, ConfigReply,
  SaveConfigRequest, PathError, unauthenticated, bad_path, forbidden, malformed, one_source,
}
use devops_tools.Configs.Handlers.{save_reply, editor_of}

-- An entry of the trail for a request to save: whether it was allowed, and how the write ended.
abbrev pub save_action :
    {W : Type 0} → ConfigServer W → Account → Text → Bool → Bool → Option PutError → Action
save_action s u target allowed success e = record {
  user = u.username;
  environment = s.environment;
  namespace = text "-";
  operation = op_config_write;
  target = target;
  allowed = allowed;
  success = success;
  error = e;
}

abbrev pub is_nothing : Option PutError → Bool
is_nothing none = true
is_nothing (some e) = false

-- The server with one more entry.
abbrev pub with_action : {W : Type 0} → ConfigServer W → Action → ConfigServer W
with_action s a = record s { trail = s.trail ++ a ∷ [] }

-- How a request to save ends.
pub data Saving {W : Type 0} (s : ConfigServer W) (configs : Configurations W) (side : Text)
    (body : Option SaveConfigRequest)
    : Option Account → Text → ConfigReply × ConfigServer W → Type 0 where
  anonymous : {path : Text} → Saving s configs side body none path (unauthenticated, s)
  unusable_path :
      {u : Account} {path : Text} (e : PathError)
      → clean_config_path path ≡ unclean e
      → Saving s configs side body (some u) path (bad_path e, s)
  denied :
      {u : Account} {path : Text} (p : Text)
      → clean_config_path path ≡ cleaned p
      → allowed_config s.authz u.roles p op_config_write ≡ false
      → Saving s configs side body
          (some u)
          path
          (forbidden, with_action s (save_action s u p false false none))
  unreadable_body :
      {u : Account} {path : Text} (p : Text)
      → body ≡ none
      → clean_config_path path ≡ cleaned p
      → allowed_config s.authz u.roles p op_config_write ≡ true
      → Saving s configs side body (some u) path (malformed, s)
  no_other_side :
      {u : Account} {path : Text} (p : Text)
      → is_empty side ≡ false
      → configs.dual ≡ none
      → clean_config_path path ≡ cleaned p
      → allowed_config s.authz u.roles p op_config_write ≡ true
      → Saving s configs side body (some u) path (one_source, s)
  -- The source is written as an ordinary save writes it.
  stored :
      {u : Account} {path : Text} {w : W} (p note : Text) (e : Option PutError)
      (b : SaveConfigRequest)
      → body ≡ some b
      → is_empty side ≡ true
      → clean_config_path path ≡ cleaned p
      → allowed_config s.authz u.roles p op_config_write ≡ true
      → configs.put p b.content b.version (editor_of s configs u) s.world ≡ (e, w)
      → Saving s configs side body (some u) path (
        save_reply s configs e,
        record (with_action s
            (save_action s u (configs.kind ++ text ":" ++ p ++ note) true (is_nothing e) e)) {
              world = w;
            },
      )
  -- One side alone is written, which the target of the entry says.
  one_side :
      {u : Account} {path : Text} {w : W} (p : Text) (e : Option PutError) (b : SaveConfigRequest)
      (d : Dual W)
      → body ≡ some b
      → is_empty side ≡ false
      → configs.dual ≡ some d
      → clean_config_path path ≡ cleaned p
      → allowed_config s.authz u.roles p op_config_write ≡ true
      → d.put_side side p b.content (editor_of s configs u) s.world ≡ (e, w)
      → Saving s configs side body (some u) path (
        save_reply s configs e,
        record (with_action s (save_action s u (text "consul-only:" ++ p) true (is_nothing e) e)) {
          world = w;
        },
      )
