-- ===== src/Configs/Handlers.antt =====
-- internal/api/configs.go: listing, opening and saving.
use devops_tools.Prelude.{
  Text, text, Bool, true, false, not, Option, none, some, List, [], ◌∷◌, ◌++◌, is_empty,
  if◌then◌else◌,
}
use devops_tools.Config.Operations.{op_config_read, op_config_write}
use devops_tools.Rbac.{allowed_config, visible_config_paths}
use devops_tools.Auth.Service.{Account}
use devops_tools.ConfigSource.Sources.{Entry, File, Editor, not_found, conflict, Reply, ok, error}
use devops_tools.ConfigSource.Pair.{Drift, PutError, refused, lagging}
use devops_tools.Configs.{
  Side, Configurations, Cleaned, cleaned, unclean, clean_config_path, Action, ConfigServer,
  ConfigEntry, Listing, ConfigReply, unauthenticated, not_enabled, forbidden, malformed,
  no_such_entry, one_source, saved, bad_path, unknown_source, bad_gateway, out_of_date,
  saved_but_lagging, listed, opened, SaveConfigRequest,
}

unfoldable pub succeeded : Option PutError → Bool
succeeded none = true
succeeded (some _) = false

-- The side that ?source= asks for, with its name.
pub data Chosen (W : Type 0) : Type 0 where
  chosen : Side W → Text → Chosen W
  no_such_side : Text → Chosen W

module _ {W : Type 0} (s : ConfigServer W) (configs : Configurations W) where
  -- sides
  unfoldable pub sides : List Text
  sides = elim configs.dual [ none ↦ [] | some d ↦ d.first_side ∷ d.other_sides ]

  -- sourceFor
  unfoldable pub source_for : Text → Chosen W
  source_for wanted = elim configs.dual [
    | none ↦ chosen configs.main []
    | some d ↦
        if is_empty wanted
        then chosen configs.main d.first_side
        else elim (d.side wanted) [ none ↦ no_such_side wanted | some side ↦ chosen side wanted ]
  ]

  unfoldable pub config_entry : List Text → Entry → ConfigEntry
  config_entry roles e = record {
    path = e.path;
    writable = allowed_config s.authz roles e.path op_config_write;
  }

  unfoldable pub config_entries : List Text → List Entry → List ConfigEntry
  config_entries roles [] = []
  config_entries roles (e ∷ entries) =
      let rest = config_entries roles entries in
      if not (allowed_config s.authz roles e.path op_config_read)
      then rest
      else config_entry roles e ∷ rest

  unfoldable pub is_some_path : List Text → Bool
  is_some_path [] = false
  is_some_path (p ∷ ps) = true

  unfoldable pub listing : Account → Side W → Text → List Entry → Listing
  listing u side name entries = record {
    entries = config_entries u.roles entries;
    granted = is_some_path (visible_config_paths s.authz u.roles);
    root = side.root;
    kind = configs.kind;
    sides = sides;
    side = name;
  }

  unfoldable pub list_side : Account → Chosen W → ConfigReply
  list_side u (no_such_side name) = unknown_source name
  list_side u (chosen side name) = elim (side.list s.world) [
    | error e ↦ bad_gateway
    | ok entries ↦ listed (listing u side name entries)
  ]

  -- handleListConfigs
  unfoldable pub handle_list_configs : Option Account → Text → ConfigReply
  handle_list_configs none wanted = unauthenticated
  handle_list_configs (some u) wanted = list_side u (source_for wanted)

  unfoldable pub denial : Account → Text → Text → Action
  denial u op path = record {
    user = u.username;
    environment = s.environment;
    namespace = text "-";
    operation = op;
    target = path;
    allowed = false;
    success = false;
    error = none;
  }

  unfoldable pub permitted :
      Text
      → Account
      → Cleaned
      → (Account → Text → ConfigReply × ConfigServer W)
      → ConfigReply × ConfigServer W
  permitted op u (unclean e) handler = (bad_path e, s)
  permitted op u (cleaned path) handler =
      if not (allowed_config s.authz u.roles path op)
      then (forbidden, record s { trail = s.trail ++ denial u op path ∷ [] })
      else handler u path

  -- configRequest, with what the handler does after it.
  unfoldable pub config_request :
      Text
      → Option Account
      → Text
      → (Account → Text → ConfigReply × ConfigServer W)
      → ConfigReply × ConfigServer W
  config_request op none path handler = (unauthenticated, s)
  config_request op (some u) path handler = permitted op u (clean_config_path path) handler

  unfoldable pub read_entry : Text → Text → Reply (File × Option Drift)
  read_entry side path = elim configs.dual [
    | some d ↦ d.get_with_drift side path s.world
    | none ↦ elim (configs.get path s.world) [ error e ↦ error e | ok f ↦ ok (f, none) ]
  ]

  unfoldable pub show : Account → Text → Text → Reply (File × Option Drift) → ConfigReply
  show u path side (error not_found) = no_such_entry
  show u path side (error e) = bad_gateway
  show u path side (ok (f, drift)) = opened (record {
    path = f.path;
    content = f.content;
    version = f.version;
    author = f.author;
    updated_at = f.updated_at;
    side = side;
    writable = allowed_config s.authz u.roles path op_config_write;
    drift = drift;
  })

  unfoldable pub open_entry : Account → Text → Chosen W → ConfigReply
  open_entry u path (no_such_side name) = unknown_source name
  open_entry u path (chosen side name) = show u path name (read_entry name path)

  -- handleGetConfig
  unfoldable pub handle_get_config : Option Account → Text → Text → ConfigReply × ConfigServer W
  handle_get_config user path wanted =
      config_request op_config_read user path (λ u p. (open_entry u p (source_for wanted), s))

  unfoldable pub config_action : Account → Text → Option PutError → Action
  config_action u target e = record {
    user = u.username;
    environment = s.environment;
    namespace = text "-";
    operation = op_config_write;
    target = target;
    allowed = true;
    success = succeeded e;
    error = e;
  }

  unfoldable pub save_reply : Option PutError → ConfigReply
  save_reply none = saved
  save_reply (some (refused conflict)) = out_of_date
  save_reply (some (lagging e)) = saved_but_lagging
  save_reply (some e) = bad_gateway

  -- What follows a write: the entry of the trail and the reply.
  unfoldable pub written : Account → Text → Option PutError × W → ConfigReply × ConfigServer W
  written u target (e, w) =
      (save_reply e, record s { world = w; trail = s.trail ++ config_action u target e ∷ [] })

  abbrev pub editor_of : Account → Editor
  editor_of u = record { username = u.username; email = u.email }

  -- The target of an ordinary save, with what Consul held before it.
  unfoldable pub save_target : Text → Text → Text
  save_target path content = elim configs.dual [
    | none ↦ configs.kind ++ text ":" ++ path
    | some d ↦
        configs.kind
        ++ text ":"
        ++ path
        ++ text " (consul was "
        ++ d.secondary_state path content s.world
        ++ text ")"
  ]

  unfoldable pub save_on : Text → Account → Text → SaveConfigRequest → ConfigReply × ConfigServer W
  save_on side u path body =
      if is_empty side
      then written u (save_target path body.content)
          (configs.put path body.content body.version (editor_of u) s.world)
      else elim configs.dual [
        | none ↦ (one_source, s)
        | some d ↦
            written u (text "consul-only:" ++ path)
              (d.put_side side path body.content (editor_of u) s.world)
      ]

  unfoldable pub save_entry :
      Text → Option SaveConfigRequest → Account → Text → ConfigReply × ConfigServer W
  save_entry side none u path = (malformed, s)
  save_entry side (some body) u path = save_on side u path body

  -- handleSaveConfig; a body that could not be decoded is `none`.
  unfoldable pub handle_save_config :
      Option Account → Text → Text → Option SaveConfigRequest → ConfigReply × ConfigServer W
  handle_save_config user path side body =
      config_request op_config_write user path (save_entry side body)

-- requireConfigs
unfoldable pub require_configs :
    {W : Type 0}
    → ConfigServer W
    → (Configurations W → ConfigReply × ConfigServer W)
    → ConfigReply × ConfigServer W
require_configs s handler = elim s.configs [
  | none ↦ (not_enabled, s)
  | some configs ↦ handler configs
]
