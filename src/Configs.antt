-- ===== src/Configs.antt =====
-- internal/api/configs.go: the handlers of the configuration page. The source of the files is an
-- interface; `Configs.Sources` fills it with one source or with the pair.
pub mod Sources
pub mod Handlers
pub mod Saves
pub mod Listed
pub mod Effect
pub mod Paths
use devops_tools.Prelude.{
  ℕ, Text, text, Bool, true, false, ◌||◌, Option, none, some, List, [], ◌∷◌, ◌++◌, ◌==◌, is_empty,
  any, if◌then◌else◌,
}
use devops_tools.Rbac.{Authorizer, trim_slashes}
use devops_tools.Api.Suggestions.{split_path}
use devops_tools.ConfigSource.Sources.{Entry, File, Editor, Reply}
use devops_tools.ConfigSource.Pair.{Drift, PutError}

-- One of the two sides, as far as it is listed.
pub record Side (W : Type 0) : Type 0 where
  pub root : Text
  pub list : W → Reply (List Entry)

-- Dual, in a world `W`.
pub record Dual (W : Type 0) : Type 0 where
  pub first_side : Text
  pub other_sides : List Text
  pub side : Text → Option (Side W)
  pub put_side : Text → Text → Text → Editor → W → Option PutError × W
  pub get_with_drift : Text → Text → W → Reply (File × Option Drift)
  pub secondary_state : Text → Text → W → Text

-- Source, with the two sides where it is Dual.
pub record Configurations (W : Type 0) : Type 0 where
  pub kind : Text
  pub main : Side W
  pub get : Text → W → Reply File
  pub put : Text → Text → Text → Editor → W → Option PutError × W
  pub dual : Option (Dual W)

pub data PathError : Type 0 where
  path_required path_invalid : PathError

pub data Cleaned : Type 0 where
  cleaned : Text → Cleaned
  unclean : PathError → Cleaned

unfoldable pub is_bad_segment : Text → Bool
is_bad_segment seg = is_empty seg || seg == text "." || seg == text ".."

unfoldable pub check_segments : Text → Cleaned
check_segments p =
    if is_empty p
    then unclean path_required
    else if any is_bad_segment (split_path p)
    then unclean path_invalid
    else cleaned p

-- cleanConfigPath
unfoldable pub clean_config_path : Text → Cleaned
clean_config_path p = check_segments (trim_slashes p)

-- An entry of the audit trail that a request on a configuration file leaves.
pub record Action : Type 0 where
  pub user : Text
  pub environment : Text
  pub namespace : Text
  pub operation : Text
  pub target : Text
  pub allowed : Bool
  pub success : Bool
  pub error : Option PutError

-- What the handlers use of the server: `configs` is `none` when no source is switched on.
pub record ConfigServer (W : Type 0) : Type 0 where
  pub authz : Authorizer
  pub environment : Text
  pub configs : Option (Configurations W)
  pub world : W
  pub trail : List Action

pub record ConfigEntry : Type 0 where
  pub path : Text
  pub writable : Bool

pub record Listing : Type 0 where
  pub entries : List ConfigEntry
  pub granted : Bool
  pub root : Text
  pub kind : Text
  pub sides : List Text
  pub side : Text

pub record Opened : Type 0 where
  pub path : Text
  pub content : Text
  pub version : Text
  pub author : Text
  pub updated_at : Text
  pub side : Text
  pub writable : Bool
  pub drift : Option Drift

pub data ConfigReply : Type 0 where
  unauthenticated not_enabled forbidden malformed no_such_entry one_source saved : ConfigReply
  bad_path : PathError → ConfigReply
  unknown_source : Text → ConfigReply
  bad_gateway out_of_date : ConfigReply
  saved_but_lagging : ConfigReply
  listed : Listing → ConfigReply
  opened : Opened → ConfigReply

pub record SaveConfigRequest : Type 0 where
  pub content : Text
  pub version : Text
