-- ===== src/Tests/Configuring.antt =====
-- The configuration page at small inputs (internal/api/configs.go).
use devops_tools.Prelude.{
  Text, text, ◌≡◌, refl, true, false, some, List, [], ◌∷◌, ◌++◌, any, lookup, text_dec, ℕ_discrete,
  has_prefix, trim_left, trim_right,
}
use devops_tools.Config.Roles.{RoleSpec}
use devops_tools.Rbac.{allowed_config, any_role, has_op, config_path_covers, trim_slashes}
use devops_tools.Auth.Service.{Account}
use devops_tools.Api.Suggestions.{split_path, add_to_first}
use devops_tools.ConfigSource.Sources.{Entry, Reply, ok}
use devops_tools.Configs.{
  Configurations, ConfigServer, Listing, listed, cleaned, clean_config_path, check_segments,
  is_bad_segment, SaveConfigRequest,
}
use devops_tools.Configs.Handlers.{source_for, handle_list_configs, handle_save_config}
use devops_tools.Configs.Sources.{of_pair, pair_side}
use devops_tools.Configs.Effect.{Promised, handle_save_config-Promised}
use devops_tools.Configs.Listed.{is_row, is_readable, handle_list_configs-listed}
use devops_tools.Configs.Paths.{clean_config_path-cleaned}
use devops_tools.Tests.World.{version_of}
use devops_tools.Tests.Files.{repository, agent, both_read_back}

program : Unit {0}
unfolding any lookup text_dec ℕ_discrete has_prefix trim_left trim_right allowed_config any_role
    has_op config_path_covers trim_slashes split_path add_to_first clean_config_path check_segments
    is_bad_segment source_for of_pair pair_side
program = tt

abbrev listing_of_consul : Text → Reply (List Entry)
listing_of_consul c = ok []

abbrev both : Configurations (Text × Text)
both = of_pair (text "configs") (text "kv") repository agent listing_of_consul

abbrev writer_of_shop : RoleSpec
writer_of_shop = record {
  description = [];
  namespaces = [];
  global = [];
  configs =
      record { path = text "shop"; operations = text "config-read" ∷ text "config-write" ∷ [] }
      ∷ [];
}

abbrev alice : Account
alice = record { username = text "alice"; email = []; roles = text "dev" ∷ []; groups = [] }

abbrev server : ConfigServer (Text × Text)
server = record {
  authz = record { cfg = record { operations = []; roles = (text "dev", writer_of_shop) ∷ [] } };
  environment = text "test";
  configs = some both;
  world = (text "old", text "old");
  trail = [];
}

abbrev new_content : SaveConfigRequest
new_content = record { content = text "new"; version = text "1" }

clean_config_path-cleaned_example :
    (clean_config_path (text "shop/a.yaml") ≡ cleaned (text "shop/a.yaml"))
    × (allowed_config server.authz (text "dev" ∷ []) (text "shop/a.yaml") (text "config-write")
        ≡ allowed_config server.authz (text "dev" ∷ []) (text "/shop/a.yaml") (text "config-write"))
    × (split_path (text "configs" ++ b'/' ∷ text "shop/a.yaml")
        ≡ split_path (text "configs") ++ split_path (text "shop/a.yaml"))
    × (any is_bad_segment (split_path (text "shop/a.yaml")) ≡ false)
unfolding program
clean_config_path-cleaned_example =
    clean_config_path-cleaned server.authz (text "dev" ∷ []) (text "config-write") (text "configs")
      (text "/shop/a.yaml") (text "shop/a.yaml") refl

handle_save_config-Promised_example :
    Promised
      (text "configs")
      (text "kv")
      repository
      agent
      listing_of_consul
      both_read_back
      (text "shop/a.yaml")
      (text "new")
      (handle_save_config server both (some alice) (text "/shop/a.yaml") [] (some new_content))
unfolding program
handle_save_config-Promised_example =
    handle_save_config-Promised (text "configs") (text "kv") repository agent listing_of_consul
      both_read_back server alice (text "/shop/a.yaml") (text "shop/a.yaml") new_content refl

abbrev old_entry : Entry
old_entry = record { path = text "shop/a.yaml"; version = version_of (text "old") }

handle_list_configs-listed_example :
    (l : Listing) × (handle_list_configs server both (some alice) (text "git") ≡ listed l)
    × (any (is_row (text "shop/a.yaml") true) l.entries
        ≡ any
            (is_readable server.authz (text "dev" ∷ []) (text "shop/a.yaml") true)
            (old_entry ∷ []))
unfolding program
handle_list_configs-listed_example =
    handle_list_configs-listed server both alice (text "git") (text "git") (text "shop/a.yaml") _
      (old_entry ∷ []) true refl refl
