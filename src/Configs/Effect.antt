-- ===== src/Configs/Effect.antt =====
-- What the reply to a save over the pair promises (internal/api/configs.go,
-- internal/configsource/pair.go).
use devops_tools.Prelude.{Text, Option, none, some, List, [], ◌≡◌, Bool-cases, inl, inr}
use devops_tools.Config.Operations.{op_config_write}
use devops_tools.Rbac.{allowed_config}
use devops_tools.Auth.Service.{Account}
use devops_tools.ConfigSource.Sources.{
  Entry, Reply, ok, Source, Secondary, not_found, conflict, failed, File,
}
use devops_tools.ConfigSource.Pair
use devops_tools.ConfigSource.Pair.{PutError, refused, lagging, matching, compare}
use devops_tools.ConfigSource.Pair.Saving.{
  ReadsBack, Saved, in_effect, committed, untouched, put-Saved,
}
use devops_tools.Configs.{
  Configurations, cleaned, clean_config_path, ConfigServer, ConfigReply, saved, saved_but_lagging,
  SaveConfigRequest,
}
use devops_tools.Configs.Handlers.{
  config_request, permitted, written, save_on, save_entry, save_reply, save_target,
  handle_save_config, editor_of,
}
use devops_tools.Configs.Sources.{of_pair, regroup}

module _ {G C : Type 0} (root consul_root : Text) (git : Source G) (secondary : Secondary C)
    (consul_list : C → Reply (List Entry)) (r : ReadsBack git secondary) where
  -- A save that is reported as done is in effect, and one that lags is in the repository.
  abbrev pub Promised : Text → Text → ConfigReply × ConfigServer (G × C) → Type 0
  Promised p content (saved, s) = compare git secondary p s.world.0 s.world.1 ≡ ok matching
  Promised p content (saved_but_lagging, s) =
      (f : File) × (git.get p s.world.0 ≡ ok f) × (f.content ≡ content)
  Promised p content (_, s) = Unit

  abbrev pair : Configurations (G × C)
  pair = of_pair root consul_root git secondary consul_list

  written-Promised :
      (s : ConfigServer (G × C)) (u : Account) (p content target : Text) (c : C)
      (x : Option PutError × G × C)
      → Saved git secondary p content c x
      → Promised p content (written s pair u target (regroup x))
  unfolding written save_reply
  written-Promised s u p content target c (some Pair.other_side, g', c') x = elim x [ ]
  written-Promised s u p content target c (none, g', c') (in_effect e) = e
  written-Promised s u p content target c (some (lagging e), g', c') (committed f read same) =
      (f, read, same)
  written-Promised s u p content target c (some (refused conflict), g', c') untouched = tt
  written-Promised s u p content target c (some (refused not_found), g', c') untouched = tt
  written-Promised s u p content target c (some (refused (failed m)), g', c') untouched = tt

  -- When an ordinary save over the pair is reported as done, the comparison of the two sides on the
  -- cleaned path says that they match; when it is reported as committed with Consul behind, the
  -- repository holds the content.
  pub handle_save_config-Promised :
      (s : ConfigServer (G × C)) (u : Account) (path p : Text) (b : SaveConfigRequest)
      → clean_config_path path ≡ cleaned p
      → Promised p b.content (handle_save_config s pair (some u) path [] (some b))
  unfolding handle_save_config config_request permitted save_entry save_on of_pair
  handle_save_config-Promised s u path p b clean =
      elim (Bool-cases (allowed_config s.authz u.roles p op_config_write)) [
        | inr can ↦ rw (clean, can) tt
        | inl can ↦
            rw (clean, can)
              (written-Promised s u p b.content (save_target s pair p b.content) s.world.1 _ (
                put-Saved git secondary r p b.content b.version (editor_of s pair u) s.world.0
                  s.world.1))
      ]
