-- ===== src/Configs/Sources.antt =====
-- The source of the configuration page as one source or as the pair of a repository and Consul
-- (internal/configsource/source.go, pair.go).
use devops_tools.Prelude.{Text, text, Option, none, some, List, [], ◌∷◌, ◌==◌, if◌then◌else◌}
use devops_tools.ConfigSource.Sources.{Entry, SourceError, Reply, Source, Secondary}
use devops_tools.ConfigSource.Pair
use devops_tools.ConfigSource.Pair.{PutError, refused}
use devops_tools.Configs.{Side, Configurations}

unfoldable pub as_put_error : Option SourceError → Option PutError
as_put_error none = none
as_put_error (some e) = some (refused e)

-- One source, without a second side.
unfoldable pub of_source : {W : Type 0} → Text → Text → Source W → Configurations W
of_source kind root source = record {
  kind = kind;
  main = record { root = root; list = source.list };
  get = source.get;
  put = λ path content version editor w.
      let (e, w') = source.put path content version editor w in (as_put_error e, w');
  dual = none;
}

abbrev pub side_git : Text
side_git = text "git"

abbrev pub side_consul : Text
side_consul = text "consul"

unfoldable pub side_of : Text → Pair.Side
side_of name =
    if name == side_git then Pair.git else if name == side_consul then Pair.consul else Pair.unknown

abbrev pub regroup : {G C : Type 0} → Option PutError × G × C → Option PutError × (G × C)
regroup (e, g, c) = (e, (g, c))

module _ {G C : Type 0} (root consul_root : Text) (git : Source G) (secondary : Secondary C)
    (consul_list : C → Reply (List Entry)) where
  abbrev pub git_side : Side (G × C)
  git_side = record { root = root; list = λ w. git.list w.0 }

  unfoldable pub pair_side : Text → Option (Side (G × C))
  pair_side name =
      if name == side_git
      then some git_side
      else if name == side_consul
      then some (record { root = consul_root; list = λ w. consul_list w.1 })
      else none

  -- NewPair
  unfoldable pub of_pair : Configurations (G × C)
  of_pair = record {
    kind = text "git+consul";
    main = git_side;
    get = λ path w. git.get path w.0;
    put = λ path content version editor w.
        regroup (Pair.put git secondary path content version editor w.0 w.1);
    dual = some (record {
      first_side = side_git;
      other_sides = side_consul ∷ [];
      side = pair_side;
      put_side = λ name path content editor w.
          regroup (Pair.put_side git secondary (side_of name) path content w.0 w.1);
      get_with_drift = λ name path w. Pair.get_with_drift git secondary (side_of name) path w.0 w.1;
      secondary_state = λ path expected w. Pair.secondary_state git secondary path expected w.1;
    });
  }
