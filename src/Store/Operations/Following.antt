-- ===== src/Store/Operations/Following.antt =====
-- A replica that follows what another one wrote (internal/store/store.go).
use devops_tools.Prelude.{Text, ◌≡◌, ◌≢◌, refl, true, false, none, some, arith}
use devops_tools.Store.Model.{Model}
use devops_tools.Store.Codec.{encode_file, is_newer}
use devops_tools.Store.Codec.RoundTrip.{set-encode_file}
use devops_tools.Store.Mutate.{Json, Store, apply, encode}
use devops_tools.Store.Operations.{follow}

is_newer-encode_file : (m : Model) → is_newer (encode_file m).version ≡ false
unfolding is_newer encode_file
is_newer-encode_file m = refl

apply-encode :
    (json : Json) (m : Model) (version : Text) (s : Store)
    → json.unmarshal (json.marshal (encode_file m)) ≡ some (encode_file m)
    → apply json (encode json m) version s
      ≡ (none, record s { model = record m { seen_dirty = s.model.seen_dirty }; version = version })
unfolding apply encode
apply-encode json m version s law =
    let restored = set-encode_file m s.model in
    let current = is_newer-encode_file m in ground (arith, law, restored, current)

-- A replica that is handed what another replica encoded, under a version that it does not have,
-- and that decodes it as it was encoded, has the model of the other from then on, with its own
-- mark of unwritten sightings, and tells its caller so.
pub follow-encode :
    (json : Json) (m : Model) (version : Text) (s : Store)
    → json.unmarshal (json.marshal (encode_file m)) ≡ some (encode_file m)
    → version ≢ s.version
    → follow json (encode json m) version s
      ≡ (true, record s { model = record m { seen_dirty = s.model.seen_dirty }; version = version })
unfolding follow
follow-encode json m version s law new = ground (arith, apply-encode json m version s law)
