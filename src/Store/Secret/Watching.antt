-- ===== src/Store/Secret/Watching.antt =====
-- A replica that watches the Secret that another one writes (internal/store/secret.go, store.go).
use devops_tools.Prelude.{◌≡◌, ◌≢◌, arith, Bool, true, false, none, some, lookup, length, ◌≤◌}
use devops_tools.Store.Model.{Model}
use devops_tools.Store.Codec.{encode_file}
use devops_tools.Store.Mutate.{Json, Store, encode}
use devops_tools.Store.Operations.{follow}
use devops_tools.Store.Operations.Following.{follow-encode}
use devops_tools.Store.Secret.{
  Gzip, Secret, WatchEvent, changed, on_event, secret_key, pack, compressed, max_unpacked,
}
use devops_tools.Store.Secret.Packing.{GzipLaws, unpack-pack}

-- The reaction of a replica to an event: whether its caller is told of a change, and its store.
abbrev pub watched : Json → Gzip → WatchEvent → Store → Bool × Store
watched json gzip event s = elim (on_event gzip event) as (λ _. Bool × Store) [
  | none ↦ (false, s)
  | some (bytes, version) ↦ follow json bytes version s
]

-- The event of a Secret that holds the packed encoding of a model gives a replica that has another
-- version that very model, with its own mark of unwritten sightings, and its caller is told so. The
-- encoding is one that decodes to itself, is not itself compressed and is not longer than what is
-- unpacked.
pub watched-changed :
    (json : Json) (gzip : Gzip) (laws : GzipLaws gzip) (m : Model) (o : Secret) (s : Store)
    → json.unmarshal (json.marshal (encode_file m)) ≡ some (encode_file m)
    → compressed (encode json m) ≡ false
    → length (encode json m) ≤ max_unpacked
    → lookup secret_key o.content ≡ some (pack gzip (encode json m))
    → o.resource_version ≢ s.version
    → watched json gzip (changed o) s ≡ (
      true,
      record s {
        model = record m { seen_dirty = s.model.seen_dirty };
        version = o.resource_version;
      },
    )
unfolding on_event
watched-changed json gzip laws m o s law plain small held new =
    let unpacked = unpack-pack gzip laws (encode json m) plain small in
    let followed = follow-encode json m o.resource_version s law new in
    ground (arith, unpacked, followed)
