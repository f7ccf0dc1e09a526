-- ===== src/Tests/Cluster.antt =====
-- The store in a Secret of a small cluster (internal/store/secret.go, store.go, backend.go).
use devops_tools.Prelude.{Text, text, ◌≡◌, refl, sym, true, false, Option, none, some, arith}
use devops_tools.Prelude.{
  [], ◌∷◌, lookup, insert, has_key, text_dec, ◌==◌, ℕ_discrete, if◌then◌else◌,
}
use devops_tools.Prelude.{trim_space, trim_left, trim_right, to_lower, lower, is_space}
use devops_tools.Store.Model.{Change, not_exist, key}
use devops_tools.Store.Users
use devops_tools.Store.Codec.{encode_file, set, load_users, load_user, is_newer}
use devops_tools.Store.Mutate.{
  mutate, encode, apply, attempt, round, settle, written, persist, persisted, retry, reload,
  reloaded, is_conflict, give_up,
}
use devops_tools.Store.Mutate.Rounds.{changed, result}
use devops_tools.Store.Mutate.Writes.{Accounts}
use devops_tools.Store.Operations.{is_not_exist}
use devops_tools.Store.Secret.{
  Gzip, Secret, SecretsApi, Cluster, GetReply, PutReply, got, put, get_failed, put_failed,
  is_not_found, is_already_exists, is_conflicting,
}
use devops_tools.Store.Secret.{
  secret_key, secret_backend, WatchEvent, compressed, pack, unpack, load, load_got, opened, save,
  created, updated,
}
use devops_tools.Store.Secret.Packing.{GzipLaws}
use devops_tools.Store.Secret.Server.{
  ResourceVersions, secret_backend-Versioned, mutate_secret-Accounts,
}
use devops_tools.Store.Secret.Watching.{watched, watched-changed}
use devops_tools.Store.Secret.Deleted.{mutate_deleted}
use devops_tools.Store.Snapshots.{
  snapshot, restore, restore_plain, restore_document, replace_by, migrate_file, migrated,
  carry_over, copied,
}
use devops_tools.Store.Snapshots.Restoring.{SameStored, restore-snapshot}
use devops_tools.Tests.World.{json, team, unseeded, current, behind, version_of}

program : Unit {0}
unfolding lookup insert has_key text_dec ℕ_discrete trim_space trim_left trim_right to_lower lower
    is_space key Users.set_roles encode_file set load_users load_user is_newer mutate encode apply
    attempt round settle written persist persisted retry reload reloaded is_conflict give_up
    is_not_exist compressed pack unpack load load_got opened save created updated snapshot restore
    restore_plain restore_document replace_by migrate_file migrated carry_over copied
program = tt

-- The Secret with a body; its resource version is told by the body.
abbrev secret_of : Text → Secret
secret_of body = record { content = (secret_key, body) ∷ []; resource_version = version_of body }

abbrev gets : Option Text → GetReply × Option Text
gets none = (get_failed is_not_found, none)
gets (some body) = (got (secret_of body), some body)

abbrev creates : Text → Option Text → PutReply × Option Text
creates body none = (put (secret_of body), some body)
creates body (some old) = (put_failed is_already_exists, some old)

abbrev updates : Text → Text → Option Text → PutReply × Option Text
updates body version none = (put_failed is_not_found, none)
updates body version (some old) =
    if version == version_of old
    then (put (secret_of body), some body)
    else (put_failed is_conflicting, some old)

abbrev api : SecretsApi (Option Text)
api = record { get = gets; create = creates; update = updates; clock = λ _. 1000 }

abbrev object_of : Option Text → Option Secret
object_of none = none
object_of (some body) = some (secret_of body)

get_object_of : (w w' : Option Text) (o : Secret) → gets w ≡ (got o, w') → object_of w ≡ some o
get_object_of none w' o h = absurd (ground arith)
get_object_of (some b) w' o h = ground arith

create_object_of :
    (w w' : Option Text) (body : Text) (o : Secret)
    → creates body w ≡ (put o, w')
    → object_of w ≡ none
create_object_of none w' body o h = refl
create_object_of (some b) w' body o h = absurd (ground arith)

update_object_of :
    (w w' : Option Text) (body version : Text) (o : Secret)
    → updates body version w ≡ (put o, w')
    → (old : Secret) × (object_of w ≡ some old) × (old.resource_version ≡ version)
update_object_of none w' body version o h = absurd (ground arith)
update_object_of (some b) w' body version o h = elim (text_dec version (version_of b)) [
  | yes e ↦ (secret_of b, refl, sym e)
  | no ne ↦ absurd (ground arith)
]

one_content_of :
    (w w' : Option Text) (o o' : Secret)
    → object_of w ≡ some o
    → object_of w' ≡ some o'
    → o.resource_version ≡ o'.resource_version
    → o.content ≡ o'.content
one_content_of none w' o o' h k e = absurd (ground arith)
one_content_of (some b) none o o' h k e = absurd (ground arith)
one_content_of (some b) (some b') o o' h k e = ground arith

abbrev versions : ResourceVersions api
versions = record {
  object = object_of;
  get_object = get_object_of;
  create_object = create_object_of;
  update_object = update_object_of;
  one_content = one_content_of;
}

-- A packing that puts the signature in front.
abbrev unmarked : Text → Option Text
unmarked (a ∷ b ∷ c ∷ rest) = some rest
unmarked _ = none

abbrev gzip : Gzip
gzip = record {
  deflate = λ bytes. some (0x1f ∷ 0x8b ∷ 0 ∷ bytes);
  inflate = λ n packed. unmarked packed;
}

gzip-GzipLaws : GzipLaws gzip
unfolding compressed
gzip-GzipLaws = record {
  signature = λ bytes packed h. ground arith;
  read_back = λ n bytes packed h small. ground arith;
}

abbrev cluster : Cluster (Option Text)
cluster = record { world = some (2 ∷ 0 ∷ []); stored = 0 }

abbrev emptied : Cluster (Option Text)
emptied = record { world = none; stored = 2 }

abbrev promote : Change Unit
promote = Users.set_roles (text "bob") (text "viewer" ∷ [])

mutate_secret-Accounts_example :
    Accounts json
      (secret_backend gzip api)
      promote
      (secret_backend-Versioned gzip api versions)
      behind
      (mutate json (secret_backend gzip api) promote behind cluster)
unfolding program
mutate_secret-Accounts_example =
    mutate_secret-Accounts gzip api versions json promote behind cluster refl

mutate_deleted_example :
    mutate json (secret_backend gzip api) promote current emptied
    ≡ result json
        (secret_backend gzip api)
        promote
        (some not_exist)
        current
        emptied
        (changed json (secret_backend gzip api) promote current emptied)
        (record { world = none; stored = 2 })
unfolding program
mutate_deleted_example =
    mutate_deleted json gzip api promote current emptied none none refl (λ p. cc) (omega arith) refl
      refl

restore-snapshot_example :
    SameStored
      (restore json gzip
        (secret_backend gzip api)
        (pack gzip (snapshot json current))
        (record current { model = unseeded })
        cluster).store.model
      team
unfolding program
restore-snapshot_example =
    restore-snapshot json gzip (secret_backend gzip api) gzip-GzipLaws current
      (record current { model = unseeded }) cluster refl refl (omega arith) refl

watched-changed_example :
    watched json gzip (WatchEvent.changed (secret_of (pack gzip (encode json team)))) behind ≡ (
      true,
      record behind {
        model = record team { seen_dirty = false };
        version = version_of (pack gzip (encode json team));
      },
    )
unfolding program
watched-changed_example =
    watched-changed json gzip gzip-GzipLaws team (secret_of (pack gzip (encode json team))) behind
      refl refl (omega arith) refl (λ p. cc)
