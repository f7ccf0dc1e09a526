-- ===== src/Store/Secret.antt =====
-- internal/store/secret.go: the backend that keeps the document in one Kubernetes Secret. The API
-- server and compress/gzip are parameters. Of the watch, what an event
-- hands on; that it is opened again when it ends is not modelled.
pub mod Packing
pub mod Server
pub mod Deleted
pub mod Watching
use devops_tools.Prelude.{
  ℕ, ◌*◌, Text, text, Bool, true, false, not, ◌&&◌, Option, none, some, List, [], ◌∷◌,
}
use devops_tools.Prelude.{Dict, lookup, length, ltb, eqb, if◌then◌else◌, is_empty}
use devops_tools.Store.Model.{Time, Error, conflict, not_exist, other}
use devops_tools.Store.Mutate.{
  Backend, LoadReply, SaveReply, loaded, load_failed, saved, save_failed,
}

abbrev pub secret_key : Text
secret_key = text "access.json"

abbrev pub max_secret_bytes : ℕ
max_secret_bytes = 1024 * 1024

abbrev pub pack_above : ℕ
pack_above = 256 * 1024

abbrev pub max_unpacked : ℕ
max_unpacked = 64 * 1024 * 1024

-- compress/gzip. `deflate` is a writer that is written to and closed; `inflate` reads at most that
-- many bytes from a reader. `none` is an error of any of their calls.
pub record Gzip : Type 0 where
  pub deflate : Text → Option Text
  pub inflate : ℕ → Text → Option Text

-- The signature of gzip: 0x1f 0x8b, and something after it.
unfoldable pub compressed : Text → Bool
compressed (a ∷ b ∷ c ∷ rest) = eqb a 0x1f && eqb b 0x8b
compressed _ = false

unfoldable pub pack : Gzip → Text → Text
pack gzip bytes =
    if ltb (length bytes) pack_above
    then bytes
    else elim (gzip.deflate bytes) [ none ↦ bytes | some packed ↦ packed ]

-- `none` is an error.
unfoldable pub unpack : Gzip → Text → Option Text
unpack gzip bytes = if not (compressed bytes) then some bytes else gzip.inflate max_unpacked bytes

pub record Secret : Type 0 where
  pub content : Dict Text
  pub resource_version : Text

-- The events of a watch: Added and Modified carry the Secret.
pub data WatchEvent : Type 0 where
  changed : Secret → WatchEvent
  deleted unreadable_event : WatchEvent

-- What an event hands on, a document and its version.
unfoldable pub on_event : Gzip → WatchEvent → Option (Text × Text)
on_event gzip (changed secret) = elim (lookup secret_key secret.content) [
  | none ↦ none
  | some body ↦ elim (unpack gzip body) [
    | none ↦ none
    | some plain ↦ some (plain, secret.resource_version)
  ]
]
on_event gzip _ = none

-- The errors of the API server that the code tells apart.
pub data ApiError : Type 0 where
  is_not_found is_already_exists is_conflicting : ApiError
  another : Text → ApiError

pub data GetReply : Type 0 where
  got : Secret → GetReply
  get_failed : ApiError → GetReply

pub data PutReply : Type 0 where
  put : Secret → PutReply
  put_failed : ApiError → PutReply

-- The calls on the one Secret: get it, create it, and update it from a resource version. The body
-- is what its one entry is to hold.
pub record SecretsApi (W : Type 0) : Type 0 where
  pub get : W → GetReply × W
  pub create : Text → W → PutReply × W
  pub update : Text → Text → W → PutReply × W
  pub clock : W → Time

-- The backend with the cluster: `stored` is the size of the object when last read or written.
pub record Cluster (W : Type 0) : Type 0 where
  pub world : W
  pub stored : ℕ

unfoldable pub opened : Gzip → Text → Text → LoadReply
opened gzip body version = elim (unpack gzip body) [
  | none ↦ load_failed (other (text "read"))
  | some plain ↦ loaded plain version
]

module _ {W : Type 0} where
  unfoldable pub load_got : Gzip → ℕ → GetReply × W → LoadReply × Cluster W
  load_got gzip stored (get_failed is_not_found, w) =
      (load_failed not_exist, record { world = w; stored = stored })
  load_got gzip stored (get_failed _, w) =
      (load_failed (other (text "read")), record { world = w; stored = stored })
  load_got gzip stored (got secret, w) = elim (lookup secret_key secret.content) [
    | none ↦ (load_failed (other (text "no entry")), record { world = w; stored = stored })
    | some body ↦
        (opened gzip body secret.resource_version, record { world = w; stored = length body })
  ]

  unfoldable pub created : ℕ → ℕ → PutReply × W → SaveReply × Cluster W
  created size stored (put_failed is_already_exists, w) =
      (save_failed conflict, record { world = w; stored = stored })
  created size stored (put_failed _, w) =
      (save_failed (other (text "create")), record { world = w; stored = stored })
  created size stored (put secret, w) =
      (saved secret.resource_version, record { world = w; stored = size })

  unfoldable pub updated : ℕ → ℕ → PutReply × W → SaveReply × Cluster W
  updated size stored (put_failed is_conflicting, w) =
      (save_failed conflict, record { world = w; stored = stored })
  updated size stored (put_failed is_not_found, w) =
      (save_failed conflict, record { world = w; stored = stored })
  updated size stored (put_failed _, w) =
      (save_failed (other (text "write")), record { world = w; stored = stored })
  updated size stored (put secret, w) =
      (saved secret.resource_version, record { world = w; stored = size })

  module _ (gzip : Gzip) (api : SecretsApi W) where
    unfoldable pub load : Cluster W → LoadReply × Cluster W
    load c = load_got gzip c.stored (api.get c.world)

    unfoldable pub save : Text → Text → Cluster W → SaveReply × Cluster W
    save bytes version c =
        let body = pack gzip bytes in
        if ltb max_secret_bytes (length body)
        then (save_failed (other (text "too large")), c)
        else if is_empty version
        then created (length body) c.stored (api.create body c.world)
        else updated (length body) c.stored (api.update body version c.world)

    abbrev pub secret_backend : Backend (Cluster W)
    secret_backend = record { load = load; save = save; now = λ c. api.clock c.world }
