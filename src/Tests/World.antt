-- ===== src/Tests/World.antt =====
-- The models, the object server and the codec that the tests run on.
use devops_tools.Prelude.{
  ℕ, ◌+◌, Text, text, ◌≡◌, refl, arith, true, false, Option, none, some, inl, inr, ◌⊎◌, sym,
}
use devops_tools.Prelude.{[], ◌∷◌, Dict, ◌==◌, if◌then◌else◌, length, is_empty, text_dec}
use devops_tools.Config.Roles.{RoleSpec, RbacConfig, star}
use devops_tools.Store.Model.{User, Model, Error, conflict, not_exist}
use devops_tools.Store.Codec.{Document, encode_file}
use devops_tools.Store.Mutate.{
  Json, Backend, Store, LoadReply, SaveReply, loaded, load_failed, saved, save_failed,
}
use devops_tools.Store.Mutate.Writes.{Versioned}
use devops_tools.Store.Mutate.Bounds.{Counts}

abbrev pub viewer : RoleSpec
viewer = record {
  description = text "viewer";
  namespaces = (record { namespace = text "shop"; operations = text "status" ∷ [] }) ∷ [];
  global = [];
  configs = [];
}

abbrev pub operator : RoleSpec
operator = record {
  description = [];
  namespaces = [];
  global = star ∷ [];
  configs = (record { path = text "apps/shop"; operations = star ∷ [] }) ∷ [];
}

abbrev pub two_roles : Dict RoleSpec
two_roles = (text "viewer", viewer) ∷ (text "operator", operator) ∷ []

abbrev pub deployed : RbacConfig
deployed = record { operations = text "status" ∷ []; roles = two_roles }

abbrev pub alice : User
alice = record {
  username = text "Alice";
  email = text "a@x";
  provider = text "local";
  groups = text "dev" ∷ text "ops" ∷ [];
  roles = text "viewer" ∷ [];
  first_seen = 7;
  last_seen = 9;
  password_hash = text "h";
  managed = true;
}

abbrev pub bob : User
bob = record alice { username = text "bob"; groups = text "dev" ∷ []; roles = []; managed = false }

abbrev pub two_users : Dict User
two_users = (text "alice", alice) ∷ (text "bob", bob) ∷ []

abbrev pub team : Model
team = record { users = two_users; roles = two_roles; lockouts = []; seen_dirty = false }

abbrev pub unseeded : Model
unseeded = record team { roles = [] }

-- An object with a version, and how many writes were asked for.
abbrev pub Server : Type 0
Server = Option Text × ℕ

-- The version of an object is told by what it holds.
abbrev pub version_of : Text → Text
version_of bytes = b'v' ∷ bytes

abbrev pub read_object : Server → LoadReply × Server
read_object (none, n) = (load_failed not_exist, (none, n))
read_object (some bytes, n) = (loaded bytes (version_of bytes), (some bytes, n))

abbrev pub write_object : Text → Text → Server → SaveReply × Server
write_object bytes version (none, n) =
    if is_empty version
    then (saved (version_of bytes), (some bytes, n + 1))
    else (save_failed conflict, (none, n + 1))
write_object bytes version (some old, n) =
    if version == version_of old
    then (saved (version_of bytes), (some bytes, n + 1))
    else (save_failed conflict, (some old, n + 1))

abbrev pub server : Backend Server
server = record { load = read_object; save = write_object; now = λ _. 1000 }

-- A server that refuses every write.
abbrev pub refusing : Backend Server
refusing = record server {
  save = λ bytes version w. (save_failed (Error.other (text "forbidden")), w);
}

-- A codec for the documents of as many users and lockouts as `team` has.
abbrev pub known_document : Document
known_document = encode_file team

abbrev pub marks : Document → Text
marks d = (elim d.users [ none ↦ 0 | some u ↦ length u ]) ∷ length d.lockouts ∷ []

abbrev pub json : Json
json = record {
  marshal = marks;
  unmarshal = λ bytes. if bytes == (2 ∷ 0 ∷ []) then some known_document else none;
}

abbrev pub held : Server → Option (Text × Text)
held (none, n) = none
held (some bytes, n) = some (bytes, version_of bytes)

pub load_held :
    (w w' : Server) (bytes version : Text)
    → read_object w ≡ (loaded bytes version, w')
    → held w ≡ some (bytes, version)
load_held (none, n) w' bytes version h = absurd (ground arith)
load_held (some b, n) w' bytes version h = ground arith

pub save_held :
    (w w' : Server) (bytes version version' : Text)
    → write_object bytes version w ≡ (saved version', w')
    → ((version ≡ []) × (held w ≡ none)) ⊎ ((old : Text) × (held w ≡ some (old, version)))
save_held (none, n) w' bytes [] version' h = inl (refl, refl)
save_held (none, n) w' bytes (c ∷ v) version' h = absurd (ground arith)
save_held (some b, n) w' bytes version version' h = elim (text_dec version (version_of b)) [
  | yes e ↦ inr (b, λ i. some (b, sym e i))
  | no ne ↦ absurd (ground arith)
]

pub one_held :
    (w w' : Server) (bytes bytes' version : Text)
    → held w ≡ some (bytes, version)
    → held w' ≡ some (bytes', version)
    → bytes ≡ bytes'
one_held (none, n) w' bytes bytes' version h k = absurd (ground arith)
one_held (some b, n) (none, n') bytes bytes' version h k = absurd (ground arith)
one_held (some b, n) (some b', n') bytes bytes' version h k = ground arith

abbrev pub server_versions : Versioned server
server_versions = record {
  holds = held;
  load_holds = load_held;
  save_holds = save_held;
  one_document = one_held;
}

pub load_count : (w : Server) → (read_object w).1.1 ≡ w.1
load_count (none, n) = refl
load_count (some b, n) = refl

pub save_count : (bytes version : Text) (w : Server) → (write_object bytes version w).1.1 ≡ w.1 + 1
save_count bytes version (none, n) = ground arith
save_count bytes version (some b, n) = ground arith

abbrev pub server_counts : Counts server
server_counts = record { saves = λ w. w.1; load_saves = load_count; save_saves = save_count }

-- The store of a replica that has read the document, and of one that has fallen behind.
abbrev pub current : Store
current = record { model = team; version = version_of (2 ∷ 0 ∷ []); last_write = 0 }

abbrev pub behind : Store
behind = record current { version = text "v0" }

abbrev pub stored : Server
stored = (some (2 ∷ 0 ∷ []), 0)
