-- ===== src/Store/Snapshots.antt =====
-- internal/store/store.go: the snapshot of the model, restoring one, and the state of the store;
-- internal/store/backend.go: carrying a file over into a backend.
pub mod Restoring
pub mod Migrating
use devops_tools.Prelude.{
  ℕ, ◌+◌, Text, text, Bool, true, false, not, Option, none, some, List, [], ◌∷◌, Dict, length, ltb,
  ◌==◌, is_empty, if◌then◌else◌,
}
use devops_tools.Store.Model.{
  User, Model, Time, Error, unreadable, newer_format, no_users, write, Change,
}
use devops_tools.Store.Codec.{Document, set, is_newer, current_version}
use devops_tools.Store.Mutate.{
  Json, Backend, Store, Outcome, mutate, encode, LoadReply, SaveReply, loaded, load_failed, saved,
  save_failed,
}
use devops_tools.Store.Operations.{is_not_exist}
use devops_tools.Store.Secret.{Gzip, compressed, unpack}

unfoldable pub snapshot : Json → Store → Text
snapshot json s = encode json s.model

-- The change that puts a document in the place of the model.
unfoldable pub replace_by : Document → Change Unit
replace_by f now m = record { verdict = write; model = set f m; out = tt }

unfoldable pub refuse : {W : Type 0} → Error → Store → W → Outcome Unit W
refuse e s w = record { error = some e; out = tt; store = s; world = w }

module _ (json : Json) {W : Type 0} (backend : Backend W) where
  unfoldable pub restore_document : Document → Store → W → Outcome Unit W
  restore_document f s w = if is_newer f.version then refuse newer_format s w else elim f.users [
    | none ↦ refuse no_users s w
    | some _ ↦ mutate json backend (replace_by f) s w
  ]

  unfoldable pub restore_plain : Text → Store → W → Outcome Unit W
  restore_plain bytes s w = elim (json.unmarshal bytes) [
    | none ↦ refuse unreadable s w
    | some f ↦ restore_document f s w
  ]

module _ (json : Json) (gzip : Gzip) {W : Type 0} (backend : Backend W) where
  unfoldable pub restore : Text → Store → W → Outcome Unit W
  restore bytes s w =
      if compressed bytes
      then elim (unpack gzip bytes) [
        | none ↦ refuse unreadable s w
        | some plain ↦ restore_plain json backend plain s w
      ]
      else restore_plain json backend bytes s w

-- How many users hold a role.
unfoldable pub count_with_role : Dict User → ℕ
count_with_role [] = 0
count_with_role ((_, u) ∷ users) =
    let rest = count_with_role users in if ltb 0 (length u.roles) then rest + 1 else rest

-- `Stat`, without the name of the backend.
pub record Stat : Type 0 where
  pub bytes : ℕ
  pub raw : ℕ
  pub limit : ℕ
  pub users : ℕ
  pub with_role : ℕ
  pub roles : ℕ
  pub schema : ℕ
  pub current : Bool
  pub last_write : Time

-- Whether the stored version is the one in memory; false if it cannot be read.
unfoldable pub is_current : Text → LoadReply → Bool
is_current version (loaded _ stored) = stored == version
is_current version (load_failed _) = false

module _ (json : Json) {W : Type 0} (backend : Backend W) where
  -- `limit` and `measured` are what a backend with a ceiling, and one that knows its size, says.
  unfoldable pub stat : Option ℕ → Option (W → ℕ) → Store → W → Stat × W
  stat limit measured s w =
      let size = length (encode json s.model) in
      let (reply, w') = backend.load w in
      let stored : ℕ = elim measured [ none ↦ 0 | some stored_bytes ↦ stored_bytes w' ] in
      (
        record {
          bytes = if ltb 0 stored then stored else size;
          raw = size;
          limit = elim limit [ none ↦ 0 | some n ↦ n ];
          users = length s.model.users;
          with_role = count_with_role s.model.users;
          roles = length s.model.roles;
          schema = current_version;
          current = is_current s.version reply;
          last_write = s.last_write;
        },
        w',
      )

-- os.ReadFile on the old file.
pub data FileReply : Type 0 where
  contents : Text → FileReply
  missing : FileReply
  file_failed : Error → FileReply

unfoldable pub copied : {W : Type 0} → SaveReply × W → (Bool × Option Error) × W
copied (saved _, w) = ((true, none), w)
copied (save_failed e, w) = ((false, some e), w)

module _ {W : Type 0} (backend : Backend W) where
  unfoldable pub carry_over : FileReply → W → (Bool × Option Error) × W
  carry_over missing w = ((false, none), w)
  carry_over (file_failed e) w = ((false, some e), w)
  carry_over (contents bytes) w = copied (backend.save bytes [] w)

  unfoldable pub migrated : FileReply → LoadReply × W → (Bool × Option Error) × W
  migrated file (loaded _ _, w) = ((false, none), w)
  migrated file (load_failed e, w) =
      if not (is_not_exist e) then ((false, some e), w) else carry_over file w

  unfoldable pub migrate_file : FileReply → W → (Bool × Option Error) × W
  migrate_file file w = migrated file (backend.load w)
