-- ===== src/Store/Snapshots/Restoring.antt =====
-- A snapshot restored (internal/store/store.go), and what the state of the store says.
use devops_tools.Prelude.{
  ℕ, ◌≤◌, Text, ◌≡◌, refl, ap, ◌∙◌, arith, true, false, Option, none, some, ◌⊎◌, [], ◌∷◌, Dict,
  length, eq_of_==,
}
use devops_tools.Store.Model.{User, Model, write, no_change}
use devops_tools.Store.Codec.{encode_file, is_newer}
use devops_tools.Store.Codec.RoundTrip.{set-encode_file}
use devops_tools.Store.Mutate.{Json, Backend, Store, mutate, LoadReply, loaded, load_failed}
use devops_tools.Store.Mutate.Effects.{mutate_post}
use devops_tools.Store.Mutate.Writes.{Versioned}
use devops_tools.Store.Secret.{Gzip, compressed, pack, unpack, max_unpacked}
use devops_tools.Store.Secret.Packing.{GzipLaws, unpack-pack}
use devops_tools.Store.Snapshots.{
  snapshot, restore, restore_plain, restore_document, replace_by, stat, is_current, count_with_role,
}

-- The models agree in all that is stored.
pub record SameStored (m m' : Model) : Type 0 where
  pub users : m.users ≡ m'.users
  pub roles : m.roles ≡ m'.roles
  pub lockouts : m.lockouts ≡ m'.lockouts

module _ (json : Json) (gzip : Gzip) {W : Type 0} (backend : Backend W) where
  restore_encode_file :
      (from s : Store) (w : W)
      → restore_document json backend (encode_file from.model) s w
        ≡ mutate json backend (replace_by (encode_file from.model)) s w
  unfolding restore_document encode_file is_newer
  restore_encode_file from s w = refl

  restore-plain_packed :
      (laws : GzipLaws gzip) (bytes : Text) (s : Store) (w : W)
      → compressed bytes ≡ false
      → length bytes ≤ max_unpacked
      → restore json gzip backend (pack gzip bytes) s w ≡ restore_plain json backend bytes s w
  unfolding restore unpack
  restore-plain_packed laws bytes s w plain small =
      ground (arith, unpack-pack gzip laws bytes plain small)

  -- A snapshot that was taken of one store, packed as it is in a Secret or plain where it is too
  -- small to be packed, and restored into another without an error, makes the users, the roles
  -- and the lockouts of the other those of the first.
  pub restore-snapshot :
      (laws : GzipLaws gzip) (from s : Store) (w : W)
      → json.unmarshal (snapshot json from) ≡ some (encode_file from.model)
      → compressed (snapshot json from) ≡ false
      → length (snapshot json from) ≤ max_unpacked
      → (restore json gzip backend (pack gzip (snapshot json from)) s w).error ≡ none
      → SameStored
          (restore json gzip backend (pack gzip (snapshot json from)) s w).store.model
          from.model
  unfolding replace_by restore_plain mutate
  restore-snapshot laws from s w law plain small ok = rw same (
      mutate_post json backend (replace_by (encode_file from.model))
        (λ _ m. SameStored m from.model) post s w (rw (← same) ok))
    where
      post :
          (now : ℕ) (m : Model)
          → ((replace_by (encode_file from.model) now m).verdict ≡ write)
            ⊎ ((replace_by (encode_file from.model) now m).verdict ≡ no_change)
          → SameStored (replace_by (encode_file from.model) now m).model from.model
      post now m h =
          rw (set-encode_file from.model m) (record { users = refl; roles = refl; lockouts = refl })

      same :
          restore json gzip backend (pack gzip (snapshot json from)) s w
          ≡ mutate json backend (replace_by (encode_file from.model)) s w
      same =
          restore-plain_packed laws (snapshot json from) s w plain small
          ∙ rw (law, restore_plain) (restore_encode_file from s w)

count_with_role-le : (users : Dict User) → count_with_role users ≤ length users
unfolding count_with_role
count_with_role-le [] = omega arith
count_with_role-le ((k, u) ∷ users) = ground (arith, count_with_role-le users)

-- The state of the store counts at most every user as holding a role, and calls this copy current
-- only if the stored object has the version of this copy.
pub stat-is_current :
    (json : Json) {W : Type 0} (backend : Backend W) (v : Versioned backend) (limit : Option ℕ)
    (measured : Option (W → ℕ)) (s : Store) (w : W)
    → let st = (stat json backend limit measured s w).0 in
      (st.with_role ≤ st.users)
      × (st.current ≡ true → (bytes : Text) × (v.holds w ≡ some (bytes, s.version)))
unfolding stat is_current
stat-is_current json {W} backend v limit measured s w =
    (count_with_role-le s.model.users, go (backend.load w) refl)
  where
    go :
        (r : LoadReply × W)
        → backend.load w ≡ r
        → is_current s.version r.0 ≡ true
        → (bytes : Text) × (v.holds w ≡ some (bytes, s.version))
    go (loaded bytes stored, w') e h = (
      bytes,
      v.load_holds w w' bytes stored e ∙ ap (λ t. some (bytes, t)) (eq_of_== stored s.version h),
    )
    go (load_failed x, w') e h = absurd (ground arith)
