-- ===== src/Store/Snapshots/Migrating.antt =====
-- A file carried over into a Secret (internal/store/backend.go).
use devops_tools.Prelude.{Text, ◌≡◌, refl, arith, true, none, inl, inr, [], Bool-cases, length, ltb}
use devops_tools.Store.Mutate.{LoadReply, SaveReply, loaded, load_failed, saved, save_failed}
use devops_tools.Store.Secret.{
  Gzip, SecretsApi, Cluster, secret_backend, load, save, pack, max_secret_bytes,
}
use devops_tools.Store.Secret.Server.{ResourceVersions, created-saved}
use devops_tools.Store.Snapshots.{
  FileReply, contents, missing, file_failed, migrate_file, migrated, carry_over, copied,
}

module _ (gzip : Gzip) {W : Type 0} (api : SecretsApi W) (v : ResourceVersions api) where
  save-created :
      (bytes version : Text) (c c' : Cluster W)
      → save gzip api bytes [] c ≡ (saved version, c')
      → v.object c.world ≡ none
  unfolding save
  save-created bytes version c c' h =
      elim (Bool-cases (ltb max_secret_bytes (length (pack gzip bytes)))) [
        | inl big ↦ absurd (ground arith)
        | inr fits ↦
            let (o, r) =
              created-saved gzip (length (pack gzip bytes)) c.stored
                (api.create (pack gzip bytes) c.world) version c' (ground arith) in
            v.create_object c.world _ _ o r
      ]

  -- The file is carried over only where there is no Secret: when the call says that it copied the
  -- file, the file had been read, and the server had no Secret when it was to be created. A model
  -- that is already there is never written over.
  pub migrate_file-object :
      (file : FileReply) (c : Cluster W)
      → (migrate_file (secret_backend gzip api) file c).0 ≡ (true, none)
      → (bytes : Text) × (file ≡ contents bytes) × (v.object (load gzip api c).1.world ≡ none)
  unfolding migrate_file migrated carry_over copied
  migrate_file-object file c h = go file (load gzip api c) h
    where
      go :
          (f : FileReply) (r : LoadReply × Cluster W)
          → (migrated (secret_backend gzip api) f r).0 ≡ (true, none)
          → (bytes : Text) × (f ≡ contents bytes) × (v.object r.1.world ≡ none)
      go f (loaded b t, c1) k = absurd (ground arith)
      go missing (load_failed e, c1) k = absurd (ground arith)
      go (file_failed x) (load_failed e, c1) k = absurd (ground arith)
      go (contents bytes) (load_failed e, c1) k = (bytes, refl, at (save gzip api bytes [] c1) refl)
        where
          at :
              (r : SaveReply × Cluster W) → save gzip api bytes [] c1 ≡ r → v.object c1.world ≡ none
          at (saved t, c2) q = save-created bytes t c1 c2 q
          at (save_failed x, c2) q = absurd (ground arith)
