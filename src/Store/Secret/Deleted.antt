-- ===== src/Store/Secret/Deleted.antt =====
-- Writing to a Secret that was deleted (internal/store/secret.go with store.go).
use devops_tools.Prelude.{◌≤◌, Text, ◌≡◌, ◌≢◌, refl, arith, some, [], ◌∷◌, length}
use devops_tools.Store.Model.{Change, write, conflict, not_exist}
use devops_tools.Store.Mutate.{Json, Store, mutate, encode, is_conflict}
use devops_tools.Store.Mutate.{save_failed}
use devops_tools.Store.Mutate.Effects.{mutate-failed_reload}
use devops_tools.Store.Mutate.Rounds.{changed, verdict, result}
use devops_tools.Store.Secret.{Gzip, SecretsApi, Cluster, get_failed, put_failed, is_not_found}
use devops_tools.Store.Secret.{
  pack, load, load_got, save, updated, secret_backend, max_secret_bytes,
}

module _ (json : Json) (gzip : Gzip) {W : Type 0} (api : SecretsApi W) where
  module _ {A : Type 0} (change : Change A) (s : Store) (c : Cluster W) (w' w'' : W) where
    abbrev next : Store
    next = changed json (secret_backend gzip api) change s c

    abbrev body : Text
    body = pack gzip (encode json next.model)

    -- Once the Secret is deleted underneath a store, a change that fits fails with the error of
    -- an object that does not exist: the update is answered by a reload, which finds nothing, and
    -- nothing is written back. The store keeps the changed model and its old version.
    pub mutate_deleted :
        verdict json (secret_backend gzip api) change s c ≡ write
        → s.version ≢ []
        → length body ≤ max_secret_bytes
        → api.update body s.version c.world ≡ (put_failed is_not_found, w')
        → api.get w' ≡ (get_failed is_not_found, w'')
        → mutate json (secret_backend gzip api) change s c
          ≡ result json
              (secret_backend gzip api)
              change
              (some not_exist)
              s
              c
              next
              (record { world = w''; stored = c.stored })
    unfolding save load load_got updated is_conflict
    mutate_deleted writes old fits refused gone =
        mutate-failed_reload json (secret_backend gzip api) change s c
          (record { world = w'; stored = c.stored }) (record { world = w''; stored = c.stored })
          conflict not_exist writes (updates s.version refl) refl (rw gone refl)
      where
        updates :
            (v : Text)
            → s.version ≡ v
            → save gzip api (encode json next.model) s.version c
              ≡ (save_failed conflict, record { world = w'; stored = c.stored })
        updates [] e = absurd (old e)
        updates (x ∷ v) e = ground arith
