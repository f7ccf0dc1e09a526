-- ===== src/Store/Mutate/Effects.antt =====
-- What holds after `mutate`, by whether it reports an error (internal/store/store.go).
use devops_tools.Prelude.{Text, ℕ, ◌≡◌, refl, true, none, some, ◌⊎◌, inl, inr, false, sym, subst}
use devops_tools.Store.Model.{Model, Time, Error, write, no_change, fail, Change}
use devops_tools.Store.Mutate.{
  Json, Backend, Store, Outcome, save_failed, load_failed, loaded, apply, retry, reload, reloaded,
}
use devops_tools.Store.Mutate.{
  persisted, persist, mutate, encode, is_conflict, attempt, round, settle, written,
}
use devops_tools.Store.Mutate.Rounds.{
  changed, verdict, result, Runs, unchanged, refused, wrote, failed, lost, again, attempt-Runs,
}
use devops_tools.Store.Mutate.Writes.{persisted-none}

module _ (json : Json) {W : Type 0} (backend : Backend W) {A : Type 0} (change : Change A) where
  module _ (P : A → Model → Type 0)
      (post : (now : Time) (m : Model)
        → ((change now m).verdict ≡ write) ⊎ ((change now m).verdict ≡ no_change)
        → P (change now m).out (change now m).model) where
    Runs-post :
        {left : ℕ} {s : Store} {w : W} {o : Outcome A W}
        → Runs json backend change left s w o
        → o.error ≡ none
        → P o.out o.store.model
    unfolding persist
    Runs-post {s = s} {w = w} (unchanged n) h = post (backend.now w) s.model (inr n)
    Runs-post (refused n) h = cc
    Runs-post {s = s} {w = w} (wrote {s' = s'} {w' = w'} n p) h =
        subst (P _)
          (sym (persisted-none json backend (changed json backend change s w) s' w' _ p).1)
          (post (backend.now w) s.model (inl n))
    Runs-post (failed n p c) h = cc
    Runs-post (lost n p c q) h = cc
    Runs-post (again n p c q r) h = Runs-post r h

    -- What a change makes true whenever it does not fail holds of the model in memory, and of
    -- what the caller is told, when `mutate` reports no error.
    pub mutate_post :
        (s : Store) (w : W)
        → (mutate json backend change s w).error ≡ none
        → P (mutate json backend change s w).out (mutate json backend change s w).store.model
    unfolding mutate
    mutate_post s w h = Runs-post (attempt-Runs json backend change _ s w) h

  -- A write that the backend refuses for another reason than a conflict is reported, and yet the
  -- changed model stays in memory, under the version of the unchanged document.
  pub mutate-failed_save :
      (s : Store) (w w' : W) (e : Error)
      → verdict json backend change s w ≡ write
      → backend.save (encode json (changed json backend change s w).model) s.version w
        ≡ (save_failed e, w')
      → is_conflict e ≡ false
      → mutate json backend change s w
        ≡ result json backend change (some e) s w (changed json backend change s w) w'
  unfolding mutate attempt round persist persisted written settle
  mutate-failed_save s w w' e n p c = rw (n, settle, p, persisted, written, c)

  -- A conflict whose reload fails ends the call with the error of the reload. The changed model
  -- stays in memory, under the version that it was refused with.
  pub mutate-failed_reload :
      (s : Store) (w w' w'' : W) (e e' : Error)
      → verdict json backend change s w ≡ write
      → backend.save (encode json (changed json backend change s w).model) s.version w
        ≡ (save_failed e, w')
      → is_conflict e ≡ true
      → backend.load w' ≡ (load_failed e', w'')
      → mutate json backend change s w
        ≡ result json backend change (some e') s w (changed json backend change s w) w''
  unfolding mutate attempt round persist persisted written settle retry reload reloaded
  mutate-failed_reload s w w' w'' e e' n p c q =
      rw (n, settle, p, persisted, written, c, q, reloaded, retry) refl

  -- A conflict, a document that can be read, and a change that fails on it: the call ends with the
  -- error of the change, and the store is the one that was reloaded.
  pub mutate-refused_again :
      (s s' : Store) (w w' w'' : W) (e e' : Error) (bytes version : Text)
      → verdict json backend change s w ≡ write
      → backend.save (encode json (changed json backend change s w).model) s.version w
        ≡ (save_failed e, w')
      → is_conflict e ≡ true
      → backend.load w' ≡ (loaded bytes version, w'')
      → apply json bytes version (changed json backend change s w) ≡ (none, s')
      → verdict json backend change s' w'' ≡ fail e'
      → mutate json backend change s w
        ≡ result json backend change (some e') s' w'' (changed json backend change s' w'') w''
  unfolding mutate attempt round persist persisted written settle retry reload reloaded
  mutate-refused_again s s' w w' w'' e e' bytes version n p c q a n' =
      rw (n, settle, p, persisted, written, c, q, reloaded, a, retry, n', settle) refl
