-- ===== src/Store/Mutate/Bounds.antt =====
-- How often `mutate` writes (internal/store/store.go).
use devops_tools.Prelude.{sym, ◌∙◌, ℕ, suc, ◌+◌, ◌≤◌, Text, ◌≡◌, refl, ap, arith, Option}
use devops_tools.Store.Model.{Error, Change}
use devops_tools.Store.Mutate.{
  Json, Backend, Store, Outcome, LoadReply, SaveReply, saved, save_failed, loaded, load_failed,
}
use devops_tools.Store.Mutate.{reload, reloaded, persisted, persist, mutate, max_write_attempts}
use devops_tools.Store.Mutate.Rounds.{
  Runs, unchanged, refused, wrote, failed, lost, again, attempt-Runs,
}

-- A server that counts the writes that it is asked for.
pub record Counts {W : Type 0} (backend : Backend W) : Type 0 where
  pub saves : W → ℕ
  pub load_saves : (w : W) → saves (backend.load w).1 ≡ saves w
  pub save_saves :
      (bytes version : Text) (w : W) → saves (backend.save bytes version w).1 ≡ saves w + 1

module _ (json : Json) {W : Type 0} (backend : Backend W) where
  world-persisted : (s : Store) (r : SaveReply × W) → (persisted json backend s r).2 ≡ r.1
  unfolding persisted
  world-persisted s (saved v, w) = refl
  world-persisted s (save_failed e, w) = refl

  world-reloaded : (s : Store) (r : LoadReply × W) → (reloaded json backend s r).2 ≡ r.1
  unfolding reloaded
  world-reloaded s (loaded b v, w) = refl
  world-reloaded s (load_failed e, w) = refl

  module _ (n : Counts backend) where
    saves-persist :
        (s s' : Store) (w w' : W) (e : Option Error)
        → persist json backend s w ≡ (e, s', w')
        → n.saves w' ≡ n.saves w + 1
    unfolding persist
    saves-persist s s' w w' e p =
        ap (λ r. n.saves r.2) (sym p) ∙ ap n.saves (world-persisted s _) ∙ n.save_saves _ _ w

    saves-reload :
        (s s' : Store) (w w' : W) (e : Option Error)
        → reload json backend s w ≡ (e, s', w')
        → n.saves w' ≡ n.saves w
    unfolding reload
    saves-reload s s' w w' e p =
        ap (λ r. n.saves r.2) (sym p) ∙ ap n.saves (world-reloaded s _) ∙ n.load_saves w

    module _ {A : Type 0} (change : Change A) where
      saves-Runs :
          {left : ℕ} {s : Store} {w : W} {o : Outcome A W}
          → Runs json backend change left s w o
          → n.saves o.world ≤ n.saves w + suc left
      saves-Runs (unchanged e) = omega arith
      saves-Runs (refused e) = omega arith
      saves-Runs (wrote e p) = omega (arith, saves-persist _ _ _ _ _ p)
      saves-Runs (failed e p c) = omega (arith, saves-persist _ _ _ _ _ p)
      saves-Runs (lost e p c q) = omega (arith, saves-persist _ _ _ _ _ p, saves-reload _ _ _ _ _ q)
      saves-Runs (again e p c q r) =
          omega (arith, saves-persist _ _ _ _ _ p, saves-reload _ _ _ _ _ q, saves-Runs r)

      -- Whatever the other writers do, one call of `mutate` ends, and asks for at most
      -- `max_write_attempts` writes.
      pub saves-mutate-le :
          (s : Store) (w : W)
          → n.saves (mutate json backend change s w).world ≤ n.saves w + max_write_attempts
      unfolding mutate
      saves-mutate-le s w = saves-Runs (attempt-Runs json backend change _ s w)
