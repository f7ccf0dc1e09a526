-- ===== src/Store/Mutate/Rounds.antt =====
-- Every way that a call of `mutate` can go (internal/store/store.go), as a relation, and what the
-- relation gives for each of them.
use devops_tools.Prelude.{
  ℕ, zero, suc, ◌≡◌, refl, true, false, Option, none, some, ◌⊎◌, inl, inr, Bool-cases,
}
use devops_tools.Store.Model.{Error, Verdict, write, no_change, fail, Change}
use devops_tools.Store.Mutate.{Json, Backend, Store, Outcome}
use devops_tools.Store.Mutate.{
  reload, persist, written, settle, give_up, retry, round, attempt, is_conflict,
}

module _ (json : Json) {W : Type 0} (backend : Backend W) {A : Type 0} (change : Change A) where
  -- The store with the change made to its model.
  abbrev pub changed : Store → W → Store
  changed s w = record s { model = (change (backend.now w) s.model).model }

  abbrev pub verdict : Store → W → Verdict
  verdict s w = (change (backend.now w) s.model).verdict

  abbrev pub result : Option Error → Store → W → Store → W → Outcome A W
  result e s w s' w' = record {
    error = e;
    out = (change (backend.now w) s.model).out;
    store = s';
    world = w';
  }

  pub data Runs : ℕ → Store → W → Outcome A W → Type 0 where
    unchanged :
        {left : ℕ} {s : Store} {w : W}
        → verdict s w ≡ no_change
        → Runs left s w (result none s w (changed s w) w)
    refused :
        {left : ℕ} {s : Store} {w : W} {e : Error}
        → verdict s w ≡ fail e
        → Runs left s w (result (some e) s w (changed s w) w)
    wrote :
        {left : ℕ} {s s' : Store} {w w' : W}
        → verdict s w ≡ write
        → persist json backend (changed s w) w ≡ (none, s', w')
        → Runs left s w (result none s w s' w')
    failed :
        {left : ℕ} {s s' : Store} {w w' : W} {e : Error}
        → verdict s w ≡ write
        → persist json backend (changed s w) w ≡ (some e, s', w')
        → (is_conflict e ≡ false) ⊎ (left ≡ 0)
        → Runs left s w (result (some e) s w s' w')
    lost :
        {left : ℕ} {s s' s'' : Store} {w w' w'' : W} {e e' : Error}
        → verdict s w ≡ write
        → persist json backend (changed s w) w ≡ (some e, s', w')
        → is_conflict e ≡ true
        → reload json backend s' w' ≡ (some e', s'', w'')
        → Runs (suc left) s w (result (some e') s w s'' w'')
    again :
        {left : ℕ} {s s' s'' : Store} {w w' w'' : W} {e : Error} {o : Outcome A W}
        → verdict s w ≡ write
        → persist json backend (changed s w) w ≡ (some e, s', w')
        → is_conflict e ≡ true
        → reload json backend s' w' ≡ (none, s'', w'')
        → Runs left s'' w'' o
        → Runs (suc left) s w o

  Runs-settle :
      (left : ℕ) (s : Store) (w : W) (v : Verdict)
      → verdict s w ≡ v
      → (on_conflict : Error → A → Store → W → Outcome A W)
      → ((e : Error) (s' : Store) (w' : W)
          → verdict s w ≡ write
          → persist json backend (changed s w) w ≡ (some e, s', w')
          → is_conflict e ≡ true
          → Runs left s w (on_conflict e (change (backend.now w) s.model).out s' w'))
      → Runs left s w
          (settle json backend on_conflict v (change (backend.now w) s.model).out (changed s w) w)
  unfolding settle written
  Runs-settle left s w no_change ev on_conflict h = unchanged ev
  Runs-settle left s w (fail e) ev on_conflict h = refused ev
  Runs-settle left s w write ev on_conflict h = go (persist json backend (changed s w) w) refl
    where
      go :
          (r : Option Error × Store × W)
          → persist json backend (changed s w) w ≡ r
          → Runs left s w (written json backend on_conflict (change (backend.now w) s.model).out r)
      go (none, s', w') e = wrote ev e
      go (some e, s', w') p = elim (Bool-cases (is_conflict e)) [
        | inl c ↦ rw c (h e s' w' ev p c)
        | inr c ↦ rw c (failed ev p (inl c))
      ]

  Runs-retry :
      (left : ℕ) (s : Store) (w : W)
      → ((s' : Store) (w' : W) → Runs left s' w' (attempt json backend change left s' w'))
      → (e : Error) (s' : Store) (w' : W) → verdict s w ≡ write
      → persist json backend (changed s w) w ≡ (some e, s', w')
      → is_conflict e ≡ true
      → (r : Option Error × Store × W) → reload json backend s' w' ≡ r
      → Runs (suc left) s w (
          retry json backend
            (attempt json backend change left)
            (change (backend.now w) s.model).out
            r)
  unfolding retry
  Runs-retry left s w ih e s' w' ev p c (none, s'', w'') q = again ev p c q (ih s'' w'')
  Runs-retry left s w ih e s' w' ev p c (some e', s'', w'') q = lost ev p c q

  -- Every run of the loop, with the rounds that may follow, is one of six: a change with nothing
  -- to write, a change that fails, a write that goes through, a write that fails for another
  -- reason than a conflict or in the last round, a conflict whose reload fails, and a conflict
  -- after which the run goes on from what was reloaded.
  pub attempt-Runs :
      (left : ℕ) (s : Store) (w : W) → Runs left s w (attempt json backend change left s w)
  unfolding attempt round give_up
  attempt-Runs zero s w =
      Runs-settle zero s w (verdict s w) refl _ (λ e s' w' ev p c. failed ev p (inr refl))
  attempt-Runs (suc left) s w = Runs-settle (suc left) s w (verdict s w) refl _ (λ e s' w' ev p c.
      Runs-retry left s w (attempt-Runs left) e s' w' ev p c (reload json backend s' w') refl)
