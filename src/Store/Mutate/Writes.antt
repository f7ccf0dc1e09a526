-- ===== src/Store/Mutate/Writes.antt =====
-- What `mutate` writes, and over what (internal/store/store.go).
use devops_tools.Prelude.{
  ℕ, Text, ◌≡◌, refl, ap, subst, [], Option-cases, Option, none, some, ◌⊎◌, inl, inr, arith, sym,
}
use devops_tools.Store.Model.{Model, Error, no_change, Change}
use devops_tools.Store.Codec.{Document, set}
use devops_tools.Store.Mutate.{
  Json, Backend, Store, Outcome, LoadReply, SaveReply, saved, save_failed, loaded, load_failed,
}
use devops_tools.Store.Mutate.{apply, encode, reload, reloaded, persisted, persist, mutate}
use devops_tools.Store.Mutate.Rounds.{
  changed, verdict, Runs, unchanged, refused, wrote, failed, lost, again, attempt-Runs,
}

-- The documented behaviour of an object with optimistic versions, such as a Secret with its
-- resourceVersion: `holds` is the object that the server has when it serves the next call.
pub record Versioned {W : Type 0} (backend : Backend W) : Type 0 where
  pub holds : W → Option (Text × Text)
  pub load_holds :
      (w w' : W) (bytes version : Text)
      → backend.load w ≡ (loaded bytes version, w')
      → holds w ≡ some (bytes, version)
  pub save_holds :
      (w w' : W) (bytes version version' : Text)
      → backend.save bytes version w ≡ (saved version', w')
      → ((version ≡ []) × (holds w ≡ none)) ⊎ ((old : Text) × (holds w ≡ some (old, version)))
  pub one_document :
      (w w' : W) (bytes bytes' version : Text)
      → holds w ≡ some (bytes, version)
      → holds w' ≡ some (bytes', version)
      → bytes ≡ bytes'

module _ (json : Json) {W : Type 0} (backend : Backend W) where
  pub persisted-none :
      (s s' : Store) (w' : W) (r : SaveReply × W)
      → persisted json backend s r ≡ (none, s', w')
      → (r ≡ (saved s'.version, w')) × (s'.model ≡ s.model)
  unfolding persisted
  persisted-none s s' w' (saved v, w1) p =
      (λ i. (saved (p i).1.version, (p i).2), sym (ap (λ t. t.1.model) p))
  persisted-none s s' w' (save_failed x, w1) p = absurd (ground arith)

  persisted-some :
      (s s' : Store) (w' : W) (e : Error) (r : SaveReply × W)
      → persisted json backend s r ≡ (some e, s', w')
      → (r ≡ (save_failed e, w')) × (s' ≡ s)
  unfolding persisted
  persisted-some s s' w' e (saved v, w1) p = absurd (ground arith)
  persisted-some s s' w' e (save_failed x, w1) p = (ground arith, sym (ap (λ t. t.1) p))

  -- A reload that went well read the object, and the model is what its document says.
  record Reread (s s' : Store) (r : LoadReply × W) (w' : W) : Type 0 where
    bytes : Text
    document : Document
    read : r ≡ (loaded bytes s'.version, w')
    parsed : json.unmarshal bytes ≡ some document
    restored : s'.model ≡ set document s.model

  apply-none :
      (s s' : Store) (bytes version : Text)
      → apply json bytes version s ≡ (none, s')
      → (document : Document) × (json.unmarshal bytes ≡ some document)
        × (s'.version ≡ version)
        × (s'.model ≡ set document s.model)
  unfolding apply
  apply-none s s' bytes version h = elim (Option-cases (json.unmarshal bytes)) [
    | inl e ↦ absurd (ground arith)
    | inr (f, e) ↦ (f, e, ground arith, ground arith)
  ]

  reloaded-none :
      (s s' : Store) (w' : W) (r : LoadReply × W)
      → reloaded json backend s r ≡ (none, s', w')
      → Reread s s' r w'
  unfolding reloaded
  reloaded-none s s' w' (load_failed e, w1) p = absurd (ground arith)
  reloaded-none s s' w' (loaded bytes version, w1) p =
      let (f, parsed, v, restored) = apply-none s s' bytes version (λ i. ((p i).0, (p i).1)) in
      record {
        bytes = bytes;
        document = f;
        read = λ i. (loaded bytes (sym v i), (p i).2);
        parsed = parsed;
        restored = restored;
      }

module _ (json : Json) {W : Type 0} (backend : Backend W) {A : Type 0} (change : Change A) where
  module _ (v : Versioned backend) where
    -- Where the model under a write came from: the store as it was when the call began, or the
    -- document `old`.
    abbrev pub Source : Store → Store → Text → Type 0
    Source s base old =
        (base ≡ s)
        ⊎ ((f : Document) × (m : Model) × (json.unmarshal old ≡ some f) × (base.model ≡ set f m))

    pub data Accounts (s : Store) (o : Outcome A W) : Type 0 where
      kept :
          (base : Store) (at : W)
          → verdict json backend change base at ≡ no_change
          → o.store ≡ changed json backend change base at
          → Accounts s o
      created :
          (base : Store) (at : W)
          → o.store.model ≡ (changed json backend change base at).model
          → backend.save (encode json o.store.model) base.version at
            ≡ (saved o.store.version, o.world)
          → v.holds at ≡ none
          → Accounts s o
      replaced :
          (base : Store) (at : W) (old : Text)
          → o.store.model ≡ (changed json backend change base at).model
          → backend.save (encode json o.store.model) base.version at
            ≡ (saved o.store.version, o.world)
          → v.holds at ≡ some (old, base.version)
          → Source s base old
          → Accounts s o

    Accounts-wrote :
        (s s' : Store) (w w' : W)
        → persist json backend (changed json backend change s w) w ≡ (none, s', w')
        → (out : A) → Accounts s (record { error = none; out = out; store = s'; world = w' })
    unfolding persist
    Accounts-wrote s s' w w' p out =
        let (e, m) = persisted-none json backend (changed json backend change s w) s' w' _ p in
        let e' =
          subst (λ x. backend.save (encode json x) s.version w ≡ (saved s'.version, w')) (sym m)
            e in
        elim (v.save_holds w w' _ s.version s'.version e) [
          | inl (_, none_held) ↦ created s w m e' none_held
          | inr (old, held) ↦ replaced s w old m e' held (inl refl)
        ]

    -- After a reload the store is what was read.
    Accounts-again :
        (s s'' : Store) (w' w'' : W) (o : Outcome A W)
        → (s1 : Store) → reload json backend s1 w' ≡ (none, s'', w'')
        → Accounts s'' o
        → Accounts s o
    unfolding reload
    Accounts-again s s'' w' w'' o s1 p (kept base at n e) = kept base at n e
    Accounts-again s s'' w' w'' o s1 p (created base at m e h) = created base at m e h
    Accounts-again s s'' w' w'' o s1 p (replaced base at old m e h (inr src)) =
        replaced base at old m e h (inr src)
    Accounts-again s s'' w' w'' o s1 p (replaced base at old m e h (inl same)) =
        let r = reloaded-none json backend s1 s'' w'' (backend.load w') p in
        let read = v.load_holds w' w'' r.bytes s''.version r.read in
        let docs = v.one_document w' at r.bytes old base.version (rw same read) h in
        replaced base at old m e h (
          inr (
            r.document,
            s1.model,
            subst (λ b. json.unmarshal b ≡ some r.document) docs r.parsed,
            rw same r.restored,
          ))

    Runs-Accounts :
        {left : ℕ} {s : Store} {w : W} {o : Outcome A W}
        → Runs json backend change left s w o
        → o.error ≡ none
        → Accounts s o
    Runs-Accounts {s = s} {w = w} (unchanged n) h = kept s w n refl
    Runs-Accounts (refused n) h = cc
    Runs-Accounts {s = s} {w = w} (wrote n p) h = Accounts-wrote s _ w _ p _
    Runs-Accounts (failed n p c) h = cc
    Runs-Accounts (lost n p c q) h = cc
    Runs-Accounts {s = s} {o = o} (again {s' = s'} {s'' = s''} {w' = w'} {w'' = w''} n p c q r) h =
        Accounts-again s s'' w' w'' o s' q (Runs-Accounts r h)

    -- No lost update. If `mutate` reports no error, either the change had nothing to write, or the
    -- object was not there and was created, or the write replaced a document while it was still
    -- the stored one; and the model that the change was then applied to is that of the store when
    -- the call began, or is read from the very document that was replaced.
    pub mutate-Accounts :
        (s : Store) (w : W)
        → (mutate json backend change s w).error ≡ none
        → Accounts s (mutate json backend change s w)
    unfolding mutate
    mutate-Accounts s w h = Runs-Accounts (attempt-Runs json backend change _ s w) h
