-- ===== src/Auth/Limiter/Sharing.antt =====
-- The limiter over the store of users: internal/auth/limiter.go with internal/store.
use devops_tools.Prelude.{
  ◌+◌, ◌≤◌, Text, ◌≡◌, refl, ap, arith, true, false, Option, none, some, ◌∙◌,
}
use devops_tools.Prelude.{
  [], ◌∷◌, Dict, erase, lookup-erase, has_key, filter, lookup, lookup-insert, leb,
}
use devops_tools.Store.Model.{Model, Time, Error, key, known}
use devops_tools.Store.Lockouts as Locks
use devops_tools.Store.Mutate.{Json, Backend, Store, Outcome}
use devops_tools.Store.Mutate.Effects.{mutate_post}
use devops_tools.Store.Operations
use devops_tools.Auth.Limiter.{Records, Lockouts, max_failed_attempts, lockout_window}
use devops_tools.Auth.Limiter.{is_shut_out, allow, failed_record, fail, reset, share}

module _ (json : Json) {W : Type 0} (backend : Backend W) where
  abbrev pub Directory : Type 0
  Directory = Store × W

  -- What the caller of an operation of the store goes on with.
  abbrev pub reply : Outcome Unit W → Option Error × Directory
  reply o = (o.error, (o.store, o.world))

  -- The store as the directory of the limiter.
  abbrev pub directory : Lockouts Directory
  directory = record {
    locked_until = λ (s, w) username now. Locks.locked_until s.model username now;
    lock_until =
        λ username until (s, w). reply (Operations.lock_until json backend username until s w);
    unlock = λ username (s, w). reply (Operations.unlock json backend username s w);
    known = λ (s, w) username. known s.model username;
  }

-- An account locked until a time.
abbrev pub LockedTo : Time → Text → Model → Type 0
LockedTo until name m = lookup (key name) m.lockouts ≡ some until

locked_until-LockedTo :
    (until now : Time) (name : Text) (m : Model)
    → LockedTo until name m
    → now ≤ until
    → Locks.locked_until m name now ≡ until
unfolding Locks.locked_until
locked_until-LockedTo until now name m h live = ground arith

lock_until_post :
    (username : Text) (until now : Time) (m : Model)
    → LockedTo until username (Locks.lock_until username until now m).model
unfolding Locks.lock_until
lock_until_post username until now m =
    ground (
      arith,
      lookup-insert (key username) (key username) until (Locks.prune_lockouts now m.lockouts),
    )

module _ (json : Json) {W : Type 0} (backend : Backend W) where
  module _ (username : Text) (now : Time) (records : Records) (s : Store) (w : W) where
    abbrev pub until : Time
    until = now + lockout_window

    abbrev pub after : Directory json backend
    after = (fail (some (directory json backend)) username now records (s, w)).1

    after-LockedTo :
        leb max_failed_attempts (failed_record username now records).failures ≡ true
        → known s.model username ≡ true
        → Locks.locked_until s.model username now ≡ 0
        → (Operations.lock_until json backend username until s w).error ≡ none
        → LockedTo until username after.0.model
    unfolding fail share Operations.lock_until
    after-LockedTo reached account fresh ok =
        let post =
          mutate_post json backend (Locks.lock_until username until)
            (λ _ m. LockedTo until username m) (λ t m _. lock_until_post username until t m) s w
            ok in
        rw (reached, account, fresh) post

    module _
        (reached : leb max_failed_attempts (failed_record username now records).failures ≡ true)
        (account : known s.model username ≡ true)
        (fresh : Locks.locked_until s.model username now ≡ 0)
        (ok : (Operations.lock_until json backend username until s w).error ≡ none) where
      -- A failure that brings the count to five or more, for an account that exists and is not
      -- locked out, shuts out the whole account until the window ends, if the write went well: on
      -- every replica that holds the lockouts of this one, whatever that replica counted, under
      -- every spelling of the name with the same key.
      pub allow_shared_lockout :
          (s' : Store) (w' : W) (name : Text) (now' : Time) (records' : Records)
          → s'.model.lockouts ≡ after.0.model.lockouts
          → key name ≡ key username
          → now' ≤ until
          → (allow (some (directory json backend)) name now' records' (s', w')).0 ≡ false
      unfolding allow is_shut_out
      allow_shared_lockout s' w' name now' records' same spelling live =
          let locked : LockedTo until name s'.model =
            ap (λ l. lookup (key name) l) same
            ∙ ap (λ k. lookup k after.0.model.lockouts) spelling
            ∙ after-LockedTo reached account fresh ok in
          ground (arith, locked_until-LockedTo until now' name s'.model locked live)

prune_lockouts-none :
    (now : Time) (k : Text) (m : Dict Time)
    → lookup k m ≡ none
    → lookup k (Locks.prune_lockouts now m) ≡ none
unfolding Locks.prune_lockouts lookup filter
prune_lockouts-none now k [] h = refl
prune_lockouts-none now k ((j, t) ∷ m) h = ground (arith, prune_lockouts-none now k m)

unlock_post :
    (username : Text) (now : Time) (m : Model)
    → lookup (key username) (Locks.unlock username now m).model.lockouts ≡ none
unfolding Locks.unlock has_key
unlock_post username now m = ground (
  arith,
  lookup-erase (key username) (key username) m.lockouts,
  prune_lockouts-none now (key username) (erase (key username) m.lockouts),
)

module _ (json : Json) {W : Type 0} (backend : Backend W) where
  module _ (username : Text) (now now' : Time) (records : Records) (s : Store) (w : W) where
    -- After a sign-in that succeeded another attempt under that name is allowed, whatever was
    -- counted and whatever lockout was in force, if the store lifts a lockout without an error.
    pub allow-reset :
        now ≤ now'
        → (Operations.unlock json backend username s w).error ≡ none
        → let (records', d) = reset (some (directory json backend)) username now records (s, w) in
          (allow (some (directory json backend)) username now' records' d).0 ≡ true
    unfolding allow is_shut_out reset Locks.locked_until Operations.unlock
    allow-reset later ok =
        let post =
          mutate_post json backend (Locks.unlock username)
            (λ _ m. lookup (key username) m.lockouts ≡ none) (λ t m _. unlock_post username t m) s w
            ok in
        ground (arith, post, lookup-erase username username records)
