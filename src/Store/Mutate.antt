-- ===== src/Store/Mutate.antt =====
-- internal/store/store.go: how a change is applied, written and retried. The backend, its clock
-- and encoding/json are parameters.
pub mod Writes
pub mod Rounds
pub mod Bounds
pub mod Effects
use devops_tools.Prelude.{
  ℕ, zero, suc, ◌-◌, not, Text, Bool, true, false, Option, none, some, List, [], ◌∷◌,
}
use devops_tools.Prelude.{if◌then◌else◌}
use devops_tools.Store.Model.{Model, Time, Error, conflict, not_exist, unreadable, newer_format}
use devops_tools.Store.Model.{Verdict, write, no_change, fail, Step, Change}
use devops_tools.Store.Codec.{Document, encode_file, set, is_newer}

-- json.MarshalIndent and json.Unmarshal at the type of the document.
pub record Json : Type 0 where
  pub marshal : Document → Text
  pub unmarshal : Text → Option Document

pub data LoadReply : Type 0 where
  loaded : Text → Text → LoadReply
  load_failed : Error → LoadReply

pub data SaveReply : Type 0 where
  saved : Text → SaveReply
  save_failed : Error → SaveReply

-- A backend in a world `W`, which holds the stored object and whatever else writes it; a call
-- returns the world after it. `now` is the clock.
pub record Backend (W : Type 0) : Type 0 where
  pub load : W → LoadReply × W
  pub save : Text → Text → W → SaveReply × W
  pub now : W → Time

pub record Store : Type 0 where
  pub model : Model
  pub version : Text
  pub last_write : Time

abbrev pub max_write_attempts : ℕ
max_write_attempts = 5

-- What a call leaves: its error, what the change assigned for the caller, the store, the world.
pub record Outcome (A W : Type 0) : Type 0 where
  pub error : Option Error
  pub out : A
  pub store : Store
  pub world : W

-- errors.Is(err, ErrConflict)
unfoldable pub is_conflict : Error → Bool
is_conflict conflict = true
is_conflict _ = false

module _ (json : Json) where
  -- `none` is the nil error.
  unfoldable pub apply : Text → Text → Store → Option Error × Store
  apply bytes version s = elim (json.unmarshal bytes) [
    | none ↦ (some unreadable, s)
    | some f ↦
        if is_newer f.version
        then (some newer_format, s)
        else (none, record s { model = set f s.model; version = version })
  ]

  unfoldable pub encode : Model → Text
  encode m = json.marshal (encode_file m)

  module _ {W : Type 0} (backend : Backend W) where
    unfoldable pub reloaded : Store → LoadReply × W → Option Error × Store × W
    reloaded s (load_failed e, w) = (some e, s, w)
    reloaded s (loaded bytes version, w) = let (e, s') = apply bytes version s in (e, s', w)

    unfoldable pub reload : Store → W → Option Error × Store × W
    reload s w = reloaded s (backend.load w)

    unfoldable pub persisted : Store → SaveReply × W → Option Error × Store × W
    persisted s (save_failed e, w) = (some e, s, w)
    persisted s (saved version, w) =
        (none, record s { version = version; last_write = backend.now w }, w)

    unfoldable pub persist : Store → W → Option Error × Store × W
    persist s w = persisted s (backend.save (encode s.model) s.version w)

    module _ {A : Type 0} where
      -- The end of a round: `on_conflict` is what follows a conflicting write.
      unfoldable pub written :
          (Error → A → Store → W → Outcome A W) → A → Option Error × Store × W → Outcome A W
      written on_conflict out (none, s, w) = record {
        error = none;
        out = out;
        store = s;
        world = w;
      }
      written on_conflict out (some e, s, w) =
          if not (is_conflict e)
          then record { error = some e; out = out; store = s; world = w }
          else on_conflict e out s w

      unfoldable pub settle :
          (Error → A → Store → W → Outcome A W) → Verdict → A → Store → W → Outcome A W
      settle on_conflict no_change out s w = record {
        error = none;
        out = out;
        store = s;
        world = w;
      }
      settle on_conflict (fail e) out s w = record {
        error = some e;
        out = out;
        store = s;
        world = w;
      }
      settle on_conflict write out s w = written on_conflict out (persist s w)

      -- The last round returns the conflict.
      unfoldable pub give_up : Error → A → Store → W → Outcome A W
      give_up e out s w = record { error = some e; out = out; store = s; world = w }

      -- Any other reloads and goes round again.
      unfoldable pub retry : (Store → W → Outcome A W) → A → Option Error × Store × W → Outcome A W
      retry again out (none, s, w) = again s w
      retry again out (some e, s, w) = record { error = some e; out = out; store = s; world = w }

      module _ (change : Change A) where
        unfoldable pub round : (Error → A → Store → W → Outcome A W) → Store → W → Outcome A W
        round on_conflict s w =
            let step = change (backend.now w) s.model in
            settle on_conflict step.verdict step.out (record s { model = step.model }) w

        -- The loop, with the number of rounds that may follow this one.
        unfoldable pub attempt : ℕ → Store → W → Outcome A W
        attempt zero s w = round give_up s w
        attempt (suc left) s w = round (λ _ out s' w'. retry (attempt left) out (reload s' w')) s w

        unfoldable pub mutate : Store → W → Outcome A W
        mutate s w = attempt (max_write_attempts - 1) s w
