-- ===== src/Worker/SnapshotLock/Shared.antt =====
-- The world of one worker of a batch, while the others go on.
use ject6_4th_ai_analyzer.Base.{
  ℕ, ◌≡◌, refl, ◌∙◌, Bool, true, false, ◌⊎◌, inl, some, ◌∷◌, Text, codes, text_eq, eqb_iff,
  if◌then◌else◌,
}
use ject6_4th_ai_analyzer.Core.Effects.{
  Env, Log, Command, Event, Result, ok, get, set_nx, eval_transition,
}
use ject6_4th_ai_analyzer.Worker.FullBlogBatch.{
  batch_key, batch_ttl, snapshot_creating, snapshot_failed,
}
use ject6_4th_ai_analyzer.Worker.SnapshotLock.{
  Phase, at_lock, at_get, at_script, creating, away, Race, Step, Reach, here, then_step, moved,
  set_status, transition_to_creating, is_taken, no_race,
}
use ject6_4th_ai_analyzer.Worker.SnapshotLock.Exclusion.{Exclusive-Reach}

abbrev pub status_key : Text → Text
status_key batch_id = batch_key batch_id (codes "snapshot_status")

abbrev pub lock_command : Text → Command
lock_command batch_id = set_nx (status_key batch_id) snapshot_creating batch_ttl

abbrev pub look_command : Text → Command
look_command batch_id = get (status_key batch_id)

abbrev pub script_command : Text → Command
script_command batch_id =
    eval_transition (status_key batch_id) snapshot_failed snapshot_creating batch_ttl

-- Where the worker's own command takes the race.
abbrev pub after_lock : ℕ → Race → Race
after_lock w s = record {
  status = (set_status s.status).1;
  phase = moved w (if (set_status s.status).0 then creating else at_get) s.phase;
}

abbrev pub after_look : ℕ → Race → Race
after_look w s = record {
  status = s.status;
  phase = moved w (if is_taken s.status then away else at_script) s.phase;
}

abbrev pub after_script : ℕ → Race → Race
after_script w s = record {
  status = (transition_to_creating s.status).1;
  phase = moved w (if (transition_to_creating s.status).0 then creating else away) s.phase;
}

-- Steps of the other workers: every step of a worker changes its place.
pub data Others (w : ℕ) (s : Race) : Race → Type 0 where
  no_step : Others w s s
  then_other : {t u : Race} → Others w s t → Step t u → u.phase w ≡ t.phase w → Others w s u

abbrev pub done : Command → Event
done c = record { command = c; succeeded = true }

-- The world of one worker: Redis answers from the race as it is at the call, and between two calls the
-- others make any steps.
pub record Shared (env : Env) (batch_id : Text) (w : ℕ) (race : Log → Race) : Type 0 where
  pub at_set : (h : Log) → env.answer h (lock_command batch_id) ≡ ok (set_status (race h).status).0
  pub at_look : (h : Log) → env.answer h (look_command batch_id) ≡ ok (race h).status
  pub at_eval :
      (h : Log)
      → env.answer h (script_command batch_id) ≡ ok (transition_to_creating (race h).status).0
  pub set_moves :
      (h : Log)
      → (race h).phase w ≡ at_lock
      → Others w (after_lock w (race h)) (race (done (lock_command batch_id) ∷ h))
  pub look_moves :
      (h : Log)
      → (race h).phase w ≡ at_get
      → Others w (after_look w (race h)) (race (done (look_command batch_id) ∷ h))
  pub eval_moves :
      (h : Log)
      → (race h).phase w ≡ at_script
      → Others w (after_script w (race h)) (race (done (script_command batch_id) ∷ h))

pub Others-phase : (w : ℕ) (s t : Race) → Others w s t → t.phase w ≡ s.phase w
Others-phase w s _ no_step = refl
Others-phase w s _ (then_other {t} o step e) = e ∙ Others-phase w s t o

pub Reach-Others : (w : ℕ) (r s t : Race) → Reach r s → Others w s t → Reach r t
Reach-Others w r s _ reach no_step = reach
Reach-Others w r s _ reach (then_other {t} o step e) = then_step (Reach-Others w r s t reach o) step

pub moved_there : (w : ℕ) (p : Phase) (phase : ℕ → Phase) → moved w p phase w ≡ p
unfolding moved
moved_there w p phase = rw ((eqb_iff w w).1 refl)

-- How a claim ends: in the snapshot, alone and with the key saying so, or out of the way.
abbrev pub Claimed : ℕ → Race → Result Bool × Race → Type 0
Claimed w before (result, s) =
    Reach before s
    × (((result ≡ ok true)
          × (s.phase w ≡ creating)
          × (s.status ≡ some snapshot_creating)
          × ((i : ℕ) → s.phase i ≡ creating → i ≡ w))
        ⊎ ((result ≡ ok false) × (s.phase w ≡ away)))

pub claimed :
    (w : ℕ) (r s : Race)
    → Reach no_race r
    → Reach r s
    → s.phase w ≡ creating
    → Claimed w r (ok true, s)
claimed w r s before reach e =
    let x = Exclusive-Reach s (Reach-trans before reach) in
    (reach, inl (refl, e, x.marked w e, λ i f. x.alone i w f e))
  where
    Reach-trans : {a b c : Race} → Reach a b → Reach b c → Reach a c
    Reach-trans p here = p
    Reach-trans p (then_step q step) = then_step (Reach-trans p q) step
