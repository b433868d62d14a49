-- ===== src/Worker/SnapshotLock.antt =====
-- app/worker/ingest_worker.py: the status key of a batch, as the workers that take its posts race for
-- it. A step is one command to Redis, so that the steps of the workers may come in any order. A worker may
-- be gone before its next command, and a command may raise after it has taken effect; the time to live
-- of the key, a day, is not reached.
pub mod Exclusion
pub mod Claims
pub mod Shared
pub mod Refines
use ject6_4th_ai_analyzer.Base.{
  ℕ, ◌≡◌, ◌≢◌, Bool, true, false, ◌||◌, Option, none, some, Text, eqb, ◌==◌, text_eq, if◌then◌else◌,
}
use ject6_4th_ai_analyzer.Worker.FullBlogBatch.{
  snapshot_creating, snapshot_completed, snapshot_failed,
}

-- `SET key creating NX`: whether it was set, and the key after.
unfoldable pub set_status : Option Text → Bool × Option Text
set_status none = (true, some snapshot_creating)
set_status (some status) = (false, some status)

-- The script `_TRANSITION_TO_CREATING_LUA`: whether the key was `failed`, and the key after.
unfoldable pub transition_to_creating : Option Text → Bool × Option Text
transition_to_creating none = (false, none)
transition_to_creating (some status) =
    if status == snapshot_failed then (true, some snapshot_creating) else (false, some status)

-- `existing in (_SNAPSHOT_COMPLETED, _SNAPSHOT_CREATING)`
unfoldable pub is_taken : Option Text → Bool
is_taken none = false
is_taken (some status) = (status == snapshot_completed) || (status == snapshot_creating)

-- Where a worker is: before `SET NX`, after it failed, before the script, while it makes the snapshot,
-- after `SET completed` has raised, and out of the way.
pub data Phase : Type 0 where
  at_lock at_get at_script creating giving_up away : Phase

pub record Race : Type 0 where
  pub status : Option Text
  pub phase : ℕ → Phase

unfoldable pub moved : ℕ → Phase → (ℕ → Phase) → ℕ → Phase
moved w p phase i = if eqb i w then p else phase i

-- A worker's next command.
pub data Step : Race → Race → Type 0 where
  enter :
      (s : Race) (w : ℕ)
      → s.phase w ≡ away
      → Step s (record { status = s.status; phase = moved w at_lock s.phase })
  lock :
      (s : Race) (w : ℕ)
      → s.phase w ≡ at_lock
      → Step s (record {
        status = (set_status s.status).1;
        phase = moved w (if (set_status s.status).0 then creating else at_get) s.phase;
      })
  look :
      (s : Race) (w : ℕ)
      → s.phase w ≡ at_get
      → Step s (record {
        status = s.status;
        phase = moved w (if is_taken s.status then away else at_script) s.phase;
      })
  transition :
      (s : Race) (w : ℕ)
      → s.phase w ≡ at_script
      → Step s (record {
        status = (transition_to_creating s.status).1;
        phase = moved w (if (transition_to_creating s.status).0 then creating else away) s.phase;
      })
  -- the snapshot is made and its message published, or not
  finish :
      (s : Race) (w : ℕ) (is_done : Bool)
      → s.phase w ≡ creating
      → Step s (record {
        status = some (if is_done then snapshot_completed else snapshot_failed);
        phase = moved w away s.phase;
      })
  -- `SET completed` takes effect, and raises
  lose_reply :
      (s : Race) (w : ℕ)
      → s.phase w ≡ creating
      → Step s (record { status = some snapshot_completed; phase = moved w giving_up s.phase })
  -- `SET failed`, of the `except` that stands around it
  give_up :
      (s : Race) (w : ℕ)
      → s.phase w ≡ giving_up
      → Step s (record { status = some snapshot_failed; phase = moved w away s.phase })
  -- the worker is gone, or the command that it was at has raised without effect
  leave :
      (s : Race) (w : ℕ)
      → s.phase w ≢ away
      → Step s (record { status = s.status; phase = moved w away s.phase })

pub data Reach (s : Race) : Race → Type 0 where
  here : Reach s s
  then_step : {t u : Race} → Reach s t → Step t u → Reach s u

-- No key yet, and no worker at it.
abbrev pub no_race : Race
no_race = record { status = none; phase = λ _. away }
