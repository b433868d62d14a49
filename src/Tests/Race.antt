-- ===== src/Tests/Race.antt =====
-- Two workers race for the snapshot of a batch.
use ject6_4th_ai_analyzer.Base.{◌≡◌, refl, false, some, none, [], ◌∷◌, codes, text_eq}
use ject6_4th_ai_analyzer.Worker.FullBlogBatch.{snapshot_failed, claim_snapshot}
use ject6_4th_ai_analyzer.Worker.SnapshotLock.{
  creating, away, at_lock, at_get, at_script, Race, enter, lock, finish, Reach, here, then_step,
  moved, no_race, set_status, transition_to_creating, is_taken,
}
use ject6_4th_ai_analyzer.Core.Effects.{
  Env, Log, Command, Reply, Result, ok, get, set_nx, eval_transition,
}
use ject6_4th_ai_analyzer.Tests.World.{world, answers}
use ject6_4th_ai_analyzer.Worker.SnapshotLock.Shared.{
  Shared, Others, no_step, then_other, done, lock_command, look_command, script_command, after_lock,
  after_look, after_script, Claimed,
}
use ject6_4th_ai_analyzer.Worker.SnapshotLock.Refines.{claim_snapshot_refines}
use ject6_4th_ai_analyzer.Worker.SnapshotLock.Exclusion.{Exclusive, Exclusive-Reach}

abbrev entered : Race
entered = record { status = no_race.status; phase = moved 1 at_lock no_race.phase }

abbrev making : Race
making = record { status = (set_status entered.status).1; phase = moved 1 creating entered.phase }

to_making : Reach no_race making
unfolding set_status moved
to_making = then_step (then_step here (enter no_race 1 refl)) (lock entered 1 refl)

Exclusive-Reach_example : Exclusive making
Exclusive-Reach_example = Exclusive-Reach making to_making

-- Worker 2 makes the snapshot as worker 1 comes, and fails between worker 1's first two commands.
abbrev entered_2 : Race
entered_2 = record { status = no_race.status; phase = moved 2 at_lock no_race.phase }

abbrev taken : Race
taken = after_lock 2 entered_2

abbrev contested : Race
contested = record { status = taken.status; phase = moved 1 at_lock taken.phase }

abbrev given_up : Race
given_up = record {
  status = some snapshot_failed;
  phase = moved 2 away (after_lock 1 contested).phase;
}

abbrev races : Log → Race
races [] = contested
races (_ ∷ []) = given_up
races (_ ∷ _ ∷ []) = after_look 1 given_up
races (_ ∷ _ ∷ _ ∷ _) = after_script 1 (after_look 1 given_up)

abbrev racing : Log → (c : Command) → Result (Reply c)
racing h (set_nx _ _ _) = ok (set_status (races h).status).0
racing h (get _) = ok (races h).status
racing h (eval_transition _ _ _ _) = ok (transition_to_creating (races h).status).0
racing h c = answers none h c

abbrev racing_world : Env
racing_world = record world { answer = racing }

to_contested : Reach no_race contested
unfolding set_status moved
to_contested =
    then_step (then_step (then_step here (enter no_race 2 refl)) (lock entered_2 2 refl))
      (enter taken 1 refl)

set_goes :
    (h : Log)
    → (races h).phase 1 ≡ at_lock
    → Others 1 (after_lock 1 (races h)) (races (done (lock_command (codes "b")) ∷ h))
unfolding set_status transition_to_creating is_taken moved
set_goes [] at = then_other no_step (finish (after_lock 1 contested) 2 false refl) refl
set_goes (_ ∷ []) at = cc
set_goes (_ ∷ _ ∷ []) at = cc
set_goes (_ ∷ _ ∷ _ ∷ _) at = cc

look_goes :
    (h : Log)
    → (races h).phase 1 ≡ at_get
    → Others 1 (after_look 1 (races h)) (races (done (look_command (codes "b")) ∷ h))
unfolding set_status transition_to_creating is_taken moved
look_goes [] at = cc
look_goes (_ ∷ []) at = no_step
look_goes (_ ∷ _ ∷ []) at = cc
look_goes (_ ∷ _ ∷ _ ∷ _) at = cc

script_goes :
    (h : Log)
    → (races h).phase 1 ≡ at_script
    → Others 1 (after_script 1 (races h)) (races (done (script_command (codes "b")) ∷ h))
unfolding set_status transition_to_creating is_taken moved
script_goes [] at = cc
script_goes (_ ∷ []) at = cc
script_goes (_ ∷ _ ∷ []) at = no_step
script_goes (_ ∷ _ ∷ _ ∷ _) at = cc

racing-Shared : Shared racing_world (codes "b") 1 races
racing-Shared = record {
  at_set = λ h. refl;
  at_look = λ h. refl;
  at_eval = λ h. refl;
  set_moves = set_goes;
  look_moves = look_goes;
  eval_moves = script_goes;
}

claim_snapshot_refines_example : Claimed 1 contested (
  (claim_snapshot racing_world (codes "b") []).0,
  races (claim_snapshot racing_world (codes "b") []).1,
)
unfolding moved
claim_snapshot_refines_example =
    claim_snapshot_refines racing_world (codes "b") 1 races [] racing-Shared to_contested refl
