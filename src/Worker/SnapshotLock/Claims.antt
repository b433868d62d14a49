-- ===== src/Worker/SnapshotLock/Claims.antt =====
-- `claim_snapshot` makes the steps of the race.
use ject6_4th_ai_analyzer.Base.{
  ◌≡◌, true, false, inl, inr, Option, none, some, Text, codes, arith, ◌==◌, text_eq, list_beq_iff,
  Bool-cases,
}
use ject6_4th_ai_analyzer.Core.Effects.{Env, Log, ok, call, get, set_nx, eval_transition}
use ject6_4th_ai_analyzer.Worker.FullBlogBatch.{
  batch_key, batch_ttl, snapshot_creating, snapshot_failed, claim_snapshot,
}
use ject6_4th_ai_analyzer.Worker.SnapshotLock.{set_status, transition_to_creating, is_taken}

-- Redis answers the three commands of a claim from the value of the key, which nobody else changes.
pub record Holds (env : Env) (batch_id : Text) (status : Option Text) : Type 0 where
  pub at_set :
      (h : Log)
      → env.answer h
          (set_nx (batch_key batch_id (codes "snapshot_status")) snapshot_creating batch_ttl)
        ≡ ok (set_status status).0
  pub at_get :
      (h : Log) → env.answer h (get (batch_key batch_id (codes "snapshot_status"))) ≡ ok status
  pub at_eval :
      (h : Log)
      → env.answer h (
          eval_transition
            (batch_key batch_id (codes "snapshot_status"))
            snapshot_failed
            snapshot_creating
            batch_ttl)
        ≡ ok (transition_to_creating status).0

not_failed_if_taken :
    (text : Text) → is_taken (some text) ≡ true → (text == snapshot_failed) ≡ false
unfolding is_taken
not_failed_if_taken text t = elim (Bool-cases (text == snapshot_failed)) [
  | inl f ↦ let g = rw ((list_beq_iff text snapshot_failed).0 f) at t in ground arith
  | inr n ↦ n
]

script_result :
    (text : Text) → ok (transition_to_creating (some text)).0 ≡ ok (text == snapshot_failed)
unfolding transition_to_creating
script_result text = elim (Bool-cases (text == snapshot_failed)) [ inl f ↦ rw f | inr n ↦ rw n ]

-- A worker that nobody interferes with claims the snapshot of a batch exactly if the key of the batch is
-- missing or says that an earlier attempt failed.
pub claim_snapshot_alone :
    (env : Env) (batch_id : Text) (status : Option Text) (h : Log)
    → Holds env batch_id status
    → (claim_snapshot env batch_id h).0
      ≡ ok (elim status [ none ↦ true | some text ↦ text == snapshot_failed ])
unfolding claim_snapshot set_status transition_to_creating is_taken call
claim_snapshot_alone env batch_id none h w = rw (w.at_set h)
claim_snapshot_alone env batch_id (some text) h w = elim (Bool-cases (is_taken (some text))) [
  | inl taken ↦ rw (w.at_set h, w.at_get, taken, not_failed_if_taken text taken)
  | inr free ↦ rw (w.at_set h, w.at_get, free, w.at_eval) (script_result text)
]
