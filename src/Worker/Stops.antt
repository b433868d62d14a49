-- ===== src/Worker/Stops.antt =====
-- app/worker/ingest_worker.py: the loop ends once `stop` has been called.
use ject6_4th_ai_analyzer.Base.{
  ℕ, zero, suc, ◌+◌, ◌≤◌, ◌≡◌, refl, sym, ap, subst, ◌∙◌, ◌⊎◌, inl, inr, Bool, true, false, List,
  [], ◌∷◌, length, length-append, is_empty, arith, if◌then◌else◌,
}
use ject6_4th_ai_analyzer.Core.Exceptions.{Exception}
use ject6_4th_ai_analyzer.Core.Effects.{
  Env, Exec, Log, Result, ok, err, call, stop_requested, xautoclaim, xreadgroup, pure, ◌>>◌, >>=-ok,
  >>=-run, >>=-err, call-ok,
}
use ject6_4th_ai_analyzer.Core.Effects.Issues.{
  IsTrace, Traces, Traces-pure, Traces-if, Traces-bind, Traces-call,
}
use ject6_4th_ai_analyzer.Client.Llm.Retries.{StopsUnlessRetried}
use ject6_4th_ai_analyzer.Repository.CrawlQueue.{CrawlMessage, ensure_group, read, claim_pending}
use ject6_4th_ai_analyzer.Worker.IngestWorker.{handle_message, handle_all, turn, turns, run}
use ject6_4th_ai_analyzer.Worker.SafeAcks.{handle_message_safe}

-- A run only adds to the log.
abbrev Grows : {A : Type 0} → Exec A → Type 0
Grows m = Traces (λ _. Unit) m

grows : IsTrace (λ _. Unit)
grows = record { at_nil = tt; at_append = λ es es' p q. tt }

Grows-length : {A : Type 0} (m : Exec A) (h : Log) → Grows m → length h ≤ length (m h).1
Grows-length m h g =
    let (es, e, _) = g.at h in let l = ap length e ∙ length-append es h in omega arith

-- The loop has ended: by the test, or by an exception that it does not catch.
abbrev pub HasEnded : Result Bool → Type 0
HasEnded r = (r ≡ ok true) ⊎ ((e : Exception) × (r ≡ err e))

-- Once so many calls have been made, `stop` has been called.
abbrev pub StopsBy : Env → ℕ → Type 0
StopsBy env deadline = (l : Log) → deadline ≤ length l → env.answer l stop_requested ≡ ok true

module _ (env : Env) (stops : StopsUnlessRetried env) where
  Grows-handle_message : (m : CrawlMessage) → Grows (handle_message env m)
  Grows-handle_message m = record {
    at = λ h. let (es, e, _) = handle_message_safe env stops m h in (es, e, tt);
  }

  Grows-handle_all : (ms : List CrawlMessage) → Grows (handle_all env ms)
  unfolding handle_all
  Grows-handle_all [] = Traces-pure grows tt
  Grows-handle_all (m ∷ ms) =
      Traces-bind grows _ _ (Grows-handle_message m) λ _. Grows-handle_all ms

  Grows-call : (c : _) → Grows (call env c)
  Grows-call c = Traces-call grows env c (λ _. tt)

  Grows-turn : Grows (turn env)
  unfolding turn claim_pending read
  Grows-turn =
      Traces-bind grows _ _
        (Traces-bind grows _ _ (Grows-call (xautoclaim _ _ _ _ _)) λ r. Traces-pure grows _)
        λ claimed.
          Traces-bind grows _ _
            (Traces-if grows (is_empty claimed) _ _
              (Traces-bind grows _ _ (Grows-call (xreadgroup _ _ _ _ _)) λ r. Traces-pure grows _)
              (Traces-pure grows _))
            λ ms. Grows-handle_all ms

  -- What follows the test of a round.
  abbrev next_round : ℕ → Bool → Exec Bool
  next_round n is_set = let rest = turn env >> turns env n in if is_set then pure true else rest

  after_turn :
      (n : ℕ) (h : Log) (r : Result Unit)
      → (turn env h).0 ≡ r
      → HasEnded (turns env n (turn env h).1).0
      → HasEnded ((turn env >> turns env n) h).0
  after_turn n h (ok _) e k = rw (>>=-ok (turn env) (λ _. turns env n) h e) k
  after_turn n h (err x) e k = inr (x, ap (λ r. r.0) (>>=-err (turn env) (λ _. turns env n) h e))

  stopped :
      (n : ℕ) (h : Log) → env.answer h stop_requested ≡ ok true → HasEnded (turns env (suc n) h).0
  unfolding turns
  stopped n h e = inl (
      ap (λ r. r.0)
        (>>=-run (call env stop_requested) (next_round n) h (call-ok env stop_requested h e)))

  round_ends :
      (n : ℕ) (h : Log) (r : Result Bool)
      → env.answer h stop_requested ≡ r
      → ((h' : Log) → length h + 1 ≤ length h' → HasEnded (turns env n h').0)
      → HasEnded (turns env (suc n) h).0
  unfolding turns call
  round_ends n h (err x) e k =
      inr (x, ap (λ r. r.0) (>>=-err (call env stop_requested) (next_round n) h e))
  round_ends n h (ok true) e k = stopped n h e
  round_ends n h (ok false) e k =
      let h' = record { command = stop_requested; succeeded = true } ∷ h in
      subst (λ (r : Result Bool × Log). HasEnded r.0)
        (sym (>>=-run (call env stop_requested) (next_round n) h (call-ok env stop_requested h e)))
        (after_turn n h' (turn env h').0 refl
          (k (turn env h').1 (let l = Grows-length (turn env) h' Grows-turn in omega arith)))

  turns-HasEnded :
      (deadline : ℕ)
      → StopsBy env deadline
      → (n : ℕ) (h : Log) → deadline ≤ length h + n
      → HasEnded (turns env (suc n) h).0
  turns-HasEnded deadline by zero h le = stopped 0 h (by h (omega arith))
  turns-HasEnded deadline by (suc n) h le =
      round_ends (suc n) h (env.answer h stop_requested) refl
        (λ h' l. turns-HasEnded deadline by n h' (omega arith))

  after_group :
      (n : ℕ) (h : Log) (r : Result Unit)
      → (ensure_group env h).0 ≡ r
      → HasEnded (turns env n (ensure_group env h).1).0
      → HasEnded (run env n h).0
  unfolding run
  after_group n h (ok _) e k = rw (>>=-ok (ensure_group env) (λ _. turns env n) h e) k
  after_group n h (err x) e k =
      inr (x, ap (λ r. r.0) (>>=-err (ensure_group env) (λ _. turns env n) h e))

  -- The worker ends: where `stop` has been called by the time that so many calls have been made, as many
  -- turns of the loop and one more are enough for it to end, by its test or by an exception that
  -- leaves the loop. Every turn makes a call, whatever the queue, the database and the providers answer.
  pub run_ends :
      (deadline : ℕ)
      → StopsBy env deadline
      → (n : ℕ) (h : Log) → deadline ≤ n
      → HasEnded (run env (suc n) h).0
  run_ends deadline by n h le =
      after_group (suc n) h (ensure_group env h).0 refl
        (turns-HasEnded deadline by n (ensure_group env h).1 (omega arith))
