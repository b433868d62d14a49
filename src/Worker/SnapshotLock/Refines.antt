-- ===== src/Worker/SnapshotLock/Refines.antt =====
-- `claim_snapshot` of one worker while the others go on: a path of the race.
use ject6_4th_ai_analyzer.Base.{
  ℕ, ◌≡◌, refl, sym, ap, subst, ◌∙◌, Bool, true, false, ◌||◌, inl, inr, Option, none, some, [], ◌∷◌,
  Text, ◌==◌, text_eq, Bool-cases, if◌then◌else◌,
}
use ject6_4th_ai_analyzer.Core.Effects.{Env, Log, ok, call}
use ject6_4th_ai_analyzer.Worker.FullBlogBatch.{
  snapshot_creating, snapshot_completed, claim_snapshot,
}
use ject6_4th_ai_analyzer.Worker.SnapshotLock.{
  at_lock, at_get, at_script, creating, away, Race, lock, look, transition, Reach, here, then_step,
  set_status, transition_to_creating, is_taken, no_race,
}
use ject6_4th_ai_analyzer.Worker.SnapshotLock.Shared.{
  lock_command, look_command, script_command, done, Shared, Others-phase, Reach-Others, moved_there,
  Claimed, claimed,
}

-- The test of the code on what it has read.
reads_taken :
    (o : Option Text)
    → (elim o [ none ↦ [] | some text ↦ text ] == snapshot_completed)
        || (elim o [ none ↦ [] | some text ↦ text ] == snapshot_creating)
      ≡ is_taken o
unfolding is_taken
reads_taken none = refl
reads_taken (some text) = refl

module _ (env : Env) (batch_id : Text) (w : ℕ) (race : Log → Race) (x : Shared env batch_id w race)
    (r : Race) (before : Reach no_race r) where
  scripted :
      (h : Log) (b : Bool)
      → (transition_to_creating (race h).status).0 ≡ b
      → Reach r (race h)
      → (race h).phase w ≡ at_script
      → Claimed w r (ok b, race (done (script_command batch_id) ∷ h))
  scripted h b q reach at =
      let o = x.eval_moves h at in
      let s = race (done (script_command batch_id) ∷ h) in
      let there = Reach-Others w r _ s (then_step reach (transition (race h) w at)) o in
      let e = Others-phase w _ s o ∙ moved_there w _ _ in
      elim (Bool-cases b) [
        | inl t ↦
            subst (λ b. Claimed w r (ok b, s)) (sym t) (claimed w r s before there (rw (q, t) at e))
        | inr f ↦ subst (λ b. Claimed w r (ok b, s)) (sym f) (there, inr (refl, rw (q, f) at e))
      ]

  looked :
      (h : Log) (b : Bool)
      → is_taken (race h).status ≡ b
      → Reach r (race h)
      → (race h).phase w ≡ at_get
      → let s = race (done (look_command batch_id) ∷ h) in
        Reach r s × (s.phase w ≡ (if b then away else at_script))
  looked h b q reach at =
      let o = x.look_moves h at in
      let s = race (done (look_command batch_id) ∷ h) in
      (
        Reach-Others w r _ s (then_step reach (look (race h) w at)) o,
        Others-phase w _ s o ∙ moved_there w _ _ ∙ ap (λ b. if b then away else at_script) q,
      )

  locked :
      (h : Log) (b : Bool)
      → (set_status (race h).status).0 ≡ b
      → Reach r (race h)
      → (race h).phase w ≡ at_lock
      → let s = race (done (lock_command batch_id) ∷ h) in
        Reach r s × (s.phase w ≡ (if b then creating else at_get))
  locked h b q reach at =
      let o = x.set_moves h at in
      let s = race (done (lock_command batch_id) ∷ h) in
      (
        Reach-Others w r _ s (then_step reach (lock (race h) w at)) o,
        Others-phase w _ s o ∙ moved_there w _ _ ∙ ap (λ b. if b then creating else at_get) q,
      )

  -- The three ways through the body.
  run_locked :
      (h : Log)
      → (set_status (race h).status).0 ≡ true
      → claim_snapshot env batch_id h ≡ (ok true, done (lock_command batch_id) ∷ h)
  unfolding claim_snapshot call
  run_locked h q = rw (x.at_set h, q) refl

  run_taken :
      (h : Log)
      → (set_status (race h).status).0 ≡ false
      → is_taken (race (done (lock_command batch_id) ∷ h)).status ≡ true
      → claim_snapshot env batch_id h
        ≡ (ok false, done (look_command batch_id) ∷ done (lock_command batch_id) ∷ h)
  unfolding claim_snapshot call
  run_taken h q t =
      rw (x.at_set h, q, x.at_look, reads_taken (race (done (lock_command batch_id) ∷ h)).status, t)
        refl

  run_scripted :
      (h : Log)
      → (set_status (race h).status).0 ≡ false
      → is_taken (race (done (lock_command batch_id) ∷ h)).status ≡ false
      → claim_snapshot env batch_id h ≡ (
        ok
            (transition_to_creating
              (race (done (look_command batch_id) ∷ done (lock_command batch_id) ∷ h)).status).0,
        done (script_command batch_id)
            ∷ done (look_command batch_id)
            ∷ done (lock_command batch_id)
            ∷ h,
      )
  unfolding claim_snapshot call
  run_scripted h q t =
      rw
        (
          x.at_set h,
          q,
          x.at_look,
          reads_taken (race (done (lock_command batch_id) ∷ h)).status,
          t,
          x.at_eval,
        )
        refl

  abbrev Claims : Log → Type 0
  Claims h = Claimed w r ((claim_snapshot env batch_id h).0, race (claim_snapshot env batch_id h).1)

  finish_by_script :
      (h : Log)
      → (set_status (race h).status).0 ≡ false
      → is_taken (race (done (lock_command batch_id) ∷ h)).status ≡ false
      → Reach r (race (done (lock_command batch_id) ∷ h))
      → (race (done (lock_command batch_id) ∷ h)).phase w ≡ at_get
      → Claims h
  finish_by_script h q f reach at =
      let (reach', at') = looked (done (lock_command batch_id) ∷ h) false f reach at in
      subst (λ out. Claimed w r (out.0, race out.1)) (sym (run_scripted h q f))
        (scripted (done (look_command batch_id) ∷ done (lock_command batch_id) ∷ h) _ refl reach'
          at')

  finish_taken :
      (h : Log)
      → (set_status (race h).status).0 ≡ false
      → is_taken (race (done (lock_command batch_id) ∷ h)).status ≡ true
      → Reach r (race (done (lock_command batch_id) ∷ h))
      → (race (done (lock_command batch_id) ∷ h)).phase w ≡ at_get
      → Claims h
  finish_taken h q t reach at =
      let (reach', away') = looked (done (lock_command batch_id) ∷ h) true t reach at in
      subst (λ out. Claimed w r (out.0, race out.1)) (sym (run_taken h q t))
        (reach', inr (refl, away'))

  finish_claim : (h : Log) → Reach r (race h) → (race h).phase w ≡ at_lock → Claims h
  finish_claim h reach at = elim (Bool-cases (set_status (race h).status).0) [
    | inl q ↦
        let (reach', at') = locked h true q reach at in
        subst (λ out. Claimed w r (out.0, race out.1)) (sym (run_locked h q))
          (claimed w r _ before reach' at')
    | inr q ↦
        let (reach', at') = locked h false q reach at in
        elim (Bool-cases (is_taken (race (done (lock_command batch_id) ∷ h)).status)) [
          | inl t ↦ finish_taken h q t reach' at'
          | inr f ↦ finish_by_script h q f reach' at'
        ]
  ]

-- `claim_snapshot` of one worker implements the race: whatever the other workers of the batch do between
-- its commands, it returns, and the race goes from where it was to where it is by steps. It returns
-- true with this worker, and no other, in the making of the snapshot, and with a key that says so, and
-- false with this worker out of the way. The worker is before its first command, at a point of the race
-- that can be reached, and Redis answers from the race.
pub claim_snapshot_refines :
    (env : Env) (batch_id : Text) (w : ℕ) (race : Log → Race) (h : Log)
    → Shared env batch_id w race
    → Reach no_race (race h)
    → (race h).phase w ≡ at_lock
    → Claimed w (race h) ((claim_snapshot env batch_id h).0, race (claim_snapshot env batch_id h).1)
claim_snapshot_refines env batch_id w race h x before at =
    finish_claim env batch_id w race x (race h) before h here at
