-- ===== src/Worker/SnapshotLock/Exclusion.antt =====
-- One worker at a time makes the snapshot of a batch.
use ject6_4th_ai_analyzer.Base.{
  ℕ, ◌≡◌, ◌≢◌, ◌⊎◌, refl, sym, ap, ◌∙◌, Bool, true, false, inl, inr, Option, none, some, [], Text,
  arith, eqb, eqb_iff, Bool-cases, ◌==◌, text_eq, if◌then◌else◌, list_beq_iff,
}
use ject6_4th_ai_analyzer.Worker.FullBlogBatch.{
  snapshot_creating, snapshot_completed, snapshot_failed,
}
use ject6_4th_ai_analyzer.Worker.SnapshotLock.{
  Phase, at_lock, at_get, at_script, creating, giving_up, away, Race, Step, enter, lock, look,
  transition, finish, lose_reply, give_up, leave, Reach, here, then_step, moved, set_status,
  transition_to_creating, is_taken, no_race,
}

-- While a worker makes the snapshot the key says so, and it is the only one.
pub record Exclusive (s : Race) : Type 0 where
  pub marked : (i : ℕ) → s.phase i ≡ creating → s.status ≡ some snapshot_creating
  pub alone : (i j : ℕ) → s.phase i ≡ creating → s.phase j ≡ creating → i ≡ j

-- The worker has claimed the batch, and has not let it go.
abbrev IsBusy : Phase → Type 0
IsBusy p = (p ≡ creating) ⊎ (p ≡ giving_up)

-- One worker at most is busy, and the key says how far it is.
record Claim (s : Race) : Type 0 where
  at_creating : (i : ℕ) → s.phase i ≡ creating → s.status ≡ some snapshot_creating
  at_giving_up : (i : ℕ) → s.phase i ≡ giving_up → s.status ≡ some snapshot_completed
  at_most_one : (i j : ℕ) → IsBusy (s.phase i) → IsBusy (s.phase j) → i ≡ j

-- A worker that moves to a place without `P` is not in `P`; the others are where they were.
moved_elsewhere :
    (P : Phase → Type 0) (w i : ℕ) (p : Phase) (phase : ℕ → Phase)
    → (P p → ⊥)
    → P (moved w p phase i)
    → (i ≢ w) × P (phase i)
unfolding moved
moved_elsewhere P w i p phase ne e = elim (Bool-cases (eqb i w)) [
  | inl same ↦ elim (ne (rw same at e)) [ ]
  | inr other ↦ (λ q. ground (arith, (eqb_iff i w).1 q), rw other at e)
]

kept_elsewhere :
    (s : Race) (w : ℕ) (p : Phase) (o : Option Text)
    → (IsBusy p → ⊥)
    → s.status ≡ o
    → Claim s
    → Claim (record { status = o; phase = moved w p s.phase })
kept_elsewhere s w p o ne q x = record {
  at_creating = λ i e.
      sym q
      ∙ x.at_creating i (moved_elsewhere (λ t. t ≡ creating) w i p s.phase (λ t. ne (inl t)) e).1;
  at_giving_up = λ i e.
      sym q
      ∙ x.at_giving_up i (moved_elsewhere (λ t. t ≡ giving_up) w i p s.phase (λ t. ne (inr t)) e).1;
  at_most_one = λ i j e f.
      x.at_most_one i j (moved_elsewhere IsBusy w i p s.phase ne e).1
        (moved_elsewhere IsBusy w j p s.phase ne f).1;
}

-- Where nobody else is busy, whoever is busy after a move is the worker that moved.
moved_in :
    (w i : ℕ) (p : Phase) (phase : ℕ → Phase)
    → ((j : ℕ) → j ≢ w → IsBusy (phase j) → ⊥)
    → IsBusy (moved w p phase i)
    → i ≡ w
unfolding moved
moved_in w i p phase nobody e = elim (Bool-cases (eqb i w)) [
  | inl same ↦ (eqb_iff i w).0 same
  | inr other ↦ elim (nobody i (λ q. ground (arith, (eqb_iff i w).1 q)) (rw other at e)) [ ]
]

let_in :
    (s : Race) (w : ℕ)
    → ((j : ℕ) → IsBusy (s.phase j) → ⊥)
    → Claim (record { status = some snapshot_creating; phase = moved w creating s.phase })
let_in s w nobody =
    let only = λ (j : ℕ) (ne : j ≢ w) (b : IsBusy (s.phase j)). nobody j b in
    record {
      at_creating = λ i e. refl;
      at_giving_up = λ i e.
          let there = moved_elsewhere (λ t. t ≡ giving_up) w i creating s.phase (λ t. cc) e in
          elim (nobody i (inr there.1)) [ ];
      at_most_one = λ i j e f.
          moved_in w i creating s.phase only e ∙ sym (moved_in w j creating s.phase only f);
    }

nobody_busy :
    (s : Race)
    → Claim s
    → s.status ≢ some snapshot_creating
    → s.status ≢ some snapshot_completed
    → (j : ℕ) → IsBusy (s.phase j)
    → ⊥
nobody_busy s x nc nd j (inl e) = nc (x.at_creating j e)
nobody_busy s x nc nd j (inr e) = nd (x.at_giving_up j e)

failed_is_not_creating : snapshot_failed ≢ snapshot_creating
failed_is_not_creating h = ground (arith, (list_beq_iff snapshot_failed snapshot_creating).1 h)

failed_is_not_completed : snapshot_failed ≢ snapshot_completed
failed_is_not_completed h = ground (arith, (list_beq_iff snapshot_failed snapshot_completed).1 h)

some_inj : {t u : Text} → some t ≡ some u → t ≡ u
some_inj e = ap (λ o. elim o [ none ↦ [] | some t ↦ t ]) e

locked :
    (s : Race) (w : ℕ) (o : Option Text)
    → s.status ≡ o
    → Claim s
    → Claim (record {
      status = (set_status o).1;
      phase = moved w (if (set_status o).0 then creating else at_get) s.phase;
    })
unfolding set_status
locked s w none q x = let_in s w (nobody_busy s x (λ h. cc) (λ h. cc))
locked s w (some status) q x = kept_elsewhere s w at_get (some status) (λ h. idle h) q x
  where
    idle : IsBusy at_get → ⊥
    idle (inl e) = cc
    idle (inr e) = cc

away_is_idle : IsBusy away → ⊥
away_is_idle (inl e) = cc
away_is_idle (inr e) = cc

transitioned :
    (s : Race) (w : ℕ) (o : Option Text)
    → s.status ≡ o
    → Claim s
    → Claim (record {
      status = (transition_to_creating o).1;
      phase = moved w (if (transition_to_creating o).0 then creating else away) s.phase;
    })
unfolding transition_to_creating
transitioned s w none q x = kept_elsewhere s w away none away_is_idle q x
transitioned s w (some status) q x = elim (Bool-cases (status == snapshot_failed)) [
  | inl is_failed ↦
      let failed = sym ((list_beq_iff status snapshot_failed).0 is_failed) in
      rw is_failed (
        let_in s w (
          nobody_busy s x (λ h. failed_is_not_creating (failed ∙ some_inj (sym q ∙ h)))
            (λ h. failed_is_not_completed (failed ∙ some_inj (sym q ∙ h)))))
  | inr other ↦ rw other (kept_elsewhere s w away (some status) away_is_idle q x)
]

script_is_idle : IsBusy at_script → ⊥
script_is_idle (inl e) = cc
script_is_idle (inr e) = cc

lock_is_idle : IsBusy at_lock → ⊥
lock_is_idle (inl e) = cc
lock_is_idle (inr e) = cc

looked :
    (s : Race) (w : ℕ) (b : Bool)
    → Claim s
    → Claim (record { status = s.status; phase = moved w (if b then away else at_script) s.phase })
looked s w true x = kept_elsewhere s w away s.status away_is_idle refl x
looked s w false x = kept_elsewhere s w at_script s.status script_is_idle refl x

-- The others are idle while a worker is busy.
others_idle :
    (s : Race) (w : ℕ) → IsBusy (s.phase w) → Claim s → (j : ℕ) → j ≢ w → IsBusy (s.phase j) → ⊥
others_idle s w at_w x j ne b = ne (x.at_most_one j w b at_w)

finished :
    (s : Race) (w : ℕ) (o : Option Text)
    → IsBusy (s.phase w)
    → Claim s
    → Claim (record { status = o; phase = moved w away s.phase })
finished s w o at_w x = record {
  at_creating = λ i e. elim (gone i (inl e)) [ ];
  at_giving_up = λ i e. elim (gone i (inr e)) [ ];
  at_most_one = λ i j e f. elim (gone i e) [ ];
}
  where
    gone : (i : ℕ) → IsBusy (moved w away s.phase i) → ⊥
    gone i e =
        let (ne, there) = moved_elsewhere IsBusy w i away s.phase away_is_idle e in
        others_idle s w at_w x i ne there

lost_reply :
    (s : Race) (w : ℕ)
    → s.phase w ≡ creating
    → Claim s
    → Claim (record { status = some snapshot_completed; phase = moved w giving_up s.phase })
lost_reply s w at_w x =
    let idle = others_idle s w (inl at_w) x in
    record {
      at_creating = λ i e.
          let (ne, there) = moved_elsewhere (λ t. t ≡ creating) w i giving_up s.phase (λ t. cc) e in
          elim (idle i ne (inl there)) [ ];
      at_giving_up = λ i e. refl;
      at_most_one = λ i j e f.
          moved_in w i giving_up s.phase idle e ∙ sym (moved_in w j giving_up s.phase idle f);
    }

Claim-Step : (s t : Race) → Step s t → Claim s → Claim t
Claim-Step s _ (enter _ w _) x = kept_elsewhere s w at_lock s.status lock_is_idle refl x
Claim-Step s _ (lock _ w _) x = locked s w s.status refl x
Claim-Step s _ (look _ w _) x = looked s w (is_taken s.status) x
Claim-Step s _ (transition _ w _) x = transitioned s w s.status refl x
Claim-Step s _ (finish _ w is_done at_w) x = finished s w _ (inl at_w) x
Claim-Step s _ (lose_reply _ w at_w) x = lost_reply s w at_w x
Claim-Step s _ (give_up _ w at_w) x = finished s w _ (inr at_w) x
Claim-Step s _ (leave _ w _) x = kept_elsewhere s w away s.status away_is_idle refl x

Claim-Reach : (s : Race) → Reach no_race s → Claim s
Claim-Reach _ here = record {
  at_creating = λ i e. cc;
  at_giving_up = λ i e. cc;
  at_most_one = λ i j e f. elim (away_is_idle e) [ ];
}
Claim-Reach _ (then_step {t} r step) = Claim-Step t _ step (Claim-Reach t r)

-- At every point that the workers of a batch can come to, in any order of their commands, at most one
-- of them makes the snapshot, and while it does, the key of the batch says so.
pub Exclusive-Reach : (s : Race) → Reach no_race s → Exclusive s
Exclusive-Reach s r =
    let x = Claim-Reach s r in
    record { marked = x.at_creating; alone = λ i j e f. x.at_most_one i j (inl e) (inl f) }
