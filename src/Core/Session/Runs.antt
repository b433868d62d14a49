-- ===== src/Core/Session/Runs.antt =====
-- The calls of a session: of one that returns, and of one whose body raises.
use ject6_4th_ai_analyzer.Base.{◌≡◌, refl, ap, ◌∙◌, sym, true, ◌∷◌}
use ject6_4th_ai_analyzer.Core.Exceptions.{Exception}
use ject6_4th_ai_analyzer.Core.Effects.{
  Env, Exec, Event, Log, Scope, Command, Reply, Result, ok, err, open_session, commit, rollback,
  close, call, call-ok, pure, raise, lift, continue, handle, finally, is_ok, ◌>>=◌, ◌>>◌, >>=-ok,
  >>=-run, >>=-inv, try_except-err,
}
use ject6_4th_ai_analyzer.Core.Session.{session_scope, committed}

-- A call that returned.
abbrev pub done : Command → Event
done c = record { command = c; succeeded = true }

call_inv :
    (env : Env) (c : Command) (h : Log) (a : Reply c)
    → (call env c h).0 ≡ ok a
    → (call env c h).1 ≡ done c ∷ h
unfolding call
call_inv env c h a e = ap (λ r. record { command = c; succeeded = is_ok r } ∷ h) e

handle_inv :
    {A : Type 0} (r : Result A) (f : Exception → Exec A) (h : Log) (a : A)
    → ((e : Exception) (l : Log) → (f e l).0 ≡ ok a → ⊥)
    → (handle r f h).0 ≡ ok a
    → (r ≡ ok a) × (handle r f h ≡ (r, h))
handle_inv (ok b) f h a never e = (e, refl)
handle_inv (err x) f h a never e = absurd (never x h e)

err-ne-ok : {A : Type 0} (e : Exception) (a : A) → ◌≡◌ {A = Result A} (err e) (ok a) → ⊥
err-ne-ok e a q = cc

module _ (env : Env) {A : Type 0} (scope : Scope) (body : Exec A) where
  abbrev undo : Exception → Exec A
  undo e = call env (rollback scope) >> raise e

  abbrev then_commit : A → Exec A
  then_commit a = call env (commit scope) >>= λ _. pure a

  undo-raises : (a : A) (e : Exception) (l : Log) → (undo e l).0 ≡ ok a → ⊥
  undo-raises a e l q =
      let (_, _, r) = >>=-inv (call env (rollback scope)) (λ _. raise e) l q in err-ne-ok e a r

  committed_inv :
      (l : Log) (a : A)
      → (committed env scope body l).0 ≡ ok a
      → ((body l).0 ≡ ok a) × ((committed env scope body l).1 ≡ done (commit scope) ∷ (body l).1)
  committed_inv l a q =
      let m = body >>= then_commit in
      let (value, same) = handle_inv (m l).0 undo (m l).1 a (undo-raises a) q in
      let (b, at_body, rest) = >>=-inv body then_commit l value in
      let (_, at_commit, last) = >>=-inv (call env (commit scope)) (λ _. pure b) (body l).1 rest in
      (
        at_body ∙ last,
        ap (λ r. r.1)
              (same
                ∙ >>=-ok body then_commit l at_body
                ∙ >>=-ok (call env (commit scope)) (λ _. pure b) (body l).1 at_commit)
            ∙ call_inv env (commit scope) (body l).1 tt at_commit,
      )

  -- A session that returns has opened, has run its body to an end, and has committed and closed.
  pub session_scope_inv :
      (h : Log) (a : A)
      → (session_scope env scope body h).0 ≡ ok a
      → let opened = done (open_session scope) ∷ h in
        ((body opened).0 ≡ ok a)
        × ((session_scope env scope body h).1
            ≡ done (close scope) ∷ done (commit scope) ∷ (body opened).1)
  unfolding session_scope
  session_scope_inv h a q =
      let opening = call env (open_session scope) in
      let ending = call env (close scope) in
      let m = committed env scope body in
      let (_, at_open, rest) = >>=-inv opening (λ _. finally m ending) h q in
      let l = (opening h).1 in
      let (_, at_close, value) = >>=-inv ending (λ _. lift (m l).0) (m l).1 rest in
      let (at_body, log) = committed_inv l a value in
      let e = call_inv env (open_session scope) h tt at_open in
      (
        ap (λ x. (body x).0) (sym e) ∙ at_body,
        ap (λ r. r.1)
              (>>=-ok opening (λ _. finally m ending) h at_open
                ∙ >>=-ok ending (λ _. lift (m l).0) (m l).1 at_close)
            ∙ call_inv env (close scope) (m l).1 tt at_close
            ∙ ap (λ x. done (close scope) ∷ x) (log ∙ ap (λ x. done (commit scope) ∷ (body x).1) e),
      )

  -- A session whose body raises rolls back and closes.
  pub session_scope_raised :
      (h l : Log) (e : Exception)
      → env.answer h (open_session scope) ≡ ok tt
      → body (done (open_session scope) ∷ h) ≡ (err e, l)
      → env.answer l (rollback scope) ≡ ok tt
      → env.answer (done (rollback scope) ∷ l) (close scope) ≡ ok tt
      → session_scope env scope body h ≡ (err e, done (close scope) ∷ done (rollback scope) ∷ l)
  unfolding session_scope
  session_scope_raised h l e o b r c =
      let m = committed env scope body in
      let ending = call env (close scope) in
      let opened = done (open_session scope) ∷ h in
      let undone : m opened ≡ (err e, done (rollback scope) ∷ l) =
        try_except-err (body >>= then_commit) undo opened
          (ap (λ (r : Result A × Log). continue r.0 then_commit r.1) b)
        ∙ >>=-run (call env (rollback scope)) (λ _. raise e) l (call-ok env (rollback scope) l r) in
      >>=-run (call env (open_session scope)) (λ _. finally m ending) h
        (call-ok env (open_session scope) h o)
      ∙ ap (λ (r : Result A × Log). (ending >> lift r.0) r.1) undone
      ∙ >>=-run ending (λ _. lift (err e)) (done (rollback scope) ∷ l)
          (call-ok env (close scope) (done (rollback scope) ∷ l) c)
