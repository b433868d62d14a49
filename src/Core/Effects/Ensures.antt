-- ===== src/Core/Effects/Ensures.antt =====
-- Runs that, where they return, have made a call of some kind: one rule for each way to build a run.
use ject6_4th_ai_analyzer.Base.{
  ◌≡◌, refl, sym, ap, ◌∙◌, inl, Bool, true, false, List, [], ◌∷◌, ◌++◌, append_assoc, arith,
  if◌then◌else◌, ◌⊎◌, inr,
}
use ject6_4th_ai_analyzer.Core.Exceptions.{Exception}
use ject6_4th_ai_analyzer.Core.Effects.{
  Command, Event, Log, Result, ok, err, Exec, Env, call, raise, lift, continue, handle, try_except,
  finally, is_ok, ◌>>=◌,
}
use ject6_4th_ai_analyzer.Core.Effects.Issues.{
  Adds, IsTrace, Traces, Traces-bind, Traces-lift, Has, Has-append_left, Has-append_right,
}

-- `P` holds of the events that are added and, if the run gave `r` and that is no exception, one is in `C`.
abbrev pub AddsOne :
    {A : Type 0} → (List Event → Type 0) → (Event → Type 0) → Log → Result A × Log → Type 0
AddsOne P C h out = Adds (λ es. P es × (is_ok out.0 ≡ true → Has C es)) h out.1

pub record Ensures (P : List Event → Type 0) (C : Event → Type 0) {A : Type 0} (m : Exec A)
    : Type 0 where
  pub at : (h : Log) → AddsOne P C h (m h)

module _ {P : List Event → Type 0} (t : IsTrace P) (C : Event → Type 0) where
  -- What comes after a run that has made the call.
  Adds-after :
      {A B : Type 0} {h : Log} (r : Result A) (h' : Log) (out : Result B × Log)
      → AddsOne P C h (r, h')
      → (is_ok out.0 ≡ true → is_ok r ≡ true)
      → Adds P h' out.1
      → AddsOne P C h out
  Adds-after {h} r h' out (es, e, (p, q)) back (es', e', p') = (
    es' ++ es,
    e' ∙ ap (λ x. es' ++ x) e ∙ sym (append_assoc es' es h),
    (t.at_append es' es p' p, λ o. Has-append_right C es' es (q (back o))),
  )

  -- What comes after any run, and makes the call.
  Adds-before :
      {B : Type 0} {h h' : Log} (out : Result B × Log)
      → Adds P h h'
      → AddsOne P C h' out
      → AddsOne P C h out
  Adds-before {h} out (es, e, p) (es', e', (p', q)) = (
    es' ++ es,
    e' ∙ ap (λ x. es' ++ x) e ∙ sym (append_assoc es' es h),
    (t.at_append es' es p' p, λ o. Has-append_left C es' es (q o)),
  )

  module _ {A : Type 0} where
    pub Ensures-raise : (e : Exception) → Ensures P C (raise {A = A} e)
    Ensures-raise e = record { at = λ h. ([], refl, (t.at_nil, λ o. ground arith)) }

    pub Ensures-if :
        (b : Bool) (m n : Exec A) → Ensures P C m → Ensures P C n → Ensures P C (if b then m else n)
    Ensures-if true m n km kn = km
    Ensures-if false m n km kn = kn

    Ensures-handle :
        (f : Exception → Exec A) (h : Log) (r : Result A) (h' : Log)
        → AddsOne P C h (r, h')
        → ((e : Exception) → Ensures P C (f e))
        → AddsOne P C h (handle r f h')
    Ensures-handle f h (ok a) h' k kf = k
    Ensures-handle f h (err e) h' (es, eq, (p, q)) kf =
        Adds-before (f e h') (es, eq, p) ((kf e).at h')

    pub Ensures-try :
        (m : Exec A) (f : Exception → Exec A)
        → Ensures P C m
        → ((e : Exception) → Ensures P C (f e))
        → Ensures P C (try_except m f)
    Ensures-try m f km kf = record { at = λ h. Ensures-handle f h (m h).0 (m h).1 (km.at h) kf }

  module _ {A B : Type 0} where
    bind_left :
        (f : A → Exec B) (h : Log) (r : Result A) (h' : Log)
        → AddsOne P C h (r, h')
        → ((a : A) → Traces P (f a))
        → AddsOne P C h (continue r f h')
    bind_left f h (ok a) h' k kf = Adds-after (ok a) h' (f a h') k (λ _. refl) ((kf a).at h')
    bind_left f h (err e) h' k kf = k

    -- The first part makes the call.
    pub Ensures-bind_left :
        (m : Exec A) (f : A → Exec B)
        → Ensures P C m
        → ((a : A) → Traces P (f a))
        → Ensures P C (m >>= f)
    Ensures-bind_left m f km kf = record { at = λ h. bind_left f h (m h).0 (m h).1 (km.at h) kf }

    bind_right :
        (f : A → Exec B) (h : Log) (r : Result A) (h' : Log)
        → Adds P h h'
        → ((a : A) → Ensures P C (f a))
        → AddsOne P C h (continue r f h')
    bind_right f h (ok a) h' k kf = Adds-before (f a h') k ((kf a).at h')
    bind_right f h (err e) h' k kf =
        Adds-before {B = B} (err e, h') k ((Ensures-raise {A = B} e).at h')

    -- The second part makes it.
    pub Ensures-bind_right :
        (m : Exec A) (f : A → Exec B)
        → Traces P m
        → ((a : A) → Ensures P C (f a))
        → Ensures P C (m >>= f)
    Ensures-bind_right m f km kf = record { at = λ h. bind_right f h (m h).0 (m h).1 (km.at h) kf }

  lift_back :
      {A : Type 0} (r : Result A) (s : Result Unit) (h : Log)
      → is_ok (continue s (λ _. lift r) h).0 ≡ true
      → is_ok r ≡ true
  lift_back r (ok a) h o = o
  lift_back r (err e) h o = ground arith

  pub Ensures-finally :
      {A : Type 0} (m : Exec A) (k : Exec Unit)
      → Ensures P C m
      → Traces P k
      → Ensures P C (finally m k)
  Ensures-finally m k km kk = record {
    at = λ h.
        Adds-after (m h).0 (m h).1 (finally m k h) (km.at h)
          (lift_back (m h).0 (k (m h).1).0 (k (m h).1).1)
          ((Traces-bind t k (λ _. lift (m h).0) kk (λ _. Traces-lift t (m h).0)).at (m h).1);
  }

  -- One call, which is of the kind if it succeeds.
  pub Ensures-call :
      (env : Env) (c : Command)
      → ((b : Bool) → P (record { command = c; succeeded = b } ∷ []))
      → C (record { command = c; succeeded = true })
      → Ensures P C (call env c)
  unfolding call
  Ensures-call env c p k = record {
    at = λ h. (
      record { command = c; succeeded = is_ok (env.answer h c) } ∷ [],
      refl,
      (p (is_ok (env.answer h c)), λ o. inl (rw o k)),
    );
  }

-- The same of one run, as one of two: it raised, or it has made the call.
abbrev pub AddsOrRaises :
    {A : Type 0} → (List Event → Type 0) → (Event → Type 0) → Log → Result A × Log → Type 0
AddsOrRaises P C h out = Adds (λ es. P es × ((is_ok out.0 ≡ false) ⊎ Has C es)) h out.1

pub AddsOne-AddsOrRaises :
    {A : Type 0} {P : List Event → Type 0} {C : Event → Type 0} {h : Log} (out : Result A × Log)
    → AddsOne P C h out
    → AddsOrRaises P C h out
AddsOne-AddsOrRaises (ok a, h') (es, e, (p, q)) = (es, e, (p, inr (q refl)))
AddsOne-AddsOrRaises (err x, h') (es, e, (p, q)) = (es, e, (p, inl refl))
