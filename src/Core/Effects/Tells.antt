-- ===== src/Core/Effects/Tells.antt =====
-- Runs that raise exactly if one of their calls does: nothing is swallowed, and nothing else is raised.
use ject6_4th_ai_analyzer.Base.{
  ◌≡◌, refl, ap, sym, ◌∙◌, ◌↔◌, true, false, List, [], ◌∷◌, ◌++◌, append_assoc, All, All-append,
  All-of_append,
}
use ject6_4th_ai_analyzer.Core.Exceptions.{Exception}
use ject6_4th_ai_analyzer.Core.Effects.{
  Env, Exec, Command, Event, Log, Result, ok, err, call, pure, raise, lift, continue, handle,
  try_except, finally, is_ok, ◌>>=◌, ◌>>◌,
}
use ject6_4th_ai_analyzer.Core.Effects.Issues.{Adds, Traces}

pub false-ne-true : (false ≡ true) → ⊥
false-ne-true e = cc

abbrev pub AllSucceeded : List Event → Type 0
AllSucceeded es = All (λ (e : Event). e.succeeded ≡ true) es

abbrev pub TellsOf : {A : Type 0} → Result A → Log → Log → Type 0
TellsOf r h h' = Adds (λ es. (is_ok r ≡ true) ↔ AllSucceeded es) h h'

pub record Tells {A : Type 0} (m : Exec A) : Type 0 where
  pub at : (h : Log) → TellsOf (m h).0 h (m h).1

pub Tells-call : (env : Env) (c : Command) → Tells (call env c)
unfolding call
Tells-call env c = record {
  at = λ h. (
    record { command = c; succeeded = is_ok (env.answer h c) } ∷ [],
    refl,
    (λ e. (e, tt), λ s. s.0),
  );
}

module _ {A : Type 0} where
  pub Tells-pure : (a : A) → Tells (pure a)
  Tells-pure a = record { at = λ h. ([], refl, (λ _. tt, λ _. refl)) }

module _ {A B : Type 0} where
  Tells-continue :
      (r : Result A) (f : A → Exec B) (h h' : Log)
      → TellsOf r h h'
      → ((a : A) → Tells (f a))
      → TellsOf (continue r f h').0 h (continue r f h').1
  Tells-continue (err x) f h h' t kf = t
  Tells-continue (ok a) f h h' (es, e, i) kf =
      let (es', e', i') = (kf a).at h' in
      (
        es' ++ es,
        e' ∙ ap (λ x. es' ++ x) e ∙ sym (append_assoc es' es h),
        (λ t. All-append _ es' es (i'.0 t) (i.0 refl), λ s. i'.1 (All-of_append _ es' es s).0),
      )

  pub Tells-bind :
      (m : Exec A) (f : A → Exec B) → Tells m → ((a : A) → Tells (f a)) → Tells (m >>= f)
  Tells-bind m f km kf = record { at = λ h. Tells-continue (m h).0 f h (m h).1 (km.at h) kf }

raises :
    (B : Type 0) (x : Exception) (r : Result Unit) (h : Log)
    → (is_ok (continue r (λ _. raise {A = B} x) h).0 ≡ false)
      × ((continue r (λ _. raise {A = B} x) h).1 ≡ h)
raises B x (ok _) h = (refl, refl)
raises B x (err _) h = (refl, refl)

module _ {A : Type 0} where
  -- What is cleaned up before the exception is raised again.
  Tells-handle :
      (r : Result A) (k : Exec Unit) (h h' : Log)
      → TellsOf r h h'
      → Traces (λ _. Unit) k
      → TellsOf (handle r (λ e. k >> raise e) h').0 h (handle r (λ e. k >> raise e) h').1
  Tells-handle (ok a) k h h' t kk = t
  Tells-handle (err x) k h h' (es, e, i) kk =
      let (es', e', _) = kk.at h' in
      let (no_value, same_log) = raises A x (k h').0 (k h').1 in
      (
        es' ++ es,
        same_log ∙ e' ∙ ap (λ t. es' ++ t) e ∙ sym (append_assoc es' es h),
        (
          λ t. absurd (false-ne-true (sym no_value ∙ t)),
          λ s. absurd (false-ne-true (i.1 (All-of_append _ es' es s).1)),
        ),
      )

  pub Tells-cleanup :
      (m : Exec A) (k : Exec Unit)
      → Tells m
      → Traces (λ _. Unit) k
      → Tells (try_except m (λ e. k >> raise e))
  Tells-cleanup m k km kk = record { at = λ h. Tells-handle (m h).0 k h (m h).1 (km.at h) kk }

  Tells-after :
      (r : Result A) (rk : Result Unit) (h h' h'' : Log)
      → TellsOf r h h'
      → TellsOf rk h' h''
      → TellsOf (continue rk (λ _. lift r) h'').0 h (continue rk (λ _. lift r) h'').1
  Tells-after r (ok _) h h' h'' (es, e, i) (es', e', i') = (
    es' ++ es,
    e' ∙ ap (λ t. es' ++ t) e ∙ sym (append_assoc es' es h),
    (λ t. All-append _ es' es (i'.0 refl) (i.0 t), λ s. i.1 (All-of_append _ es' es s).1),
  )
  Tells-after r (err x) h h' h'' (es, e, i) (es', e', i') = (
    es' ++ es,
    e' ∙ ap (λ t. es' ++ t) e ∙ sym (append_assoc es' es h),
    (λ t. absurd (false-ne-true t), λ s. i'.1 (All-of_append _ es' es s).0),
  )

  pub Tells-finally : (m : Exec A) (k : Exec Unit) → Tells m → Tells k → Tells (finally m k)
  Tells-finally m k km kk = record {
    at = λ h. Tells-after (m h).0 (k (m h).1).0 h (m h).1 (k (m h).1).1 (km.at h) (kk.at (m h).1);
  }
