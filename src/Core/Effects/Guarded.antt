-- ===== src/Core/Effects/Guarded.antt =====
-- Calls that only follow other calls.
use ject6_4th_ai_analyzer.Base.{
  refl, sym, ap, ◌∙◌, ◌⊎◌, inl, inr, List, [], ◌∷◌, ◌++◌, append_assoc, arith,
}
use ject6_4th_ai_analyzer.Core.Effects.{Command, Event, Log, Exec, Result, ok, err, continue, ◌>>=◌}
use ject6_4th_ai_analyzer.Core.Effects.Issues.{IsTrace, Only, Has, Has-append_left}
use ject6_4th_ai_analyzer.Core.Effects.Ensures.{AddsOne, Ensures}

module _ (Guarded : Command → Type 0) (Keeps : Event → Type 0) where
  -- No guarded call is made before one of the calls, which `Q` says was made before.
  abbrev pub SafeAfter : Type 0 → List Event → Type 0
  SafeAfter Q [] = Unit
  SafeAfter Q (e ∷ es) = (Guarded e.command → Has Keeps es ⊎ Q) × SafeAfter Q es

  widen : (Q : Type 0) (es es' : List Event) → Has Keeps es ⊎ Q → Has Keeps (es ++ es') ⊎ Q
  widen Q es es' (inl k) = inl (Has-append_left Keeps es es' k)
  widen Q es es' (inr q) = inr q

  SafeAfter-append :
      (Q : Type 0) (es es' : List Event)
      → SafeAfter Q es
      → SafeAfter Q es'
      → SafeAfter Q (es ++ es')
  SafeAfter-append Q [] es' s s' = s'
  SafeAfter-append Q (e ∷ es) es' (p, s) s' =
      (λ c. widen Q es es' (p c), SafeAfter-append Q es es' s s')

  pub safe : (Q : Type 0) → IsTrace (SafeAfter Q)
  safe Q = record { at_nil = tt; at_append = SafeAfter-append Q }

  pub Only-SafeAfter :
      (Q : Type 0) (es : List Event) → Only (λ c. Guarded c → ⊥) es → SafeAfter Q es
  Only-SafeAfter Q [] o = tt
  Only-SafeAfter Q (e ∷ es) (p, o) = (λ c. elim (p c) [ ], Only-SafeAfter Q es o)

  -- Where one of the calls is made first, what comes after may be guarded.
  settle_after :
      (es es' : List Event)
      → Has Keeps es'
      → SafeAfter Unit es
      → SafeAfter ⊥ es'
      → SafeAfter ⊥ (es ++ es')
  settle_after [] es' k s s' = s'
  settle_after (e ∷ es) es' k (p, s) s' = (λ _. inl (reach es), settle_after es es' k s s')
    where
      reach : (es : List Event) → Has Keeps (es ++ es')
      reach [] = k
      reach (e ∷ es) = inr (reach es)

  module _ {C : Event → Type 0} where
    after_kept :
        {B : Type 0} {h h' : Log} (out : Result B × Log)
        → (AddsOne (SafeAfter ⊥) Keeps h (ok tt, h'))
        → AddsOne (SafeAfter Unit) C h' out
        → AddsOne (SafeAfter ⊥) C h out
    after_kept {h} out (es, e, (s, k)) (es', e', (s', k')) = (
      es' ++ es,
      e' ∙ ap (λ x. es' ++ x) e ∙ sym (append_assoc es' es h),
      (settle_after es' es (k refl) s' s, λ o. Has-append_left C es' es (k' o)),
    )

    keep_then :
        {A B : Type 0} (f : A → Exec B) (h : Log) (r : Result A) (h' : Log)
        → AddsOne (SafeAfter ⊥) Keeps h (r, h')
        → ((a : A) → Ensures (SafeAfter Unit) C (f a))
        → AddsOne (SafeAfter ⊥) C h (continue r f h')
    keep_then f h (ok a) h' k kf = after_kept (f a h') k ((kf a).at h')
    keep_then f h (err e) h' (es, eq, (s, k)) kf = (es, eq, (s, λ o. ground arith))

    -- First a part that makes one of the calls, then one in which a guarded call may stand.
    pub Ensures-keep_then :
        {A B : Type 0} (k : Exec A) (f : A → Exec B)
        → Ensures (SafeAfter ⊥) Keeps k
        → ((a : A) → Ensures (SafeAfter Unit) C (f a))
        → Ensures (SafeAfter ⊥) C (k >>= f)
    Ensures-keep_then k f kk kf = record { at = λ h. keep_then f h (k h).0 (k h).1 (kk.at h) kf }
