-- ===== src/Core/Effects/Issues.antt =====
-- Which events a run adds to the log: one rule for each way to build a run.
use ject6_4th_ai_analyzer.Base.{
  ◌≡◌, refl, sym, ap, ◌∙◌, ◌⊎◌, inl, inr, Bool, true, false, Option, none, some, List, [], ◌∷◌,
  ◌++◌, append_assoc, All, All-append, if◌then◌else◌,
}
use ject6_4th_ai_analyzer.Core.Exceptions.{Exception}
use ject6_4th_ai_analyzer.Core.Effects.{
  Command, Event, Log, Result, ok, err, Exec, Env, call, pure, raise, lift, continue, handle,
  try_except, finally, or_raise, is_ok, ◌>>=◌,
}

-- The events that `h'` has on top of `h`, of which `P` holds.
abbrev pub Adds : (List Event → Type 0) → Log → Log → Type 0
Adds P h h' = (es : List Event) × (h' ≡ es ++ h) × P es

-- A property of runs of events that holds of none, and of two runs, the later one first, put together.
pub record IsTrace (P : List Event → Type 0) : Type 0 where
  pub at_nil : P []
  pub at_append : (es es' : List Event) → P es → P es' → P (es ++ es')

pub record Traces (P : List Event → Type 0) {A : Type 0} (m : Exec A) : Type 0 where
  pub at : (h : Log) → Adds P h (m h).1

module _ {P : List Event → Type 0} (t : IsTrace P) where
  pub Adds-trans : {h h' h'' : Log} → Adds P h h' → Adds P h' h'' → Adds P h h''
  Adds-trans {h} (es, e, p) (es', e', p') =
      (es' ++ es, e' ∙ ap (λ x. es' ++ x) e ∙ sym (append_assoc es' es h), t.at_append es' es p' p)

  pub Adds-refl : (h : Log) → Adds P h h
  Adds-refl h = ([], refl, t.at_nil)

  module _ {A : Type 0} where
    pub Traces-pure : (a : A) → Traces P (pure a)
    Traces-pure a = record { at = Adds-refl }

    pub Traces-raise : (e : Exception) → Traces P (raise {A = A} e)
    Traces-raise e = record { at = Adds-refl }

    pub Traces-lift : (r : Result A) → Traces P (lift r)
    Traces-lift r = record { at = Adds-refl }

    pub Traces-or_raise : (o : Option A) (e : Exception) → Traces P (or_raise o e)
    Traces-or_raise none e = Traces-raise e
    Traces-or_raise (some a) e = Traces-pure a

    pub Traces-if :
        (b : Bool) (m n : Exec A) → Traces P m → Traces P n → Traces P (if b then m else n)
    Traces-if true m n km kn = km
    Traces-if false m n km kn = kn

    pub Traces-option {ℓ} :
        {B : Type ℓ} (o : Option B) (n : Exec A) (f : B → Exec A)
        → Traces P n
        → ((b : B) → Traces P (f b))
        → Traces P (elim o [ none ↦ n | some b ↦ f b ])
    Traces-option none n f kn kf = kn
    Traces-option (some b) n f kn kf = kf b

    Traces-handle :
        (r : Result A) (f : Exception → Exec A)
        → ((e : Exception) → Traces P (f e))
        → Traces P (handle r f)
    Traces-handle (ok a) f kf = Traces-pure a
    Traces-handle (err e) f kf = kf e

    pub Traces-try :
        (m : Exec A) (f : Exception → Exec A)
        → Traces P m
        → ((e : Exception) → Traces P (f e))
        → Traces P (try_except m f)
    Traces-try m f km kf = record {
      at = λ h. Adds-trans (km.at h) ((Traces-handle (m h).0 f kf).at (m h).1);
    }

  module _ {A B : Type 0} where
    Traces-continue :
        (r : Result A) (f : A → Exec B) → ((a : A) → Traces P (f a)) → Traces P (continue r f)
    Traces-continue (ok a) f kf = kf a
    Traces-continue (err e) f kf = Traces-raise e

    pub Traces-bind :
        (m : Exec A) (f : A → Exec B) → Traces P m → ((a : A) → Traces P (f a)) → Traces P (m >>= f)
    Traces-bind m f km kf = record {
      at = λ h. Adds-trans (km.at h) ((Traces-continue (m h).0 f kf).at (m h).1);
    }

  -- The rest of a block after a result that is at hand.
  pub Traces-after :
      {A B : Type 0} (r : Result A) (f : A → Exec B)
      → ((a : A) → r ≡ ok a → Traces P (f a))
      → Traces P (lift r >>= f)
  Traces-after (ok a) f k = k a refl
  Traces-after (err e) f k = record { at = Adds-refl }

  pub Traces-finally :
      {A : Type 0} (m : Exec A) (k : Exec Unit) → Traces P m → Traces P k → Traces P (finally m k)
  Traces-finally m k km kk = record {
    at = λ h.
        Adds-trans (km.at h)
          ((Traces-bind k (λ _. lift (m h).0) kk (λ _. Traces-lift (m h).0)).at (m h).1);
  }

  -- One call, of which `P` holds whether it returns or raises.
  pub Traces-call :
      (env : Env) (c : Command)
      → ((b : Bool) → P (record { command = c; succeeded = b } ∷ []))
      → Traces P (call env c)
  unfolding call
  Traces-call env c p = record {
    at = λ h. (
      record { command = c; succeeded = is_ok (env.answer h c) } ∷ [],
      refl,
      p (is_ok (env.answer h c)),
    );
  }

-- Every event is one that `C` allows.
abbrev pub Only : (Command → Type 0) → List Event → Type 0
Only C = All (λ (e : Event). C e.command)

pub Only-IsTrace : (C : Command → Type 0) → IsTrace (Only C)
Only-IsTrace C = record {
  at_nil = tt;
  at_append = λ es es' p p'. All-append (λ (e : Event). C e.command) es es' p p';
}

-- Some event is one that `C` describes.
abbrev pub Has : (Event → Type 0) → List Event → Type 0
Has C [] = ⊥
Has C (e ∷ es) = C e ⊎ Has C es

pub Has-append_left : (C : Event → Type 0) (es es' : List Event) → Has C es → Has C (es ++ es')
Has-append_left C [] es' h = elim h [ ]
Has-append_left C (e ∷ es) es' (inl p) = inl p
Has-append_left C (e ∷ es) es' (inr p) = inr (Has-append_left C es es' p)

pub Has-append_right : (C : Event → Type 0) (es es' : List Event) → Has C es' → Has C (es ++ es')
Has-append_right C [] es' h = h
Has-append_right C (e ∷ es) es' h = inr (Has-append_right C es es' h)
