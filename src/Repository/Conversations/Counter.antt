-- ===== src/Repository/Conversations/Counter.antt =====
-- app/repository/conversation_repository.py: the token count of a session, over a Redis that keeps its counter.
use ject6_4th_ai_analyzer.Base.{
  ℕ, ◌+◌, ◌≡◌, refl, sym, ap, ◌∙◌, Bool, true, Option, none, some, List, [], ◌∷◌, ◌++◌, Text, ◌==◌,
  text_eq, list_beq_iff, arith, if◌then◌else◌,
}
use ject6_4th_ai_analyzer.Base.Int.{ℤ, pos}
use ject6_4th_ai_analyzer.Base.Decimal.{show, read_int}
use ject6_4th_ai_analyzer.Base.Decimal.RoundTrip.{read_int-show, read_int-nil}
use ject6_4th_ai_analyzer.Core.Effects.{
  Env, Log, Event, Command, Result, ok, err, is_ok, call, pure, continue, get, incrby, delete,
  expire,
}
use ject6_4th_ai_analyzer.Core.Effects.Issues.{Only}
use ject6_4th_ai_analyzer.Core.Parsing.{int_or_zero, parse_int, non_empty}
use ject6_4th_ai_analyzer.Repository.Conversations.{token_key, get_token_usage, add_token_usage}
use ject6_4th_ai_analyzer.Repository.Conversations.History.{among}

abbrev pub count_of : Option ℕ → ℕ
count_of none = 0
count_of (some n) = n

-- What a call does to the counter at a key.
abbrev pub counted : Text → Command → Bool → Option ℕ → Option ℕ
counted k (incrby j n) true o = if j == k then some (count_of o + n) else o
counted k (delete js) true o = if among k js then none else o
counted k _ _ o = o

-- The counter at a key, after the calls of a log.
abbrev pub counter_at : Text → Log → Option ℕ
counter_at k [] = none
counter_at k (e ∷ h) = counted k e.command e.succeeded (counter_at k h)

abbrev pub shown : Option ℕ → Option Text
shown none = none
shown (some n) = some (show (pos n))

-- Redis keeps the counter of a session, which does not expire and which nobody else changes.
pub record KeepsCounter (env : Env) (k : Text) : Type 0 where
  pub at_get : (h : Log) → env.answer h (get k) ≡ ok (shown (counter_at k h))
  pub at_incrby :
      (h : Log) (n : ℕ) → env.answer h (incrby k n) ≡ ok (pos (count_of (counter_at k h) + n))

-- A command that leaves the counter as it is.
abbrev pub Quiet : Text → Command → Type 0
Quiet k c = (b : Bool) (o : Option ℕ) → counted k c b o ≡ o

pub counter_at-quiet :
    (k : Text) (es : List Event) (h : Log)
    → Only (Quiet k) es
    → counter_at k (es ++ h) ≡ counter_at k h
counter_at-quiet k [] h q = refl
counter_at-quiet k (e ∷ es) h (q, qs) =
    q e.succeeded (counter_at k (es ++ h)) ∙ counter_at-quiet k es h qs

none_is_not_some : {z : ℤ} → none ≡ some z → ⊥
none_is_not_some e = cc

int_or_zero-read :
    (env : Env) (t : Text) (z : ℤ) → read_int t ≡ some z → int_or_zero env (some t) ≡ ok z
unfolding int_or_zero non_empty parse_int
int_or_zero-read env [] z e = absurd (none_is_not_some (sym read_int-nil ∙ e))
int_or_zero-read env (c ∷ t) z e = rw (int_or_zero, parse_int, e) refl

int_or_zero-shown : (env : Env) (o : Option ℕ) → int_or_zero env (shown o) ≡ ok (pos (count_of o))
unfolding int_or_zero non_empty
int_or_zero-shown env none = refl
int_or_zero-shown env (some n) = int_or_zero-read env (show (pos n)) (pos n) (read_int-show (pos n))

pub ok_inj : {A : Type 0} {a b : A} → ok a ≡ ok b → a ≡ b
ok_inj {a} e = ap (λ r. elim r [ ok x ↦ x | err _ ↦ a ]) e

after_expire :
    (r : Result Unit) (t total : ℤ) (h : Log)
    → (continue r (λ _. pure t) h).0 ≡ ok total
    → (total ≡ t) × ((continue r (λ _. pure t) h).1 ≡ h)
after_expire (ok _) t total h e = (sym (ok_inj e), refl)
after_expire (err x) t total h e = ground arith

module _ (env : Env) (s : Text) (w : KeepsCounter env (token_key s)) where
  pub get_token_usage-counter :
      (h : Log) → (get_token_usage env s h).0 ≡ ok (pos (count_of (counter_at (token_key s) h)))
  unfolding get_token_usage call
  get_token_usage-counter h = rw (w.at_get) (int_or_zero-shown env (counter_at (token_key s) h))

  pub add_token_usage-counter :
      (n : ℕ) (h : Log) (total : ℤ)
      → (add_token_usage env s n h).0 ≡ ok total
      → (total ≡ pos (count_of (counter_at (token_key s) h) + n))
        × (count_of (counter_at (token_key s) (add_token_usage env s n h).1)
            ≡ count_of (counter_at (token_key s) h) + n)
  unfolding add_token_usage call
  add_token_usage-counter n h total e =
      let k = token_key s in
      let h1 : Log = record { command = incrby k n; succeeded = true } ∷ h in
      let h2 : Log =
        record {
          command = expire k env.settings.conversation_ttl_seconds;
          succeeded = is_ok (env.answer h1 (expire k env.settings.conversation_ttl_seconds));
        }
        ∷ h1 in
      let (same, log) =
        after_expire (env.answer h1 (expire k env.settings.conversation_ttl_seconds))
          (pos (count_of (counter_at k h) + n)) total h2 (rw (w.at_incrby) at e) in
      let run : (add_token_usage env s n h).1 ≡ h2 = rw (w.at_incrby) log in
      (same, ap (λ l. count_of (counter_at k l)) run ∙ rw ((list_beq_iff k k).1 refl) refl)

-- What a session has used.
abbrev pub session_total : Text → Log → ℕ
session_total session_id h = count_of (counter_at (token_key session_id) h)
