-- ===== src/Repository/Conversations/History.antt =====
-- The history of a session, over a Redis that keeps what is pushed to its lists.
use ject6_4th_ai_analyzer.Base.{
  ◌≢◌, inl, inr, Bool-cases, arith, ℕ, ◌≡◌, refl, ap, ◌∙◌, sym, Bool, true, false, ◌||◌, Option,
  none, some, List, [], ◌∷◌, ◌++◌, Text, codes, ◌==◌, text_eq, list_beq_iff, if◌then◌else◌,
}
use ject6_4th_ai_analyzer.Domain.Schemas.{ChatMessage}
use ject6_4th_ai_analyzer.Core.Exceptions.{builtin, value_error}
use ject6_4th_ai_analyzer.Core.Effects.{
  Env, Log, Command, Result, ok, err, call, lrange, rpush, delete, expire,
}
use ject6_4th_ai_analyzer.Repository.Conversations.{
  session_key, load_messages, get_messages, append_message, clear,
}

abbrev pub among : Text → List Text → Bool
among k [] = false
among k (j ∷ js) = (j == k) || among k js

-- What a call does to the list at a key.
abbrev pub after_call : Text → Command → Bool → List Text → List Text
after_call k (rpush j v) true xs = if j == k then xs ++ v ∷ [] else xs
after_call k (delete js) true xs = if among k js then [] else xs
after_call k _ _ xs = xs

-- The list at a key, after the calls of a log.
abbrev pub list_at : Text → Log → List Text
list_at k [] = []
list_at k (e ∷ h) = after_call k e.command e.succeeded (list_at k h)

-- Redis keeps the lists, no key expires, and a message is read back from its JSON.
pub record KeepsLists (env : Env) : Type 0 where
  pub at_lrange : (h : Log) (k : Text) → env.answer h (lrange k) ≡ ok (list_at k h)
  pub at_rpush : (h : Log) (k v : Text) → env.answer h (rpush k v) ≡ ok tt
  pub at_expire : (h : Log) (k : Text) (ttl : ℕ) → env.answer h (expire k ttl) ≡ ok tt
  pub at_delete : (h : Log) (ks : List Text) → env.answer h (delete ks) ≡ ok tt
  pub read_back : (m : ChatMessage) → env.message_loads (env.message_dumps m) ≡ some m

abbrev snoc : ChatMessage → Result (List ChatMessage) → Result (List ChatMessage)
snoc m (ok ms) = ok (ms ++ m ∷ [])
snoc m (err e) = err e

abbrev cons_read : Option ChatMessage → Result (List ChatMessage) → Result (List ChatMessage)
cons_read none r = err (builtin value_error (codes "not a chat message"))
cons_read (some message) (ok messages) = ok (message ∷ messages)
cons_read (some message) (err e) = err e

cons_read-snoc :
    (m : ChatMessage) (o : Option ChatMessage) (r : Result (List ChatMessage))
    → cons_read o (snoc m r) ≡ snoc m (cons_read o r)
cons_read-snoc m none r = refl
cons_read-snoc m (some x) (ok ms) = refl
cons_read-snoc m (some x) (err e) = refl

module _ (env : Env) where
  load_messages-cons :
      (raw : Text) (raws : List Text) (o : Option ChatMessage) (r : Result (List ChatMessage))
      → env.message_loads raw ≡ o
      → load_messages env raws ≡ r
      → load_messages env (raw ∷ raws) ≡ cons_read o r
  unfolding load_messages
  load_messages-cons raw raws none r e q = rw (load_messages, e)
  load_messages-cons raw raws (some m) (ok ms) e q = rw (load_messages, e, q)
  load_messages-cons raw raws (some m) (err x) e q = rw (load_messages, e, q)

module _ (env : Env) (w : KeepsLists env) where
  load_messages-append :
      (raws : List Text) (m : ChatMessage)
      → load_messages env (raws ++ env.message_dumps m ∷ []) ≡ snoc m (load_messages env raws)
  unfolding load_messages
  load_messages-append [] m =
      load_messages-cons env (env.message_dumps m) [] (some m) (ok []) (w.read_back m) refl
  load_messages-append (raw ∷ raws) m =
      load_messages-cons env raw (raws ++ env.message_dumps m ∷ []) (env.message_loads raw) _ refl
        (load_messages-append raws m)
      ∙ cons_read-snoc m (env.message_loads raw) (load_messages env raws)
      ∙ ap (snoc m) (sym (load_messages-cons env raw raws (env.message_loads raw) _ refl refl))

  get_messages-list_at :
      (session_id : Text) (h : Log)
      → (get_messages env session_id h).0 ≡ load_messages env (list_at (session_key session_id) h)
  unfolding get_messages call
  get_messages-list_at session_id h = rw (w.at_lrange h (session_key session_id))

  list_at-append_message :
      (session_id k : Text) (m : ChatMessage) (h : Log)
      → list_at k (append_message env session_id m h).1 ≡ (
          if session_key session_id == k
          then list_at k h ++ env.message_dumps m ∷ []
          else list_at k h)
  unfolding append_message call
  list_at-append_message session_id k m h = rw w.at_rpush

  list_at-clear :
      (session_id : Text) (h : Log)
      → list_at (session_key session_id) (clear env session_id h).1 ≡ []
  unfolding clear call
  list_at-clear session_id h =
      rw (w.at_delete, (list_beq_iff (session_key session_id) (session_key session_id)).1 refl)

-- Sessions with different ids have different keys.
session_key-apart : (s t : Text) → s ≢ t → (session_key s == session_key t) ≡ false
session_key-apart s t ne = elim (Bool-cases (session_key s == session_key t)) [
  | inl e ↦ absurd (ne ((list_beq_iff s t).0 (ground arith)))
  | inr f ↦ f
]

-- A message that is appended to a session is the last of its history, which else stays as it was, the
-- histories of the sessions with another id stay, and a session that is cleared has no history. Redis keeps what
-- is pushed, no key expires, and a message is read back from its JSON.
pub append_message-get_messages :
    (env : Env)
    → KeepsLists env
    → (session_id other : Text) (m : ChatMessage) (ms : List ChatMessage) (h : Log)
    → (get_messages env session_id h).0 ≡ ok ms
    → session_id ≢ other
    → ((get_messages env session_id (append_message env session_id m h).1).0 ≡ ok (ms ++ m ∷ []))
      × ((get_messages env other (append_message env session_id m h).1).0
          ≡ (get_messages env other h).0)
      × ((get_messages env session_id (clear env session_id h).1).0 ≡ ok [])
append_message-get_messages env w session_id other m ms h e ne = (
  get_messages-list_at env w session_id (append_message env session_id m h).1
      ∙ ap (load_messages env) (
          rw (
            list_at-append_message env w session_id (session_key session_id) m h,
            (list_beq_iff (session_key session_id) (session_key session_id)).1 refl,
          ))
      ∙ load_messages-append env w (list_at (session_key session_id) h) m
      ∙ ap (snoc m) (sym (get_messages-list_at env w session_id h) ∙ e),
  get_messages-list_at env w other (append_message env session_id m h).1
      ∙ ap (load_messages env) (
          rw (
            list_at-append_message env w session_id (session_key other) m h,
            session_key-apart session_id other ne,
          ))
      ∙ sym (get_messages-list_at env w other h),
  get_messages-list_at env w session_id (clear env session_id h).1
      ∙ ap (load_messages env) (list_at-clear env w session_id h)
      ∙ (unfold load_messages in refl),
)
