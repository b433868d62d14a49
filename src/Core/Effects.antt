-- ===== src/Core/Effects.antt =====
-- What the program asks of the world: one constructor for each call that leaves the process. The
-- answers are the environment's: any function of what has been asked so far. A run keeps the log of
-- its calls, the latest first, with whether each returned or raised.
mod Commands
pub mod Issues
pub mod Ensures
pub mod Guarded
pub mod Tells
pub use Commands.*
use ject6_4th_ai_analyzer.Base.{
  ℕ, ◌≡◌, refl, ap, arith, Bool, true, false, Option, some, none, List, ◌∷◌, Text,
}
use ject6_4th_ai_analyzer.Base.Int.{ℤ}
use ject6_4th_ai_analyzer.Base.Dict.{Dict}
use ject6_4th_ai_analyzer.Domain.Enums.{SourceType, AnalysisStatus}
use ject6_4th_ai_analyzer.Domain.Json.{Json, Fields}
use ject6_4th_ai_analyzer.Domain.Schemas.{Embedding, ChatMessage, AnalysisRequest}
use ject6_4th_ai_analyzer.Domain.Models.{
  DocumentColumns, Document, DocumentChunk, Influencer, AnalysisJob,
}
use ject6_4th_ai_analyzer.Client.Tokenizer.{Encoder}
use ject6_4th_ai_analyzer.Core.Exceptions.{Exception}
use ject6_4th_ai_analyzer.Core.RateLimiter.{Rate, RateLimitResult}
use ject6_4th_ai_analyzer.Core.Settings.{Settings}

pub record Event : Type 0 where
  pub command : Command
  pub succeeded : Bool

abbrev pub Log : Type 0
Log = List Event

pub data Result {ℓ} (A : Type ℓ) : Type ℓ where
  ok : A → Result A
  err : Exception → Result A

abbrev pub Exec : Type 0 → Type 0
Exec A = Log → Result A × Log

abbrev pub pure : {A : Type 0} → A → Exec A
pure a h = (ok a, h)

abbrev pub raise : {A : Type 0} → Exception → Exec A
raise e h = (err e, h)

abbrev pub continue : {A B : Type 0} → Result A → (A → Exec B) → Exec B
continue (ok a) f h = f a h
continue (err e) f h = (err e, h)

infixl 10 ◌>>=◌ ◌>>◌
abbrev pub ◌>>=◌ : {A B : Type 0} → Exec A → (A → Exec B) → Exec B
◌>>=◌ m f h = let (r, h') = m h in continue r f h'

abbrev pub ◌>>◌ : {A B : Type 0} → Exec A → Exec B → Exec B
m >> k = m >>= λ _. k

abbrev pub handle : {A : Type 0} → Result A → (Exception → Exec A) → Exec A
handle (ok a) f h = (ok a, h)
handle (err e) f h = f e h

-- `try: m; except Exception as e: f(e)`
abbrev pub try_except : {A : Type 0} → Exec A → (Exception → Exec A) → Exec A
try_except m f h = let (r, h') = m h in handle r f h'

abbrev pub lift : {A : Type 0} → Result A → Exec A
lift r h = (r, h)

abbrev pub is_ok : {A : Type 0} → Result A → Bool
is_ok (ok _) = true
is_ok (err _) = false

-- The answers of the world, the settings, and the pure functions of libraries.
pub record Env : Type 1 where
  pub answer : Log → (c : Command) → Result (Reply c)
  pub settings : Settings
  pub encoder : Encoder
  pub sha256 : Text → Text
  pub embedding_dumps : Embedding → Text
  pub embedding_loads : Text → Option Embedding
  -- `json.dumps`
  pub json_dumps : Json → Text
  -- the text of pydantic's error for a string that is too short
  pub min_length_text : Text
  -- `repr` of a string
  pub repr : Text → Text
  -- `AnalysisResult`: its JSON schema, `model_validate(json.loads(raw)).model_dump()`, and the text of
  -- the exception where that has no value
  pub analysis_schema : Text
  pub analysis_of : Text → Option Fields
  pub analysis_error : Text → Text
  -- `AnalysisRequest.model_validate(json.loads(body))`
  pub read_request : Text → Option AnalysisRequest
  -- `str` of a value of JSON
  pub str_of : Json → Text
  -- `ChatMessage`: `model_dump_json`, and `model_validate(json.loads(raw))`
  pub message_dumps : ChatMessage → Text
  pub message_loads : Text → Option ChatMessage
  -- `socket.gethostname()` and `os.getpid()`
  pub host_name : Text
  pub process_id : ℤ
  -- tenacity's `retry`, by the attempts allowed and the exceptions to retry on
  pub retry : (A : Type 0) → ℕ → (Exception → Bool) → Exec A → Exec A

-- `finally: k`
abbrev pub finally : {A : Type 0} → Exec A → Exec Unit → Exec A
finally m k h = let (r, h') = m h in (k >> lift r) h'

abbrev pub or_raise : {A : Type 0} → Option A → Exception → Exec A
or_raise none e = raise e
or_raise (some a) e = pure a

-- One call: its answer, and its place in the log.
unfoldable pub call : Env → (c : Command) → Exec (Reply c)
call env c h = let r = env.answer h c in (r, record { command = c; succeeded = is_ok r } ∷ h)

-- A step that returns hands its value and its log to the rest.
pub >>=-ok :
    {A B : Type 0} (m : Exec A) (f : A → Exec B) (h : Log) {a : A}
    → (m h).0 ≡ ok a
    → (m >>= f) h ≡ f a (m h).1
>>=-ok m f h e = ap (λ r. continue r f (m h).1) e

-- The same, where the log that the step leaves is known.
pub >>=-run :
    {A B : Type 0} (m : Exec A) (f : A → Exec B) (h : Log) {a : A} {h' : Log}
    → m h ≡ (ok a, h')
    → (m >>= f) h ≡ f a h'
>>=-run m f h e = ap (λ r. continue r.0 f r.1) e

pub call-ok :
    (env : Env) (c : Command) (h : Log) {a : Reply c}
    → env.answer h c ≡ ok a
    → call env c h ≡ (ok a, record { command = c; succeeded = true } ∷ h)
unfolding call
call-ok env c h e = ap (λ r. (r, record { command = c; succeeded = is_ok r } ∷ h)) e

-- A step that raises ends the block.
pub >>=-err :
    {A B : Type 0} (m : Exec A) (f : A → Exec B) (h : Log) {e : Exception}
    → (m h).0 ≡ err e
    → (m >>= f) h ≡ (err e, (m h).1)
>>=-err m f h e = ap (λ r. continue r f (m h).1) e

pub try_except-ok :
    {A : Type 0} (m : Exec A) (f : Exception → Exec A) (h : Log) {a : A} {h' : Log}
    → m h ≡ (ok a, h')
    → try_except m f h ≡ (ok a, h')
try_except-ok m f h e = ap (λ r. handle r.0 f r.1) e

pub try_except-err :
    {A : Type 0} (m : Exec A) (f : Exception → Exec A) (h : Log) {x : Exception} {h' : Log}
    → m h ≡ (err x, h')
    → try_except m f h ≡ f x h'
try_except-err m f h e = ap (λ r. handle r.0 f r.1) e

continue_inv :
    {A B : Type 0} (r : Result A) (f : A → Exec B) (h : Log) (b : B)
    → (continue r f h).0 ≡ ok b
    → (a : A) × (r ≡ ok a) × ((f a h).0 ≡ ok b)
continue_inv (ok a) f h b e = (a, refl, e)
continue_inv (err x) f h b e = ground arith

-- A block that returns has a first step that returned.
pub >>=-inv :
    {A B : Type 0} (m : Exec A) (f : A → Exec B) (h : Log) {b : B}
    → ((m >>= f) h).0 ≡ ok b
    → (a : A) × ((m h).0 ≡ ok a) × ((f a (m h).1).0 ≡ ok b)
>>=-inv m f h {b} e = continue_inv (m h).0 f (m h).1 b e
