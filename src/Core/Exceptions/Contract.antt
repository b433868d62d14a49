-- ===== src/Core/Exceptions/Contract.antt =====
-- The responses against the table of error codes in docs/CONTRACT.md.
use ject6_4th_ai_analyzer.Base.{
  ℕ, ◌*◌, ◌≤◌, ◌≡◌, Option, none, some, List, [], ◌∷◌, ◌==◌, text_eq, Text, codes, arith,
  if◌then◌else◌,
}
use ject6_4th_ai_analyzer.Core.Exceptions.{Exception, raised, retry_after_sec}

-- The table of the contract: each code and its status.
abbrev pub contract : List (Text × ℕ)
contract =
    (codes "VALIDATION_ERROR", 400)
    ∷ (codes "TOKEN_LIMIT_EXCEEDED", 400)
    ∷ (codes "NOT_FOUND", 404)
    ∷ (codes "RATE_LIMIT_EXCEEDED", 429)
    ∷ (codes "LLM_CLIENT_ERROR", 502)
    ∷ (codes "EXTERNAL_SERVICE_ERROR", 502)
    ∷ (codes "INTERNAL_ERROR", 500)
    ∷ []

abbrev pub status_in : List (Text × ℕ) → Text → Option ℕ
status_in [] code = none
status_in ((k, n) ∷ rows) code = if code == k then some n else status_in rows code

-- An exception that is raised with no code of its own.
abbrev pub HasClassCode : Exception → Type 0
HasClassCode (raised _ _ code) = code ≡ none
HasClassCode _ = Unit

-- The header is the least number of whole seconds, and at least one, that covers the wait.
retry_after_sec_least :
    (ms : ℕ)
    → (1 ≤ retry_after_sec ms)
      × (ms ≤ retry_after_sec ms * 1000)
      × ((s : ℕ) → 1 ≤ s → ms ≤ s * 1000 → retry_after_sec ms ≤ s)
unfolding retry_after_sec
retry_after_sec_least ms = (omega arith, omega arith, λ s h k. omega arith)
