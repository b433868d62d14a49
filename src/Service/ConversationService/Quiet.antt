-- ===== src/Service/ConversationService/Quiet.antt =====
-- app/service/conversation_service.py: the parts of `chat` that leave the counter of a session alone.
use ject6_4th_ai_analyzer.Base.{◌≡◌, refl, ap, ◌∙◌, List, [], ◌∷◌, Text, text_eq}
use ject6_4th_ai_analyzer.Base.Int.{ℤ, eqb_ℤ}
use ject6_4th_ai_analyzer.Domain.Schemas.{ChatMessage, ChatRequest}
use ject6_4th_ai_analyzer.Core.Effects.{
  Env, Exec, Log, Event, Command, call, get, expire, lrange, rpush, time, eval_token_bucket,
  get_document, latest_job, my_blog_context, job_posting_context,
}
use ject6_4th_ai_analyzer.Core.Effects.Issues.{
  IsTrace, Traces, Only, Only-IsTrace, Traces-pure, Traces-raise, Traces-lift, Traces-or_raise,
  Traces-if, Traces-option, Traces-try, Traces-bind, Traces-call,
}
use ject6_4th_ai_analyzer.Core.Consume.{consume, enforce_rate_limit}
use ject6_4th_ai_analyzer.Client.Llm.Retries.{StopsUnlessRetried}
use ject6_4th_ai_analyzer.Client.Llm.Asks.{AllowsProviders, Traces-embed}
use ject6_4th_ai_analyzer.Repository.Documents.{get_by_id}
use ject6_4th_ai_analyzer.Repository.AnalysisJobs.{get_latest_by_document}
use ject6_4th_ai_analyzer.Repository.Conversations.{get_messages, get_token_usage, append_message}
use ject6_4th_ai_analyzer.Service.ConversationService.{
  verify_context, within_limits, build_retrieval_section, build_system_prompt,
}
use ject6_4th_ai_analyzer.Repository.Conversations.Counter.{Quiet, counter_at, counter_at-quiet}

Traces-first :
    {A B : Type 0} {P : List Event → Type 0} (xs : List A) (m : Exec B) (f : A → List A → Exec B)
    → Traces P m
    → ((x : A) (ys : List A) → Traces P (f x ys))
    → Traces P (elim xs [ [] ↦ m | x ∷ ys ↦ f x ys ])
Traces-first [] m f km kf = km
Traces-first (x ∷ ys) m f km kf = kf x ys

module _ (k : Text) where
  abbrev pub Spares : {A : Type 0} → Exec A → Type 0
  Spares m = Traces (Only (Quiet k)) m

  abbrev pub spares : IsTrace (Only (Quiet k))
  spares = Only-IsTrace (Quiet k)

  pub kept : {A : Type 0} (m : Exec A) (h : Log) → Spares m → counter_at k (m h).1 ≡ counter_at k h
  kept m h s = let (es, e, q) = s.at h in ap (counter_at k) e ∙ counter_at-quiet k es h q

  pub providers_spare : AllowsProviders (Only (Quiet k))
  providers_spare = record {
    embeddings = λ model texts d b. ((λ b o. refl), tt);
    chats = λ model ms t n kind b. ((λ b o. refl), tt);
    native_chats = λ url model ms t n schema b. ((λ b o. refl), tt);
  }

  module _ (env : Env) where
    Spares-call : (c : Command) → Quiet k c → Spares (call env c)
    Spares-call c q = Traces-call spares env c (λ _. (q, tt))

    Spares-get_by_id : (d : ℤ) → Spares (get_by_id env d)
    unfolding get_by_id
    Spares-get_by_id d = Spares-call (get_document d) (λ b o. refl)

    pub Spares-verify_context : (r : ChatRequest) → Spares (verify_context env r)
    unfolding verify_context
    Spares-verify_context r = Traces-bind spares _ _ (Spares-get_by_id r.document_id) λ found.
        Traces-option spares found _ _ (Traces-raise spares _) λ document.
          Traces-if spares (eqb_ℤ document.user_id r.user_id) _ _ (Traces-pure spares tt)
            (Traces-raise spares _)

    pub Spares-enforce_rate_limit :
        (r : ChatRequest) (scope : Text)
        → Spares (enforce_rate_limit env scope r.user_id env.settings.chat_rate)
    unfolding enforce_rate_limit consume
    Spares-enforce_rate_limit r scope =
        Traces-bind spares _ _
          (Traces-bind spares _ _ (Spares-call time (λ b o. refl))
            λ now. Spares-call (eval_token_bucket _ _ _ _) (λ b o. refl))
          λ result.
            Traces-if spares result.allowed _ _ (Traces-pure spares tt) (Traces-raise spares _)

    pub Spares-within_limits : (r : ChatRequest) → Spares (within_limits env r)
    unfolding within_limits get_token_usage get_messages
    Spares-within_limits r =
        Traces-bind spares _ _
          (Traces-bind spares _ _ (Spares-call (get _) (λ b o. refl)) λ value. Traces-lift spares _)
          λ used.
            Traces-bind spares _ _
              (Traces-if spares _ _ _ (Traces-raise spares _) (Traces-pure spares tt))
              λ _.
                Traces-bind spares _ _
                  (Traces-bind spares _ _ (Spares-call (lrange _) (λ b o. refl))
                    λ raws. Traces-lift spares _)
                  λ history.
                    Traces-if spares _ _ _ (Traces-raise spares _) (Traces-pure spares history)

    pub Spares-append_message : (s : Text) (m : ChatMessage) → Spares (append_message env s m)
    unfolding append_message
    Spares-append_message s m =
        Traces-bind spares _ _ (Spares-call (rpush _ _) (λ b o. refl))
          λ _. Spares-call (expire _ _) (λ b o. refl)

    module _ (stops : StopsUnlessRetried env) where
      pub Spares-build_system_prompt : (d u : ℤ) (q : Text) → Spares (build_system_prompt env d u q)
      unfolding build_system_prompt build_retrieval_section get_latest_by_document
      Spares-build_system_prompt d u q = Traces-bind spares _ _ (Spares-get_by_id d) λ found.
          Traces-bind spares _ _ (Traces-or_raise spares found _) λ document.
            Traces-bind spares _ _ (Spares-call (latest_job d) (λ b o. refl)) λ job.
              Traces-bind spares _ _ (Traces-lift spares _) λ analysis.
                Traces-bind spares _ _
                  (Traces-try spares _ _
                    (Traces-bind spares _ _ (Traces-embed spares providers_spare env stops (q ∷ []))
                      λ found. Traces-first found _ _ (Traces-pure spares []) λ e es.
                        Traces-bind spares _ _ (Spares-call (my_blog_context _ _ _ _) (λ b o. refl))
                          λ own.
                            Traces-bind spares _ _
                              (Spares-call (job_posting_context _ _) (λ b o. refl))
                              λ jobs. Traces-pure spares _)
                    λ _. Traces-pure spares [])
                  λ text. Traces-pure spares _
