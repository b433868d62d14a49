-- ===== src/Service/AnalysisService/Bare.antt =====
-- What `analyze` calls: it acknowledges no message and commits nothing, which is left to its caller.
use ject6_4th_ai_analyzer.Base.{Bool, ◌||◌, ◌⊎◌, inl, inr, none, Text, codes, lower, ◌==◌, text_eq}
use ject6_4th_ai_analyzer.Base.Int.{ℤ}
use ject6_4th_ai_analyzer.Domain.Schemas.{AnalysisRequest}
use ject6_4th_ai_analyzer.Domain.Models.{Document}
use ject6_4th_ai_analyzer.Core.Effects.{
  Env, Exec, Command, call, ack, avg_embedding, my_blog_context, ext_blog_context,
  job_posting_context, assign_job, time, eval_token_bucket, get_document, insert_job, refresh_job,
}
use ject6_4th_ai_analyzer.Core.Effects.Issues.{
  IsTrace, Traces, Only, Only-IsTrace, Traces-pure, Traces-raise, Traces-or_raise, Traces-if,
  Traces-option, Traces-try, Traces-bind, Traces-call,
}
use ject6_4th_ai_analyzer.Core.Session.Lost.{IsCommit}
use ject6_4th_ai_analyzer.Core.Consume.{consume, enforce_rate_limit}
use ject6_4th_ai_analyzer.Client.Llm.Retries.{StopsUnlessRetried}
use ject6_4th_ai_analyzer.Client.Llm.Asks.{AllowsProviders, Traces-chat}
use ject6_4th_ai_analyzer.Repository.Documents.{get_by_id}
use ject6_4th_ai_analyzer.Repository.AnalysisJobs.{create_job, update_status}
use ject6_4th_ai_analyzer.Service.AnalysisService.{
  mode_or_post, build_rag_context, run_llm_analysis, find_result, run_job, analyze,
}

abbrev pub IsAck : Command → Type 0
IsAck ack = Unit
IsAck _ = ⊥

abbrev pub Touches : Command → Type 0
Touches c = IsAck c ⊎ IsCommit c

neither : ⊥ ⊎ ⊥ → ⊥
neither (inl x) = x
neither (inr x) = x

abbrev pub Bare : {A : Type 0} → Exec A → Type 0
Bare m = Traces (Only (λ c. Touches c → ⊥)) m

abbrev bare : IsTrace (Only (λ c. Touches c → ⊥))
bare = Only-IsTrace (λ c. Touches c → ⊥)

providers_bare : AllowsProviders (Only (λ c. Touches c → ⊥))
providers_bare = record {
  embeddings = λ model texts d b. (neither, tt);
  chats = λ model ms t n kind b. (neither, tt);
  native_chats = λ url model ms t n schema b. (neither, tt);
}

module _ (env : Env) where
  Bare-call : (c : Command) → (Touches c → ⊥) → Bare (call env c)
  Bare-call c p = Traces-call bare env c (λ _. (p, tt))

  Bare-build_rag_context : (d u : ℤ) → Bare (build_rag_context env d u)
  unfolding build_rag_context
  Bare-build_rag_context d u =
      Traces-try bare _ _
        (Traces-bind bare _ _ (Bare-call (avg_embedding d) neither) λ avg.
          Traces-option bare avg _ _ (Traces-pure bare none) λ emb.
            Traces-bind bare _ _ (Bare-call (my_blog_context u emb d 3) neither) λ blogs.
              Traces-bind bare _ _ (Bare-call (ext_blog_context emb 3) neither) λ exts.
                Traces-bind bare _ _ (Bare-call (job_posting_context emb 3) neither)
                  λ jobs. Traces-pure bare _)
        λ _. Traces-pure bare none

  Bare-enforce_rate_limit :
      (r : AnalysisRequest)
      → Bare (enforce_rate_limit env (codes "analysis") r.user_id env.settings.analysis_rate)
  unfolding enforce_rate_limit consume
  Bare-enforce_rate_limit r =
      Traces-bind bare _ _
        (Traces-bind bare _ _ (Bare-call time neither)
          λ now. Bare-call (eval_token_bucket _ _ now 1) neither)
        λ result. Traces-if bare result.allowed _ _ (Traces-pure bare tt) (Traces-raise bare _)

  module _ (stops : StopsUnlessRetried env) where
    Bare-find_result : (d : Document) (u : ℤ) (mode : Text) → Bare (find_result env d u mode)
    unfolding find_result run_llm_analysis
    Bare-find_result d u mode =
        Traces-if bare (env.settings.demo_mode || (lower env.settings.llm_provider == codes "demo"))
          _ _ (Traces-pure bare _)
          (Traces-bind bare _ _ (Bare-build_rag_context d.id u) λ context.
            Traces-bind bare _ _ (Traces-chat bare providers_bare env stops _ _ _ _)
              λ raw. Traces-or_raise bare (env.analysis_of raw) _)

    pub Bare-run_job :
        (id : ℤ) (r : AnalysisRequest) (d : Document) (mode : Text) → Bare (run_job env id r d mode)
    unfolding run_job update_status
    Bare-run_job id r d mode =
        Traces-try bare _ _
          (Traces-bind bare _ _ (Bare-find_result d r.user_id mode)
            λ result. Bare-call (assign_job id _ _ _) neither)
          λ exc.
            Traces-bind bare _ _ (Bare-call (assign_job id _ _ _) neither)
              λ _. Traces-raise bare exc

    pub Bare-analyze : (r : AnalysisRequest) (is_limited : Bool) → Bare (analyze env r is_limited)
    unfolding analyze get_by_id create_job update_status
    Bare-analyze r is_limited =
        Traces-option bare r.document_id _ _ (Traces-raise bare _) λ document_id.
          Traces-bind bare _ _
            (Traces-if bare is_limited _ _ (Bare-enforce_rate_limit r) (Traces-pure bare tt))
            λ _. Traces-bind bare _ _ (Bare-call (get_document document_id) neither) λ found.
              Traces-bind bare _ _ (Traces-or_raise bare found _) λ document.
                Traces-bind bare _ _ (Bare-call (insert_job _ _) neither) λ id.
                  Traces-bind bare _ _ (Bare-call (assign_job id _ _ _) neither) λ _.
                    Traces-bind bare _ _ (Bare-run_job id r document (mode_or_post r.analysis_mode))
                      λ _. Bare-call (refresh_job id) neither
