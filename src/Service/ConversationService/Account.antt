-- ===== src/Service/ConversationService/Account.antt =====
-- app/service/conversation_service.py: what a chat is charged to its session.
use ject6_4th_ai_analyzer.Base.{
  ℕ, ◌+◌, ◌-◌, ◌<◌, ◌≤◌, ◌≡◌, sym, ap, subst, ◌∙◌, false, none, List, [], ◌∷◌, ◌++◌, Text, text_eq,
  arith, leb, Bool-cases, inl, inr, codes,
}
use ject6_4th_ai_analyzer.Base.Int.{ℤ, pos, ◌+ℤ◌, leb_ℤ}
use ject6_4th_ai_analyzer.Domain.Schemas.{ChatMessage, ChatRequest, ChatResponse}
use ject6_4th_ai_analyzer.Domain.Enums.{user, assistant, system}
use ject6_4th_ai_analyzer.Core.Effects.{Env, Exec, Log, ok, ◌>>=◌, >>=-inv, >>=-ok}
use ject6_4th_ai_analyzer.Core.Consume.{enforce_rate_limit}
use ject6_4th_ai_analyzer.Client.Llm.{count_tokens, chat}
use ject6_4th_ai_analyzer.Client.Llm.Retries.{StopsUnlessRetried}
use ject6_4th_ai_analyzer.Client.Llm.Asks.{Traces-chat}
use ject6_4th_ai_analyzer.Repository.Conversations.{token_key, append_message, add_token_usage}
use ject6_4th_ai_analyzer.Service.ConversationService.{
  verify_context, within_limits, build_system_prompt, remaining_tokens, answer_message, chat_with,
  temperature_chat,
}
use ject6_4th_ai_analyzer.Service.ConversationService.Limits.{HasRoom, within_limits_room}
use ject6_4th_ai_analyzer.Repository.Conversations.Counter.{
  count_of, KeepsCounter, ok_inj, session_total, get_token_usage-counter, add_token_usage-counter,
}
use ject6_4th_ai_analyzer.Service.ConversationService.Quiet.{
  Spares, spares, kept, providers_spare, Spares-verify_context, Spares-enforce_rate_limit,
  Spares-within_limits, Spares-append_message, Spares-build_system_prompt,
}

-- A step that returned, and what comes after it.
run_inv :
    {A B : Type 0} (m : Exec A) (f : A → Exec B) (h : Log) {b : B}
    → ((m >>= f) h).0 ≡ ok b
    → (a : A) × ((m h).0 ≡ ok a) × ((m >>= f) h ≡ f a (m h).1)
run_inv m f h e = let (a, q, _) = >>=-inv m f h e in (a, q, >>=-ok m f h q)

below_limit : (limit used n : ℕ) → leb_ℤ (pos limit) (pos used +ℤ pos n) ≡ false → used + n < limit
unfolding ◌+ℤ◌
below_limit limit used n h = ground arith

-- What the answer says of the counter.
pub record Charged (env : Env) (r : ChatRequest) (before after : ℕ) (response : ChatResponse)
    : Type 0 where
  pub used_told : response.tokens_used ≡ pos after
  pub left_told : response.tokens_remaining ≡ pos (env.settings.max_conversation_tokens - after)
  pub is_charged : before + count_tokens env r.message + count_tokens env response.reply ≤ after

remaining_tokens-pos :
    (env : Env) (limit total : ℕ) → remaining_tokens env limit (pos total) ≡ pos (limit - total)
unfolding remaining_tokens
remaining_tokens-pos env limit total = elim (Bool-cases (leb total (limit + 0))) [
  | inl e ↦ ground (arith, e)
  | inr e ↦ ground (arith, e)
]

charged :
    (env : Env) (r : ChatRequest) (before after retrieval : ℕ) (total : ℤ) (reply : Text)
    → total ≡ pos (before + (count_tokens env r.message + count_tokens env reply + retrieval))
    → after ≡ before + (count_tokens env r.message + count_tokens env reply + retrieval)
    → Charged env r before after (record {
      session_id = r.session_id;
      reply = reply;
      tokens_used = total;
      tokens_remaining = remaining_tokens env env.settings.max_conversation_tokens total;
    })
charged env r before after retrieval total reply t a =
    let told : total ≡ pos after = t ∙ ap pos (sym a) in
    record {
      used_told = told;
      left_told =
          ap (remaining_tokens env env.settings.max_conversation_tokens) told
          ∙ remaining_tokens-pos env env.settings.max_conversation_tokens after;
      is_charged = omega arith;
    }

module _ (env : Env) (r : ChatRequest) (stops : StopsUnlessRetried env)
    (w : KeepsCounter env (token_key r.session_id)) where
  abbrev total_at : Log → ℕ
  total_at = session_total r.session_id

  total_kept :
      {A : Type 0} (m : Exec A) (h : Log)
      → Spares (token_key r.session_id) m
      → total_at (m h).1 ≡ total_at h
  total_kept m h p = ap count_of (kept (token_key r.session_id) m h p)

  answer_message-charges :
      (history : List ChatMessage) (h : Log) (response : ChatResponse)
      → (answer_message env r history h).0 ≡ ok response
      → Charged env r (total_at h) (total_at (answer_message env r history h).1) response
  unfolding answer_message
  answer_message-charges history h response e =
      let prompt_of = build_system_prompt env r.document_id r.user_id r.message in
      let (prompt, _, q1) = run_inv prompt_of _ h e in
      let h1 = (prompt_of h).1 in
      let asked : ChatMessage = record { role = user; content = r.message } in
      let chat_of =
        chat env (record { role = system; content = prompt.0 } ∷ (history ++ (asked ∷ [])))
          temperature_chat 800 none in
      let (reply, _, q2) = run_inv chat_of _ h1 (sym (ap (λ o. o.0) q1) ∙ e) in
      let h2 = (chat_of h1).1 in
      let c = count_tokens env r.message + count_tokens env reply + prompt.1 in
      let told : ChatMessage = record { role = assistant; content = reply } in
      let (_, _, q3) =
        run_inv (append_message env r.session_id asked) _ h2 (sym (ap (λ o. o.0) (q1 ∙ q2)) ∙ e) in
      let h3 = (append_message env r.session_id asked h2).1 in
      let (_, _, q4) =
        run_inv (append_message env r.session_id told) _ h3
          (sym (ap (λ o. o.0) (q1 ∙ q2 ∙ q3)) ∙ e) in
      let h4 = (append_message env r.session_id told h3).1 in
      let (total, added, q5) =
        run_inv (add_token_usage env r.session_id c) _ h4
          (sym (ap (λ o. o.0) (q1 ∙ q2 ∙ q3 ∙ q4)) ∙ e) in
      let run = q1 ∙ q2 ∙ q3 ∙ q4 ∙ q5 in
      let (is_total, counts) = add_token_usage-counter env r.session_id w c h4 total added in
      let before : total_at h4 ≡ total_at h =
        total_kept (append_message env r.session_id told) h3 (Spares-append_message _ env _ _)
        ∙ total_kept (append_message env r.session_id asked) h2 (Spares-append_message _ env _ _)
        ∙ total_kept chat_of h1 (Traces-chat (spares _) (providers_spare _) env stops _ _ _ _)
        ∙ total_kept prompt_of h (Spares-build_system_prompt _ env stops _ _ _) in
      subst (λ a. Charged env r (total_at h) (total_at (answer_message env r history h).1) a)
        (ok_inj (sym (ap (λ o. o.0) run) ∙ e))
        (charged env r (total_at h) _ prompt.1 total reply (is_total ∙ ap (λ n. pos (n + c)) before)
          (ap (λ o. total_at o.1) run ∙ counts ∙ ap (λ n. n + c) before))

  had_room :
      (h : Log)
      → HasRoom env r h
      → total_at h + count_tokens env r.message < env.settings.max_conversation_tokens
  had_room h room = below_limit _ _ _ (
      subst
        (λ z.
          leb_ℤ (pos env.settings.max_conversation_tokens) (z +ℤ pos (count_tokens env r.message))
          ≡ false)
        (ok_inj (sym room.used_read ∙ get_token_usage-counter env r.session_id w h))
        room.tokens_left)

  chat_with-charges :
      (h : Log) (response : ChatResponse)
      → (chat_with env r h).0 ≡ ok response
      → (total_at h + count_tokens env r.message < env.settings.max_conversation_tokens)
        × Charged env r (total_at h) (total_at (chat_with env r h).1) response
  unfolding chat_with
  chat_with-charges h response e =
      let limited = enforce_rate_limit env (codes "chat") r.user_id env.settings.chat_rate in
      let (_, _, q1) = run_inv limited _ h e in
      let h1 = (limited h).1 in
      let (_, _, q2) = run_inv (verify_context env r) _ h1 (sym (ap (λ o. o.0) q1) ∙ e) in
      let h2 = (verify_context env r h1).1 in
      let (history, read, q3) =
        run_inv (within_limits env r) _ h2 (sym (ap (λ o. o.0) (q1 ∙ q2)) ∙ e) in
      let h3 = (within_limits env r h2).1 in
      let run = q1 ∙ q2 ∙ q3 in
      let to_h2 : total_at h2 ≡ total_at h =
        total_kept (verify_context env r) h1 (Spares-verify_context _ env r)
        ∙ total_kept limited h (Spares-enforce_rate_limit _ env r _) in
      let to_h3 : total_at h3 ≡ total_at h =
        total_kept (within_limits env r) h2 (Spares-within_limits _ env r) ∙ to_h2 in
      let charges = answer_message-charges history h3 response (sym (ap (λ o. o.0) run) ∙ e) in
      (
        subst (λ n. n + count_tokens env r.message < env.settings.max_conversation_tokens) to_h2
            (had_room h2 (within_limits_room env r h2 history read)),
        subst (λ l. Charged env r (total_at h) (total_at l) response) (sym (ap (λ o. o.1) run))
            (subst (λ n. Charged env r n (total_at (answer_message env r history h3).1) response)
              to_h3 charges),
      )

-- A chat that returns is charged to its session. What the session had used and the tokens of the message
-- were less than the maximum. Afterwards the counter in Redis has grown by the tokens of the message and of
-- the reply at least, the response tells what it then says, and what is left of the maximum, which is 0
-- where more is used. Redis keeps the counter, and tenacity makes no second attempt.
pub chat_with_account :
    (env : Env) (r : ChatRequest) (h : Log) (response : ChatResponse)
    → StopsUnlessRetried env
    → KeepsCounter env (token_key r.session_id)
    → (chat_with env r h).0 ≡ ok response
    → (session_total r.session_id h + count_tokens env r.message
        < env.settings.max_conversation_tokens)
      × Charged env r
          (session_total r.session_id h)
          (session_total r.session_id (chat_with env r h).1)
          response
chat_with_account env r h response stops w e = chat_with-charges env r stops w h response e
