-- ===== src/Service/ConversationService/Limits.antt =====
-- The budget of a conversation.
use ject6_4th_ai_analyzer.Base.{
  ◌*◌, ◌<◌, ◌≡◌, refl, Bool, true, false, List, codes, arith, length, leb, leb_false→lt,
  if◌then◌else◌,
}
use ject6_4th_ai_analyzer.Base.Int.{ℤ, pos, ◌+ℤ◌, leb_ℤ}
use ject6_4th_ai_analyzer.Domain.Schemas.{ChatMessage, ChatRequest, ChatResponse}
use ject6_4th_ai_analyzer.Core.Exceptions.{Exception}
use ject6_4th_ai_analyzer.Core.Effects.{Env, Exec, Log, ok, pure, raise, ◌>>◌, >>=-inv}
use ject6_4th_ai_analyzer.Client.Llm.{count_tokens}
use ject6_4th_ai_analyzer.Repository.Conversations.{get_messages, get_token_usage}
use ject6_4th_ai_analyzer.Core.Consume.{enforce_rate_limit}
use ject6_4th_ai_analyzer.Service.ConversationService.{verify_context, within_limits, chat_with}

-- A guard that let the run go on was off.
guard_off :
    {A : Type 0} (b : Bool) (e : Exception) (k : Exec A) (h : Log) {a : A}
    → ((if b then raise e else k) h).0 ≡ ok a
    → (b ≡ false) × ((k h).0 ≡ ok a)
guard_off true e k h q = ground arith
guard_off false e k h q = (refl, q)

guard_inv :
    {A : Type 0} (b : Bool) (e : Exception) (k : Exec A) (h : Log) {a : A}
    → (((if b then raise e else pure tt) >> k) h).0 ≡ ok a
    → (b ≡ false) × ((k h).0 ≡ ok a)
guard_inv true e k h q = ground arith
guard_inv false e k h q = (refl, q)

-- What a session had used, and its history, when the limits were read.
pub record HasRoom (env : Env) (r : ChatRequest) (h : Log) : Type 0 where
  pub used : ℤ
  pub used_read : (get_token_usage env r.session_id h).0 ≡ ok used
  pub tokens_left :
      leb_ℤ (pos env.settings.max_conversation_tokens) (used +ℤ pos (count_tokens env r.message))
      ≡ false
  pub history : List ChatMessage
  pub history_read :
      (get_messages env r.session_id (get_token_usage env r.session_id h).1).0 ≡ ok history
  pub turns_left : length history < env.settings.max_turns_per_session * 2

module _ (env : Env) (r : ChatRequest) where
  pub within_limits_room :
      (h : Log) (hist : List ChatMessage) → (within_limits env r h).0 ≡ ok hist → HasRoom env r h
  unfolding within_limits
  within_limits_room h hist e =
      let (used, used_ok, e1) = >>=-inv (get_token_usage env r.session_id) _ h e in
      let h1 = (get_token_usage env r.session_id h).1 in
      let (left, e2) =
        guard_inv
          (leb_ℤ (pos env.settings.max_conversation_tokens)
            (used +ℤ pos (count_tokens env r.message)))
          _ _ h1 e1 in
      let (history, history_ok, e3) = >>=-inv (get_messages env r.session_id) _ h1 e2 in
      let (turns, _) =
        guard_off (leb (env.settings.max_turns_per_session * 2) (length history)) _ (pure history)
          (get_messages env r.session_id h1).1 e3 in
      record {
        used = used;
        used_read = used_ok;
        tokens_left = left;
        history = history;
        history_read = history_ok;
        turns_left = leb_false→lt _ _ turns;
      }

-- An answer is within the limits of the session: where `chat` returns, what the session had used and
-- the tokens of the new message make less than the maximum when they were read, which is right after
-- the rate limit and the owner of the document were checked, and the history then had less than two
-- messages for each turn that is allowed.
pub chat_with_limits :
    (env : Env) (r : ChatRequest) (h : Log) (response : ChatResponse)
    → (chat_with env r h).0 ≡ ok response
    → HasRoom env r
        (verify_context env r
          (enforce_rate_limit env (codes "chat") r.user_id env.settings.chat_rate h).1).1
unfolding chat_with
chat_with_limits env r h response e =
    let (_, _, e1) = >>=-inv (enforce_rate_limit env _ r.user_id _) _ h e in
    let (_, _, e2) =
      >>=-inv (verify_context env r) _ (enforce_rate_limit env _ r.user_id _ h).1 e1 in
    let (hist, room, _) = >>=-inv (within_limits env r) _ _ e2 in
    within_limits_room env r _ hist room
