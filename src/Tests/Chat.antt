-- ===== src/Tests/Chat.antt =====
-- A history in a Redis that keeps its lists.
use ject6_4th_ai_analyzer.Base.{
  arith, list_beq_iff, ℕ, ◌≡◌, refl, none, some, [], ◌∷◌, Option, Text, codes, eqb, text_eq,
  if◌then◌else◌,
}
use ject6_4th_ai_analyzer.Domain.Enums.{ChatRole, user, assistant, system}
use ject6_4th_ai_analyzer.Domain.Schemas.{ChatMessage}
use ject6_4th_ai_analyzer.Core.Effects.{Env, Log, Command, Reply, Result, ok, call, lrange}
use ject6_4th_ai_analyzer.Repository.Conversations.{get_messages, append_message, clear}
use ject6_4th_ai_analyzer.Repository.Conversations.History.{
  KeepsLists, list_at, append_message-get_messages,
}
use ject6_4th_ai_analyzer.Tests.World.{world, answers}

abbrev listed : Log → (c : Command) → Result (Reply c)
listed h (lrange k) = ok (list_at k h)
listed h c = answers none h c

abbrev role_tag : ChatRole → ℕ
role_tag user = 0
role_tag assistant = 1
role_tag system = 2

abbrev untagged : Text → Option ChatMessage
untagged [] = none
untagged (c ∷ t) =
    if eqb c 0
    then some (record { role = user; content = t })
    else if eqb c 1
    then some (record { role = assistant; content = t })
    else some (record { role = system; content = t })

abbrev chat_world : Env
chat_world = record world {
  answer = listed;
  message_dumps = λ m. role_tag m.role ∷ m.content;
  message_loads = untagged;
}

untagged_tag :
    (r : ChatRole) (t : Text) → untagged (role_tag r ∷ t) ≡ some (record { role = r; content = t })
untagged_tag user t = refl
untagged_tag assistant t = refl
untagged_tag system t = refl

chat_world-KeepsLists : KeepsLists chat_world
chat_world-KeepsLists = record {
  at_lrange = λ h k. refl;
  at_rpush = λ h k v. refl;
  at_expire = λ h k ttl. refl;
  at_delete = λ h ks. refl;
  read_back = λ m. untagged_tag m.role m.content;
}

abbrev hello : ChatMessage
hello = record { role = user; content = codes "hello" }

no_history : (get_messages chat_world (codes "s") []).0 ≡ ok []
unfolding get_messages call
no_history = refl

append_message-get_messages_example :
    ((get_messages chat_world (codes "s") (append_message chat_world (codes "s") hello []).1).0
      ≡ ok (hello ∷ []))
    × ((get_messages chat_world (codes "t") (append_message chat_world (codes "s") hello []).1).0
        ≡ (get_messages chat_world (codes "t") []).0)
    × ((get_messages chat_world (codes "s") (clear chat_world (codes "s") []).1).0 ≡ ok [])
append_message-get_messages_example =
    append_message-get_messages chat_world chat_world-KeepsLists (codes "s") (codes "t") hello [] []
      no_history (λ e. ground (arith, (list_beq_iff (codes "s") (codes "t")).1 e))
