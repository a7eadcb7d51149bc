-- ===== src/Bot/Provisioner.antt =====
-- internal/bot/topic_provisioner.go.
pub mod Missing
pub mod Completes
use telegram_server.Prelude.{ℕ, String, List, [], ◌∷◌, ◌++◌, none, some}
use telegram_server.Database.{Database}
use telegram_server.Registry.Topics.{add, remove, get_topic_id, list_subscribed_apps_without_topic}
use telegram_server.Bot.{
  BotEnv, BotWorld, Answer, call_fails, returned, thread, create_forum_topic, close_forum_topic,
  tell,
}

-- One round of the loop, after `CreateForumTopic`; a topic that is nil or was not created is skipped.
unfoldable pub record_topic : ℕ → String → BotWorld × Answer → BotWorld × List String
unfolding add
record_topic user app (w, call_fails) = (w, [])
record_topic user app (w, returned) = (w, [])
record_topic user app (w, thread id) = (record w { db = add user app id w.db }, app ∷ [])

unfoldable pub create_topics : BotEnv → ℕ → ℕ → List String → BotWorld → BotWorld × List String
unfolding record_topic tell
create_topics env user chat [] w = (w, [])
create_topics env user chat (app ∷ apps) w =
    let step = record_topic user app (tell env (create_forum_topic chat app) w) in
    let rest = create_topics env user chat apps step.0 in (rest.0, step.1 ++ rest.1)

-- `EnsureForSubscribedApps`.
unfoldable pub ensure_for_subscribed_apps : BotEnv → ℕ → ℕ → BotWorld → BotWorld × List String
unfolding create_topics list_subscribed_apps_without_topic
ensure_for_subscribed_apps env user chat w =
    create_topics env user chat (list_subscribed_apps_without_topic user w.db) w

-- The end of `Close`: only a topic that was closed is removed.
unfoldable pub remove_closed : ℕ → String → BotWorld × Answer → BotWorld
unfolding remove
remove_closed user app (w, call_fails) = w
remove_closed user app (w, returned) = record w { db = remove user app w.db }
remove_closed user app (w, thread id) = record w { db = remove user app w.db }

-- `Close`; its callers drop its error.
unfoldable pub close_topic : BotEnv → ℕ → ℕ → String → BotWorld → BotWorld
unfolding remove_closed get_topic_id tell
close_topic env user chat app w = elim (get_topic_id user app w.db) [
  | none ↦ w
  | some id ↦ remove_closed user app (tell env (close_forum_topic chat id) w)
]
