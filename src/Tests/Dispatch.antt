-- ===== src/Tests/Dispatch.antt =====
-- The resolvers on a small set of users (internal/dispatch/strategy).
use telegram_server.Prelude.{
  ℕ, ◌+◌, ◌≡◌, refl, String, true, ◌&&◌, [], ◌∷◌, some, Bytes, codes, All, if◌then◌else◌,
}
use telegram_server.Dispatch.Grade.{normalize_grade}
use telegram_server.Dispatch.Collect.{ResolveResult, contains}
use telegram_server.Dispatch.Collect.Split.{Split}
use telegram_server.Dispatch.Collect.Laws.{times}
use telegram_server.Dispatch.Tables.{User, Tables, find_app, app_exists}
use telegram_server.Dispatch.Resolvers.{
  Request, found, sound, resolve_direct, resolve_topic, broadcast_strategy,
}
use telegram_server.Dispatch.Resolvers.Direct.{eligible, LeadsTo, resolve_direct_recipients}
use telegram_server.Dispatch.Resolvers.Topic.{
  IsActive, IsSubscriber, Needs, TopicReached, TopicMissed, BroadcastReached, BroadcastMissed,
  resolve_topic_recipients, broadcast_recipients,
}

abbrev user : ℕ → String → User
user id status = record {
  id = id;
  telegram_id = id + 1000;
  grade = codes "user";
  status = status;
  personal_chat_id = some (id + 100);
  bot_is_admin = true;
}

abbrev tables : Tables
tables = record {
  users = user 1 "active" ∷ user 2 "deactivated" ∷ [];
  apps = record { id = "app"; min_grade = codes "user"; active = true } ∷ [];
  subscriptions = (1, "app") ∷ (2, "app") ∷ [];
  topics = record { user_id = 1; app_id = "app"; telegram_topic_id = 7 } ∷ [];
}

app_active : app_exists tables "app" ≡ true
unfolding app_exists find_app
app_active = refl

resolve_direct_recipients_example :
    (r : ResolveResult) × (resolve_direct tables sound (1 ∷ 2 ∷ 1 ∷ []) "app" ≡ found r)
    × ((id : ℕ)
        → times id r.recipients
          ≡ (if contains (1 ∷ 2 ∷ 1 ∷ []) id && eligible tables "app" id then 1 else 0))
    × All (LeadsTo tables "app") r.recipients
resolve_direct_recipients_example =
    resolve_direct_recipients tables "app" (1 ∷ 2 ∷ 1 ∷ []) app_active

resolve_topic_recipients_example :
    (r : ResolveResult) × (grade : Bytes) × (resolve_topic tables sound "app" (codes "dev")
      ≡ found r)
    × Needs tables "app" (codes "dev") grade
    × Split
        (IsSubscriber tables "app")
        (TopicReached tables "app" grade)
        (TopicMissed tables "app" grade)
        tables.users
        r.recipients
        r.skipped
resolve_topic_recipients_example = resolve_topic_recipients tables "app" (codes "dev") app_active

abbrev request : Request
request = record {
  app_id = "";
  recipients = [];
  min_grade = codes "user";
  envelope = record { text = "hello"; schema_version = 1 };
}

broadcast_recipients_example :
    (r : ResolveResult) × (broadcast_strategy tables sound request ≡ found r)
    × Split IsActive
        (BroadcastReached (normalize_grade (codes "user")))
        (BroadcastMissed (normalize_grade (codes "user")))
        tables.users
        r.recipients
        r.skipped
broadcast_recipients_example = broadcast_recipients tables request
