-- ===== src/Dispatch/Tables.antt =====
-- The tables that the resolvers read (migrations/0001_initial.up.sql) and the joins of their
-- queries. `users.id` and `apps.id` are primary keys, and so are the pairs of
-- user_subscriptions and user_topics, so a LEFT JOIN on them yields one row for each request. Rows
-- come in the order of the requests: the queries do not ask for an order, and the source relies on
-- this one.
use telegram_server.Prelude.{
  ℕ, String, Bool, false, ◌&&◌, ◌||◌, List, [], ◌∷◌, map, Option, none, some, Bytes, ◌==◌, str_eq,
  if◌then◌else◌,
}

pub record User : Type 0 where
  pub id : ℕ
  pub telegram_id : ℕ
  pub grade : Bytes
  pub status : String
  pub personal_chat_id : Option ℕ
  pub bot_is_admin : Bool

pub record App : Type 0 where
  pub id : String
  pub min_grade : Bytes
  pub active : Bool

pub record Topic : Type 0 where
  pub user_id : ℕ
  pub app_id : String
  pub telegram_topic_id : ℕ

-- A subscription is a user and an app.
pub record Tables : Type 0 where
  pub users : List User
  pub apps : List App
  pub subscriptions : List (ℕ × String)
  pub topics : List Topic

unfoldable pub find_user : ℕ → List User → Option User
find_user id [] = none
find_user id (u ∷ us) = if u.id == id then some u else find_user id us

unfoldable pub find_telegram : ℕ → List User → Option User
find_telegram id [] = none
find_telegram id (u ∷ us) = if u.telegram_id == id then some u else find_telegram id us

unfoldable pub find_app : String → List App → Option App
find_app id [] = none
find_app id (a ∷ as') = if str_eq a.id id then some a else find_app id as'

unfoldable pub is_subscribed : ℕ → String → List (ℕ × String) → Bool
is_subscribed user app [] = false
is_subscribed user app ((u, a) ∷ more) = (u == user && str_eq a app) || is_subscribed user app more

unfoldable pub find_topic : ℕ → String → List Topic → Option ℕ
find_topic user app [] = none
find_topic user app (t ∷ ts) =
    if t.user_id == user && str_eq t.app_id app
    then some t.telegram_topic_id
    else find_topic user app ts

-- `SELECT EXISTS(SELECT 1 FROM apps WHERE id=$1 AND active=true)`.
unfoldable pub app_exists : Tables → String → Bool
unfolding find_app
app_exists t app = elim (find_app app t.apps) [ none ↦ false | some a ↦ a.active ]

pub record DirectRow : Type 0 where
  pub user_id : Option ℕ
  pub status : Option String
  pub personal_chat_id : Option ℕ
  pub bot_is_admin : Option Bool
  pub subscribed : Bool
  pub topic_id : Option ℕ

-- The columns of a request that no user answers are NULL.
unfoldable pub direct_row : Tables → String → Option User → DirectRow
direct_row t app none = record {
  user_id = none;
  status = none;
  personal_chat_id = none;
  bot_is_admin = none;
  subscribed = false;
  topic_id = none;
}
direct_row t app (some u) = record {
  user_id = some u.id;
  status = some u.status;
  personal_chat_id = u.personal_chat_id;
  bot_is_admin = some u.bot_is_admin;
  subscribed = is_subscribed u.id app t.subscriptions;
  topic_id = find_topic u.id app t.topics;
}

unfoldable pub direct_query : Tables → String → List ℕ → List DirectRow
unfolding direct_row find_user
direct_query t app = map (λ id. direct_row t app (find_user id t.users))

pub record DmRow : Type 0 where
  pub requested : ℕ
  pub user_id : Option ℕ
  pub telegram_id : Option ℕ
  pub status : Option String

unfoldable pub dm_row : ℕ → Option User → DmRow
dm_row requested none = record {
  requested = requested;
  user_id = none;
  telegram_id = none;
  status = none;
}
dm_row requested (some u) = record {
  requested = requested;
  user_id = some u.id;
  telegram_id = some u.telegram_id;
  status = some u.status;
}

unfoldable pub dm_query : Tables → List ℕ → List DmRow
unfolding dm_row find_telegram
dm_query t = map (λ id. dm_row id (find_telegram id t.users))

-- A row of the topic and broadcast queries; the latter has no topic.
pub record UserRow : Type 0 where
  pub user_id : ℕ
  pub grade : Bytes
  pub personal_chat_id : Option ℕ
  pub bot_is_admin : Bool
  pub topic_id : Option ℕ

unfoldable pub user_row : Option ℕ → User → UserRow
user_row topic u = record {
  user_id = u.id;
  grade = u.grade;
  personal_chat_id = u.personal_chat_id;
  bot_is_admin = u.bot_is_admin;
  topic_id = topic;
}

-- `WHERE status = 'active' ORDER BY id`, over users listed by id.
unfoldable pub broadcast_query : List User → List UserRow
unfolding user_row
broadcast_query [] = []
broadcast_query (u ∷ us) =
    let rest = broadcast_query us in
    if str_eq u.status "active" then user_row none u ∷ rest else rest

-- The subscriptions to the app joined with the active users, over users listed by id.
unfoldable pub topic_query : Tables → String → List User → List UserRow
unfolding user_row is_subscribed find_topic
topic_query t app [] = []
topic_query t app (u ∷ us) =
    let rest = topic_query t app us in
    if str_eq u.status "active" && is_subscribed u.id app t.subscriptions
    then user_row (find_topic u.id app t.topics) u ∷ rest
    else rest
