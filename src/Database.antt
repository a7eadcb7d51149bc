-- ===== src/Database.antt =====
-- The tables that the admin API and the bot write (migrations/0001_initial.up.sql with the columns
-- that later migrations add), and what the resolvers and the key store read of them. Rows stand in
-- the order in which queries return them.
use telegram_server.Prelude.{
  ℕ, String, Bool, false, ◌&&◌, List, [], ◌∷◌, map, Option, none, some, codes, str_eq, ◌||◌, ◌+◌,
  ◌==◌, if◌then◌else◌,
}
use telegram_server.Registry.{UserRow, UserTable}
use telegram_server.Dispatch.Tables.{User, App, Topic, Tables}
use telegram_server.Auth.KeyStore.{AppKey, AppRow, Store}

pub record AppRecord : Type 0 where
  pub id : String
  pub name : String
  pub description : String
  pub min_grade : String
  pub active : Bool
  pub capability_set_version : ℕ
  pub created_by : String

pub record PendingToken : Type 0 where
  pub token : String
  pub user_id : ℕ
  pub expires_at : ℕ

pub record Database : Type 0 where
  pub users : UserTable
  pub apps : List AppRecord
  pub app_capabilities : List (String × String)
  pub app_keys : List AppKey
  pub user_subscriptions : List (ℕ × String)
  pub user_topics : List Topic
  pub pending_supergroup_tokens : List PendingToken

-- The rows that a condition keeps: what a DELETE leaves.
unfoldable pub keep {ℓ} : {A : Type ℓ} → (A → Bool) → List A → List A
keep p [] = []
keep p (x ∷ xs) = let rest = keep p xs in if p x then x ∷ rest else rest

unfoldable pub count {ℓ} : {A : Type ℓ} → (A → Bool) → List A → ℕ
count p [] = 0
count p (x ∷ xs) = (if p x then 1 else 0) + count p xs

unfoldable pub find_record : String → List AppRecord → Option AppRecord
find_record id [] = none
find_record id (a ∷ more) =
    let rest = find_record id more in if str_eq a.id id then some a else rest

-- `UPDATE apps SET ... WHERE id = ...`.
unfoldable pub update_app : String → (AppRecord → AppRecord) → List AppRecord → List AppRecord
update_app id set [] = []
update_app id set (a ∷ more) =
    let rest = update_app id set more in if str_eq a.id id then set a ∷ rest else a ∷ rest

-- Whether an app holds a capability.
unfoldable pub holds : String → String → List (String × String) → Bool
holds app c [] = false
holds app c ((a, d) ∷ more) = (str_eq a app && str_eq d c) || holds app c more

unfoldable pub subscribed : ℕ → String → List (ℕ × String) → Bool
subscribed user app [] = false
subscribed user app ((u, a) ∷ more) = (u == user && str_eq a app) || subscribed user app more

-- A user as the resolvers see it.
abbrev pub user_view : UserRow → User
user_view u = record {
  id = u.id;
  telegram_id = u.telegram_id;
  grade = codes u.grade;
  status = u.status;
  personal_chat_id = u.personal_supergroup_chat_id;
  bot_is_admin = u.bot_is_admin_in_supergroup;
}

abbrev pub app_view : AppRecord → App
app_view a = record { id = a.id; min_grade = codes a.min_grade; active = a.active }

abbrev pub tables_of : Database → Tables
tables_of db = record {
  users = map user_view db.users.users;
  apps = map app_view db.apps;
  subscriptions = db.user_subscriptions;
  topics = db.user_topics;
}

abbrev pub key_app_view : AppRecord → AppRow
key_app_view a = record {
  id = a.id;
  active = a.active;
  capability_set_version = a.capability_set_version;
}

abbrev pub store_of : Database → Store
store_of db = record {
  app_keys = db.app_keys;
  apps = map key_app_view db.apps;
  app_capabilities = db.app_capabilities;
}
