-- ===== src/Registry/Topics.antt =====
-- internal/registry/user_topics.go: the statements of `UserTopicStore`. Statements here do not
-- fail. ORDER BY app_id is by the codes of the letters, whatever the database's collation is.
use Prim.Native.Nat.{Ordering}
use Prim.Native.String.{compare}
use telegram_server.Prelude.{
  ℕ, String, Bool, true, false, not, ◌&&◌, List, [], ◌∷◌, ◌++◌, Option, none, some, str_eq, ◌==◌,
  if◌then◌else◌,
}
use telegram_server.Database.{Database, keep}
use telegram_server.Dispatch.Tables.{Topic, find_topic}

abbrev pub precedes : String → String → Bool
precedes a b = elim (compare a b) [ Ordering.gt ↦ false | _ ↦ true ]

unfoldable pub insert_by_app {ℓ} : {A : Type ℓ} → (A → String) → A → List A → List A
insert_by_app app x [] = x ∷ []
insert_by_app app x (y ∷ ys) =
    let later = y ∷ insert_by_app app x ys in if precedes (app x) (app y) then x ∷ y ∷ ys else later

-- `ORDER BY app_id`.
unfoldable pub order_by_app {ℓ} : {A : Type ℓ} → (A → String) → List A → List A
unfolding insert_by_app
order_by_app app [] = []
order_by_app app (x ∷ xs) = insert_by_app app x (order_by_app app xs)

-- `Add`.
unfoldable pub add : ℕ → String → ℕ → Database → Database
unfolding find_topic
add user app topic db = elim (find_topic user app db.user_topics) [
  | some t ↦ db
  | none ↦ record db {
    user_topics =
        db.user_topics ++ record { user_id = user; app_id = app; telegram_topic_id = topic } ∷ [];
  }
]

-- `Remove`.
unfoldable pub remove : ℕ → String → Database → Database
unfolding keep
remove user app db = record db {
  user_topics =
      keep (λ (t : Topic). not ((t.user_id == user) && str_eq t.app_id app)) db.user_topics;
}

-- `GetTopicID`; `none` is `ErrTopicNotFound`.
unfoldable pub get_topic_id : ℕ → String → Database → Option ℕ
unfolding find_topic
get_topic_id user app db = find_topic user app db.user_topics

-- `ListForUser`.
unfoldable pub list_for_user : ℕ → Database → List Topic
unfolding keep order_by_app
list_for_user user db =
    order_by_app (λ (t : Topic). t.app_id) (keep (λ (t : Topic). t.user_id == user) db.user_topics)

-- The join of the user's subscriptions with the topics, where no topic answers.
unfoldable pub missing : ℕ → List Topic → List (ℕ × String) → List String
unfolding find_topic
missing user topics [] = []
missing user topics ((u, app) ∷ more) =
    let rest = missing user topics more in
    if u == user
    then elim (find_topic user app topics) [ none ↦ app ∷ rest | some t ↦ rest ]
    else rest

-- `ListSubscribedAppsWithoutTopic`.
unfoldable pub list_subscribed_apps_without_topic : ℕ → Database → List String
unfolding missing order_by_app
list_subscribed_apps_without_topic user db =
    order_by_app (λ (app : String). app) (missing user db.user_topics db.user_subscriptions)
