-- ===== src/Admin/Members.antt =====
-- internal/api/handlers/admin_users.go and admin_subscriptions.go: the handlers of users' grades
-- and subscriptions. A telegram id that does not parse is `none`.
use telegram_server.Prelude.{
  ℕ, String, Bool, true, false, not, ◌&&◌, [], ◌∷◌, ◌++◌, Option, none, some, str_eq, ◌==◌,
  if◌then◌else◌,
}
use telegram_server.Audit.Event.{num, text, flag}
use telegram_server.Registry.{UserRow, update, affected, get_by_telegram_id}
use telegram_server.Database.{Database, AppRecord, keep, count, find_record, subscribed}
use telegram_server.Api.Flow.{Response}
use telegram_server.Admin.Tx.{
  Flow, Tx, ◌>>=◌, ◌>>◌, refuse, guard, receive, conclude, pool_exec, pool_query,
}
use telegram_server.Admin.Apps.{is_valid_grade}

-- `UPDATE users SET grade ... WHERE telegram_id ...`.
unfoldable pub set_grade : ℕ → String → Database → Option (Database × ℕ)
unfolding update affected
set_grade telegram_id grade db = some (
  record db {
    users = record db.users {
      users =
          update (λ u. u.telegram_id == telegram_id) (λ u. record u { grade = grade })
            db.users.users;
    };
  },
  affected (λ u. u.telegram_id == telegram_id) db.users.users,
)

-- `Patch` of the users, behind `flow.received()`; the argument is the body's grade.
unfoldable pub patch_decoded_user : Flow → ℕ → Option String → Tx Response
unfolding guard ◌>>=◌ refuse pool_exec conclude set_grade
patch_decoded_user flow id none = refuse flow "malformed_json" 400
patch_decoded_user flow id (some grade) = do
  guard flow (is_valid_grade grade) "invalid_grade" 400
  n ← pool_exec flow "db_error" 500 (set_grade id grade)
  guard flow (not (n == 0)) "user_not_found" 404
  conclude flow 200 (("telegram_id", num id) ∷ ("grade", text grade) ∷ [])
      (("telegram_id", num id) ∷ ("grade", text grade) ∷ [])

unfoldable pub patch_user : Flow → Option ℕ → Option String → Tx Response
unfolding ◌>>=◌ refuse receive patch_decoded_user
patch_user flow none body = refuse flow "invalid_telegram_id" 400
patch_user flow (some id) body = do receive flow; patch_decoded_user flow id body

-- `INSERT INTO user_subscriptions ... ON CONFLICT DO NOTHING`.
unfoldable pub insert_subscription : ℕ → String → Database → Option (Database × ℕ)
unfolding subscribed
insert_subscription user app db =
    if subscribed user app db.user_subscriptions
    then some (db, 0)
    else some (record db { user_subscriptions = db.user_subscriptions ++ (user, app) ∷ [] }, 1)

-- `DELETE FROM user_subscriptions` by the user's telegram id.
unfoldable pub delete_subscription : ℕ → String → Database → Option (Database × ℕ)
unfolding keep count get_by_telegram_id
delete_subscription telegram_id app db = elim (get_by_telegram_id telegram_id db.users) [
  | none ↦ some (db, 0)
  | some u ↦
      let matches : ℕ × String → Bool = λ (p : ℕ × String). (p.0 == u.id) && str_eq p.1 app in
      some (
        record db { user_subscriptions = keep (λ p. not (matches p)) db.user_subscriptions },
        count matches db.user_subscriptions,
      )
]

-- The query for the app's row, as far as its answer is denied.
abbrev pub require_active : Flow → Option AppRecord → Tx (Unit {0})
require_active flow none = guard flow false "app_not_found" 404
require_active flow (some a) = guard flow a.active "app_inactive" 400

-- What follows the query for the user.
abbrev pub subscribe_user : Flow → String → Option UserRow → Tx ℕ
subscribe_user flow app none = refuse flow "user_not_found" 404
subscribe_user flow app (some u) = pool_exec flow "db_error" 500 (insert_subscription u.id app)

-- `Subscribe`.
unfoldable pub subscribe : Flow → Option ℕ → String → Tx Response
unfolding guard ◌>>=◌ refuse receive conclude pool_exec pool_query insert_subscription find_record
    get_by_telegram_id
subscribe flow none app = refuse flow "invalid_telegram_id" 400
subscribe flow (some id) app = do
  receive flow
  row ← pool_query flow "db_error" 500 (λ db. find_record app db.apps)
  require_active flow row
  user ← pool_query flow "user_not_found" 404 (λ db. get_by_telegram_id id db.users)
  subscribe_user flow app user
  conclude flow 200 (("telegram_id", num id) ∷ ("app_id", text app) ∷ [])
      (("telegram_id", num id) ∷ ("app_id", text app) ∷ ("subscribed", flag true) ∷ [])

-- `Unsubscribe`.
unfoldable pub unsubscribe : Flow → Option ℕ → String → Tx Response
unfolding guard ◌>>=◌ refuse receive conclude pool_exec delete_subscription
unsubscribe flow none app = refuse flow "invalid_telegram_id" 400
unsubscribe flow (some id) app = do
  receive flow
  n ← pool_exec flow "db_error" 500 (delete_subscription id app)
  guard flow (not (n == 0)) "subscription_not_found" 404
  conclude flow 200 (("telegram_id", num id) ∷ ("app_id", text app) ∷ [])
      (("telegram_id", num id) ∷ ("app_id", text app) ∷ ("subscribed", flag false) ∷ [])
