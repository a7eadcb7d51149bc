-- ===== src/Admin/Apps/Rows.antt =====
-- The requests of internal/api/handlers/admin_apps.go, their checks, and the statements on the tables.
use telegram_server.Prelude.{
  ℕ, String, Bool, true, false, not, ◌&&◌, ◌||◌, List, [], ◌∷◌, ◌++◌, Option, none, some, Bytes,
  length, str_eq, leb, ◌==◌, if◌then◌else◌,
}
use telegram_server.Dispatch.Tables.{Topic}
use telegram_server.Auth.KeyStore.{AppKey}
use telegram_server.Database.{AppRecord, Database, keep, find_record, update_app, holds}

unfoldable pub is_slug : ℕ → Bool
is_slug c = (leb b'a' c && leb c b'z') || (leb b'0' c && leb c b'9')

unfoldable pub all_id_chars : Bytes → Bool
unfolding is_slug
all_id_chars [] = true
all_id_chars (c ∷ s) = (is_slug c || c == b'_' || c == b'-') && all_id_chars s

-- `appIDRegex`.
unfoldable pub is_app_id : Bytes → Bool
unfolding is_slug all_id_chars
is_app_id [] = false
is_app_id (c ∷ s) = is_slug c && all_id_chars s && leb 2 (length s) && leb (length s) 63

unfoldable pub is_allowed : String → Bool
is_allowed c =
    str_eq c "messages.direct.send"
    || str_eq c "messages.direct.dm"
    || str_eq c "messages.topic.send"
    || str_eq c "messages.broadcast.send"
    || str_eq c "noop.invoke"

unfoldable pub is_forbidden : String → Bool
is_forbidden c =
    str_eq c "apps.register"
    || str_eq c "users.promote"
    || str_eq c "users.deactivate"
    || str_eq c "audit.search"
    || str_eq c "audit.freeze"

-- `validateCapabilityGrant`; `none` is its empty code.
unfoldable pub validate_capability_grant : List String → Option (String × ℕ)
unfolding is_allowed is_forbidden
validate_capability_grant [] = none
validate_capability_grant (c ∷ cs) =
    let rest = validate_capability_grant cs in
    if is_forbidden c
    then some ("forbidden_capability", 403)
    else if not (is_allowed c)
    then some ("unknown_capability", 400)
    else rest

unfoldable pub is_valid_grade : String → Bool
is_valid_grade g = str_eq g "user" || str_eq g "developer" || str_eq g "admin"

pub record CreateAppRequest : Type 0 where
  pub id : String
  pub name : String
  pub description : String
  pub min_grade : String
  pub capabilities : List String

pub record PatchAppRequest : Type 0 where
  pub description : Option String
  pub min_grade : Option String
  pub active : Option Bool
  pub add_capabilities : List String
  pub remove_capabilities : List String

-- `INSERT INTO apps`: an id that is taken violates the primary key.
unfoldable pub insert_app : String → CreateAppRequest → Database → Option (Database × ℕ)
unfolding find_record
insert_app created_by req db = elim (find_record req.id db.apps) [
  | some a ↦ none
  | none ↦ some (
    record db {
      apps =
          db.apps
          ++ record {
            id = req.id;
            name = req.name;
            description = req.description;
            min_grade = if str_eq req.min_grade "" then "user" else req.min_grade;
            active = true;
            capability_set_version = 1;
            created_by = created_by;
          }
            ∷ [];
    },
    1,
  )
]

-- `INSERT INTO app_capabilities ... ON CONFLICT DO NOTHING`.
unfoldable pub insert_capability : String → String → Database → Option (Database × ℕ)
unfolding holds
insert_capability app c db =
    if holds app c db.app_capabilities
    then some (db, 0)
    else some (record db { app_capabilities = db.app_capabilities ++ (app, c) ∷ [] }, 1)

unfoldable pub delete_capability : String → String → Database → Option (Database × ℕ)
unfolding keep
delete_capability app c db = some (
  record db {
    app_capabilities =
        keep (λ (p : String × String). not (str_eq p.0 app && str_eq p.1 c)) db.app_capabilities;
  },
  1,
)

unfoldable pub set_app : String → (AppRecord → AppRecord) → Database → Option (Database × ℕ)
unfolding update_app find_record
set_app id set db = some (
  record db { apps = update_app id set db.apps },
  elim (find_record id db.apps) [ none ↦ 0 | some a ↦ 1 ],
)

-- `DELETE FROM apps`, and the rows that go with it by ON DELETE CASCADE.
unfoldable pub delete_app_row : String → Database → Option (Database × ℕ)
unfolding keep find_record
delete_app_row id db = some (
  record db {
    apps = keep (λ (a : AppRecord). not (str_eq a.id id)) db.apps;
    app_capabilities = keep (λ (p : String × String). not (str_eq p.0 id)) db.app_capabilities;
    app_keys = keep (λ (k : AppKey). not (str_eq k.app_id id)) db.app_keys;
    user_subscriptions = keep (λ (p : ℕ × String). not (str_eq p.1 id)) db.user_subscriptions;
    user_topics = keep (λ (t : Topic). not (str_eq t.app_id id)) db.user_topics;
  },
  elim (find_record id db.apps) [ none ↦ 0 | some a ↦ 1 ],
)
