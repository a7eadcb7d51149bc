-- ===== src/Admin/Apps.antt =====
-- internal/api/handlers/admin_apps.go: the handlers of /admin/apps, from the decoded body on; `none`
-- is a body that does not decode.
pub mod Rows
unfoldable pub use Rows.*
use telegram_server.Prelude.{
  ℕ, ◌+◌, String, Bool, true, false, not, ◌&&◌, ◌||◌, List, [], ◌∷◌, ◌++◌, Option, none, some,
  Bytes, codes, length, str_eq, leb, ◌==◌, if◌then◌else◌,
}
use telegram_server.Audit.Event.{text, flag}
use telegram_server.Api.Flow.{Response}
use telegram_server.Dispatch.Tables.{Topic}
use telegram_server.Auth.KeyStore.{AppKey}
use telegram_server.Database.{AppRecord, Database, keep, find_record, update_app, holds}
use telegram_server.Admin.Tx.{
  Flow, Tx, ◌>>=◌, ◌>>◌, pure, refuse, guard, receive, conclude, begin, commit, exec, query, each,
  when_some,
}

-- The denial of `validateCapabilityGrant`.
unfoldable pub require_grant : Flow → Option (String × ℕ) → Tx (Unit {0})
unfolding guard
require_grant flow none = guard flow true "" 0
require_grant flow (some (code, status)) = guard flow false code status

-- `SELECT 1 FROM apps ... FOR UPDATE`: a statement that changes no table.
unfoldable pub lock_row : Flow → Tx ℕ
unfolding exec
lock_row flow = exec flow "db_error" 500 (λ db. some (db, 0))

unfoldable pub exists_app : Flow → String → Tx Bool
unfolding query find_record
exists_app flow id =
    query flow "app_not_found" 404
      (λ db. elim (find_record id db.apps) [ none ↦ false | some a ↦ true ])

-- `Create`, behind `flow.received()`.
unfoldable pub create_decoded : Flow → String → Option CreateAppRequest → Tx Response
unfolding guard ◌>>=◌ exec each begin commit conclude refuse require_grant insert_app
    insert_capability
create_decoded flow created_by none = refuse flow "malformed_json" 400
create_decoded flow created_by (some req) = do
  guard flow (not (str_eq req.id "" || str_eq req.name "")) "missing_required_fields" 400
  guard flow (is_app_id (codes req.id)) "invalid_app_id" 400
  guard flow (str_eq req.min_grade "" || is_valid_grade req.min_grade) "invalid_min_grade" 400
  require_grant flow (validate_capability_grant req.capabilities)
  begin flow
  exec flow "app_already_exists" 409 (insert_app created_by req)
  each (λ c. exec flow "db_error" 500 (insert_capability req.id c)) req.capabilities
  commit flow
  conclude flow 201 (("created_app_id", text req.id) ∷ ("created_by", text created_by) ∷ [])
      (("id", text req.id) ∷ [])

unfoldable pub create_app : Flow → String → Option CreateAppRequest → Tx Response
unfolding receive ◌>>=◌ create_decoded
create_app flow created_by body = do receive flow; create_decoded flow created_by body

abbrev pub is_nonempty : List String → Bool
is_nonempty [] = false
is_nonempty (c ∷ cs) = true

abbrev pub valid_patch_grade : Option String → Bool
valid_patch_grade none = true
valid_patch_grade (some g) = is_valid_grade g

abbrev pub caps_changed : PatchAppRequest → Bool
caps_changed req = is_nonempty req.add_capabilities || is_nonempty req.remove_capabilities

-- `capability_set_version = capability_set_version + 1`.
abbrev pub next_version : AppRecord → AppRecord
next_version a = record a { capability_set_version = a.capability_set_version + 1 }

unfoldable pub bump_version : Flow → String → Bool → Tx ℕ
unfolding pure exec set_app
bump_version flow id true = exec flow "db_error" 500 (set_app id next_version)
bump_version flow id false = pure 0

-- `Patch`, behind `flow.received()`.
unfoldable pub patch_decoded : Flow → String → Option PatchAppRequest → Tx Response
unfolding guard ◌>>=◌ exec each begin commit conclude refuse require_grant set_app insert_capability
    delete_capability lock_row exists_app when_some bump_version
patch_decoded flow id none = refuse flow "malformed_json" 400
patch_decoded flow id (some req) = do
  guard flow (valid_patch_grade req.min_grade) "invalid_min_grade" 400
  require_grant flow (validate_capability_grant req.add_capabilities)
  begin flow
  exists ← exists_app flow id
  guard flow exists "app_not_found" 404
  lock_row flow
  when_some req.description
      (λ d. exec flow "db_error" 500 (set_app id (λ a. record a { description = d })))
  when_some req.min_grade
      (λ g. exec flow "db_error" 500 (set_app id (λ a. record a { min_grade = g })))
  when_some req.active (λ b. exec flow "db_error" 500 (set_app id (λ a. record a { active = b })))
  each (λ c. exec flow "db_error" 500 (insert_capability id c)) req.add_capabilities
  each (λ c. exec flow "db_error" 500 (delete_capability id c)) req.remove_capabilities
  bump_version flow id (caps_changed req)
  commit flow
  conclude flow 200 (("patched_app_id", text id) ∷ ("caps_changed", flag (caps_changed req)) ∷ [])
      (("id", text id) ∷ ("updated", flag true) ∷ [])

unfoldable pub patch_app : Flow → String → Option PatchAppRequest → Tx Response
unfolding receive ◌>>=◌ patch_decoded
patch_app flow id body = do receive flow; patch_decoded flow id body

-- `Delete`.
unfoldable pub delete_app : Flow → String → Tx Response
unfolding guard ◌>>=◌ exec begin commit receive conclude set_app lock_row
delete_app flow id = do
  receive flow
  begin flow
  lock_row flow
  n ← exec flow "db_error" 500 (set_app id (λ a. next_version (record a { active = false })))
  guard flow (not (n == 0)) "app_not_found" 404
  commit flow
  conclude flow 200 (("deleted_app_id", text id) ∷ [])
      (("id", text id) ∷ ("active", flag false) ∷ [])

-- `Purge`.
unfoldable pub purge_app : Flow → String → Tx Response
unfolding guard ◌>>=◌ exec begin commit receive conclude delete_app_row lock_row
purge_app flow id = do
  receive flow
  begin flow
  lock_row flow
  n ← exec flow "db_error" 500 (delete_app_row id)
  guard flow (not (n == 0)) "app_not_found" 404
  commit flow
  conclude flow 200 (("purged_app_id", text id) ∷ []) (("id", text id) ∷ ("purged", flag true) ∷ [])
