-- ===== src/Adminui/Keys/Pages.antt =====
-- internal/adminui/keys.go: the handlers that issue, revoke and relabel keys, up to the page that they
-- render. The secret of a new key and its hash are drawn and computed by libraries, and `none` is
-- their failure; pages are kept by what they say.
use telegram_server.Prelude.{
  ℕ, suc, String, Bool, true, not, ◌&&◌, [], ◌∷◌, ◌++◌, Option, none, some, Bytes, codes, length,
  leb, str_eq, if◌then◌else◌,
}
use telegram_server.Audit.Event.{Event, Stage, text, key_issued, key_revoked}
use telegram_server.Api.Flow.{Env, World, write_audit_safe}
use telegram_server.Bot.Text.{trim}
use telegram_server.Database.{Database}
use telegram_server.Admin.Apps.{is_slug, is_app_id}
use telegram_server.Adminui.Keys.{
  KeyResult, succeeded, app_not_found, app_inactive, prefix_taken, key_not_found, issue_key,
  revoke_key, update_key_label,
}

-- What the operator sees. `internal_error` is the answer with status 500.
pub data Page : Type 0 where
  invalid_app_id invalid_prefix label_too_long no_database internal_error unconfirmed : Page
  no_such_app inactive_app taken_prefix issue_failed no_such_key change_failed : Page
  revoked_page relabelled_page : Page
  issued_page : Bytes → Page

unfoldable pub all_slug : Bytes → Bool
unfolding is_slug
all_slug [] = true
all_slug (c ∷ s) = is_slug c && all_slug s

-- `keyPrefixPattern`.
unfoldable pub is_key_prefix : Bytes → Bool
unfolding all_slug
is_key_prefix s = leb 4 (length s) && leb (length s) 16 && all_slug s

-- `utf8.RuneCountInString`.
unfoldable pub rune_count : String → ℕ
rune_count String.[] = 0
rune_count (String.◌∷◌ c s) = suc (rune_count s)

-- `issueErrorMessage`.
unfoldable pub issue_error : KeyResult → Page
issue_error app_not_found = no_such_app
issue_error app_inactive = inactive_app
issue_error prefix_taken = taken_prefix
issue_error other = issue_failed

-- `writeKeyAudit`, of the base event that carries the trace id.
unfoldable pub write_key_audit : Env → Event → Stage → String → String → World → World
unfolding write_audit_safe
write_key_audit env base stage app prefix w =
    (write_audit_safe env w
      (record base { stage = stage; app_id = app; details = ("key_prefix", text prefix) ∷ [] })).0

-- The plaintext of a new key.
unfoldable pub token_text : Bytes → Bytes → Bytes
token_text prefix secret = codes "tg_" ++ prefix ++ b'_' ∷ secret

-- The checks of the form; `none` passes.
unfoldable pub check_issue : Bool → String → String → String → Option Page
unfolding is_app_id is_key_prefix rune_count
check_issue has_db app prefix label =
    if not (is_app_id (codes app))
    then some invalid_app_id
    else if not (is_key_prefix (codes prefix))
    then some invalid_prefix
    else if not (leb (rune_count label) 100)
    then some label_too_long
    else if not has_db
    then some no_database
    else none

-- What follows `IssueKey`.
unfoldable pub show_issued :
    Env → Event → String → String → Bytes → World → Database × KeyResult → Database × World × Page
unfolding write_key_audit issue_error
show_issued env base app prefix plaintext w (db, succeeded) =
    (db, write_key_audit env base key_issued app prefix w, issued_page plaintext)
show_issued env base app prefix plaintext w (db, other) = (db, w, issue_error other)

-- The hash of the plaintext, and the key's row.
unfoldable pub store_issued :
    Env
    → (ℕ → Bool)
    → Event
    → String
    → String
    → String
    → Bytes
    → Database
    → World
    → Option Bytes
    → Database × World × Page
unfolding show_issued issue_key
store_issued env fault base app prefix label plaintext db w none = (db, w, internal_error)
store_issued env fault base app prefix label plaintext db w (some hash) =
    show_issued env base app prefix plaintext w (issue_key fault app (codes prefix) hash label db)

unfoldable pub draw_issued :
    Env
    → (ℕ → Bool)
    → Event
    → (Bytes → Option Bytes)
    → String
    → String
    → String
    → Database
    → World
    → Option Bytes
    → Database × World × Page
unfolding store_issued token_text
draw_issued env fault base hash_api_key app prefix label db w none = (db, w, internal_error)
draw_issued env fault base hash_api_key app prefix label db w (some secret) =
    let plaintext = token_text (codes prefix) secret in
    store_issued env fault base app prefix label plaintext db w (hash_api_key plaintext)

unfoldable pub issue_checked :
    Env
    → (ℕ → Bool)
    → Event
    → (Bytes → Option Bytes)
    → Option Bytes
    → String
    → String
    → String
    → Database
    → World
    → Option Page
    → Database × World × Page
unfolding draw_issued
issue_checked env fault base hash_api_key secret app prefix label db w (some page) = (db, w, page)
issue_checked env fault base hash_api_key secret app prefix label db w none =
    draw_issued env fault base hash_api_key app prefix label db w secret

-- `handleKeyIssue`, given whether the store has a database.
unfoldable pub handle_key_issue :
    Env
    → (ℕ → Bool)
    → Event
    → (Bytes → Option Bytes)
    → Option Bytes
    → Bool
    → String
    → String
    → String
    → Database
    → World
    → Database × World × Page
unfolding issue_checked check_issue trim
handle_key_issue env fault base hash_api_key secret has_db app prefix label db w =
    issue_checked env fault base hash_api_key secret (trim app) (trim prefix) (trim label) db w
      (check_issue has_db (trim app) (trim prefix) (trim label))

-- The checks of the path's parts; `none` passes.
unfoldable pub check_path : String → String → Option Page
unfolding is_app_id is_key_prefix
check_path app prefix =
    if not (is_app_id (codes app))
    then some invalid_app_id
    else if not (is_key_prefix (codes prefix))
    then some invalid_prefix
    else none

unfoldable pub show_revoked :
    Env → Event → String → String → World → Database × KeyResult → Database × World × Page
unfolding write_key_audit
show_revoked env base app prefix w (db, succeeded) =
    (db, write_key_audit env base key_revoked app prefix w, revoked_page)
show_revoked env base app prefix w (db, key_not_found) = (db, w, no_such_key)
show_revoked env base app prefix w (db, other) = (db, w, change_failed)

-- `handleKeyRevoke`, of the form's field `confirm`.
unfoldable pub handle_key_revoke :
    Env
    → (ℕ → Bool)
    → Event
    → Bool
    → String
    → String
    → String
    → Database
    → World
    → Database × World × Page
unfolding check_path show_revoked revoke_key
handle_key_revoke env fault base has_db app prefix confirm db w = elim (check_path app prefix) [
  | some page ↦ (db, w, page)
  | none ↦
      if not (str_eq confirm "1")
      then (db, w, unconfirmed)
      else if not has_db
      then (db, w, no_database)
      else show_revoked env base app prefix w (revoke_key fault app (codes prefix) db)
]

unfoldable pub show_relabelled : World → Database × KeyResult → Database × World × Page
show_relabelled w (db, succeeded) = (db, w, relabelled_page)
show_relabelled w (db, key_not_found) = (db, w, no_such_key)
show_relabelled w (db, other) = (db, w, change_failed)

-- `handleKeyLabel`; the form's label is trimmed.
unfoldable pub handle_key_label :
    (ℕ → Bool) → Bool → String → String → String → Database → World → Database × World × Page
unfolding check_path show_relabelled update_key_label trim rune_count
handle_key_label fault has_db app prefix label db w = elim (check_path app prefix) [
  | some page ↦ (db, w, page)
  | none ↦
      if not (leb (rune_count (trim label)) 100)
      then (db, w, label_too_long)
      else if not has_db
      then (db, w, no_database)
      else show_relabelled w (update_key_label fault app (codes prefix) (trim label) db)
]
