-- ===== src/Adminui/Keys.antt =====
-- internal/adminui/keystore.go: the key store of the operator's UI, on the tables that the key store
-- of the server reads. Rows stand in the order of their insertion, which is that of `created_at` and
-- `id`. A statement that fails, by its number, gives `failed`.
pub mod Dead
pub mod Revoked
pub mod Issued
pub mod Pages
pub mod Shown
use mathlib.Core.List.{reverse}
use telegram_server.Prelude.{
  ℕ, String, Bool, true, false, not, ◌&&◌, ◌||◌, List, [], ◌∷◌, ◌++◌, Option, none, some, Bytes,
  bytes_eq, str_eq, ◌==◌, if◌then◌else◌,
}
use telegram_server.Auth.KeyStore.{AppKey}
use telegram_server.Database.{AppRecord, Database, keep, count, find_record}

-- What an operation returns; `failed` is an error that its caller does not tell apart.
pub data KeyResult : Type 0 where
  succeeded app_not_found app_inactive prefix_taken key_not_found failed : KeyResult

-- `ListKeys`.
unfoldable pub list_keys : String → List AppKey → List AppKey
unfolding keep
list_keys app keys = reverse (keep (λ (k : AppKey). str_eq app "" || str_eq k.app_id app) keys)

abbrev pub has_prefix : Bytes → AppKey → Bool
has_prefix prefix k = bytes_eq k.key_prefix prefix

-- The unique index on `key_prefix` and the query before the insertion.
unfoldable pub is_taken : Bytes → List AppKey → Bool
unfolding count
is_taken prefix keys = not (count (has_prefix prefix) keys == 0)

abbrev pub require_app : Option AppRecord → KeyResult
require_app none = app_not_found
require_app (some a) = if a.active then succeeded else app_inactive

-- The insertion of `IssueKey`.
unfoldable pub insert_key : String → Bytes → Bytes → String → Database → Database
insert_key app prefix hash label db = record db {
  app_keys =
      db.app_keys
      ++ record {
        app_id = app;
        key_prefix = prefix;
        key_hash = hash;
        label = label;
        revoked = false;
      }
        ∷ [];
}

-- The query for the prefix, the insertion and the commit.
unfoldable pub insert_unless_taken :
    (ℕ → Bool) → String → Bytes → Bytes → String → Database → Database × KeyResult
unfolding is_taken insert_key
insert_unless_taken fault app prefix hash label db =
    if fault 2
    then (db, failed)
    else if is_taken prefix db.app_keys
    then (db, prefix_taken)
    else if fault 3 || fault 4
    then (db, failed)
    else (insert_key app prefix hash label db, succeeded)

-- What follows the query for the app.
unfoldable pub admit :
    (ℕ → Bool) → String → Bytes → Bytes → String → Database → KeyResult → Database × KeyResult
unfolding insert_unless_taken
admit fault app prefix hash label db succeeded = insert_unless_taken fault app prefix hash label db
admit fault app prefix hash label db other = (db, other)

-- `IssueKey`: begin, the two queries, the insertion and the commit are its five statements. The
-- unique index refuses the insertion where the query would: no other transaction comes between.
unfoldable pub issue_key :
    (ℕ → Bool) → String → Bytes → Bytes → String → Database → Database × KeyResult
unfolding find_record admit
issue_key fault app prefix hash label db =
    if fault 0 || fault 1
    then (db, failed)
    else admit fault app prefix hash label db (require_app (find_record app db.apps))

abbrev pub is_live : String → Bytes → AppKey → Bool
is_live app prefix k = bytes_eq k.key_prefix prefix && str_eq k.app_id app && not k.revoked

-- `UPDATE app_keys SET ... WHERE key_prefix = ... AND app_id = ... AND revoked_at IS NULL`.
unfoldable pub update_live : String → Bytes → (AppKey → AppKey) → List AppKey → List AppKey
update_live app prefix set [] = []
update_live app prefix set (k ∷ ks) =
    let rest = update_live app prefix set ks in
    if is_live app prefix k then set k ∷ rest else k ∷ rest

unfoldable pub update_key :
    (ℕ → Bool) → String → Bytes → (AppKey → AppKey) → Database → Database × KeyResult
unfolding update_live count
update_key fault app prefix set db =
    if fault 0
    then (db, failed)
    else if count (is_live app prefix) db.app_keys == 0
    then (db, key_not_found)
    else (record db { app_keys = update_live app prefix set db.app_keys }, succeeded)

abbrev pub revoke : AppKey → AppKey
revoke k = record k { revoked = true }

-- `RevokeKey`.
unfoldable pub revoke_key : (ℕ → Bool) → String → Bytes → Database → Database × KeyResult
unfolding update_key
revoke_key fault app prefix = update_key fault app prefix revoke

abbrev pub relabel : String → AppKey → AppKey
relabel label k = record k { label = label }

-- `UpdateKeyLabel`.
unfoldable pub update_key_label :
    (ℕ → Bool) → String → Bytes → String → Database → Database × KeyResult
unfolding update_key
update_key_label fault app prefix label = update_key fault app prefix (relabel label)

pub data KeyOperation : Type 0 where
  issue : String → Bytes → Bytes → String → KeyOperation
  revoked : String → Bytes → KeyOperation
  relabelled : String → Bytes → String → KeyOperation

unfoldable pub apply : KeyOperation → (ℕ → Bool) → Database → Database
unfolding issue_key revoke_key update_key_label
apply (issue app prefix hash label) fault db = (issue_key fault app prefix hash label db).0
apply (revoked app prefix) fault db = (revoke_key fault app prefix db).0
apply (relabelled app prefix label) fault db = (update_key_label fault app prefix label db).0

-- Operations one after another, each with its own failing statements.
unfoldable pub apply_all : List (KeyOperation × (ℕ → Bool)) → Database → Database
unfolding apply
apply_all [] db = db
apply_all ((o, fault) ∷ more) db = apply_all more (apply o fault db)
