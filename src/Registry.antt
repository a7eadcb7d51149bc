-- ===== src/Registry.antt =====
-- internal/registry/user.go: the statements of `UserStore` on the rows of the users table, which
-- are found by their primary key `id` or by the unique `telegram_id`. Statements here do not fail.
-- Times are numbers, and `none` is NULL.
pub mod Lifecycle
pub mod Supergroups
pub mod Topics
use telegram_server.Prelude.{
  ℕ, suc, ◌+◌, String, Bool, true, false, not, ◌&&◌, ◌||◌, List, [], ◌∷◌, ◌++◌, map, Option, none,
  some, str_eq, ◌==◌, if◌then◌else◌,
}

pub record UserRow : Type 0 where
  pub id : ℕ
  pub telegram_id : ℕ
  pub username : Option String
  pub grade : String
  pub preferred_lang : Option String
  pub agreed_at : Option ℕ
  pub personal_supergroup_chat_id : Option ℕ
  pub personal_supergroup_linked_at : Option ℕ
  pub bot_is_admin_in_supergroup : Bool
  pub status : String
  pub anonymized : Bool
  pub updated_at : ℕ

pub record UserTable : Type 0 where
  pub users : List UserRow
  pub next_id : ℕ

-- `UPDATE users SET ... WHERE ...`, and the rows that it affects.
unfoldable pub update : (UserRow → Bool) → (UserRow → UserRow) → List UserRow → List UserRow
update where_clause set [] = []
update where_clause set (u ∷ us) =
    let rest = update where_clause set us in if where_clause u then set u ∷ rest else u ∷ rest

unfoldable pub affected : (UserRow → Bool) → List UserRow → ℕ
affected where_clause [] = 0
affected where_clause (u ∷ us) = (if where_clause u then 1 else 0) + affected where_clause us

unfoldable pub find_by : (UserRow → Bool) → List UserRow → Option UserRow
find_by where_clause [] = none
find_by where_clause (u ∷ us) =
    let rest = find_by where_clause us in if where_clause u then some u else rest

-- `NULLIF($2, '')`.
abbrev pub nullif : String → Option String
nullif s = if str_eq s "" then none else some s

abbrev pub coalesce : Option String → Option String → Option String
coalesce none other = other
coalesce (some s) other = some s

abbrev pub new_row : ℕ → ℕ → String → String → ℕ → UserRow
new_row id telegram_id username lang now = record {
  id = id;
  telegram_id = telegram_id;
  username = nullif username;
  grade = "user";
  preferred_lang = nullif lang;
  agreed_at = none;
  personal_supergroup_chat_id = none;
  personal_supergroup_linked_at = none;
  bot_is_admin_in_supergroup = false;
  status = "active";
  anonymized = false;
  updated_at = now;
}

-- `UpsertOnStart`; the insertion uses up an id also where it becomes an update.
unfoldable pub upsert_on_start : ℕ → ℕ → String → String → UserTable → UserTable
unfolding update find_by
upsert_on_start now telegram_id username lang t =
    elim (find_by (λ u. u.telegram_id == telegram_id) t.users) [
      | none ↦ record {
        users = t.users ++ new_row t.next_id telegram_id username lang now ∷ [];
        next_id = suc t.next_id;
      }
      | some u ↦ record {
        next_id = suc t.next_id;
        users =
            update (λ v. v.telegram_id == telegram_id)
              (λ v. record v { username = coalesce (nullif username) v.username; updated_at = now })
              t.users;
      }
    ]

-- `GetByTelegramID`; `none` is `ErrUserNotFound`.
unfoldable pub get_by_telegram_id : ℕ → UserTable → Option UserRow
unfolding find_by
get_by_telegram_id telegram_id t = find_by (λ u. u.telegram_id == telegram_id) t.users

abbrev pub unagreed : ℕ → UserRow → Bool
unagreed id u = (u.id == id) && elim u.agreed_at [ none ↦ true | some at ↦ false ]

-- `MarkAgreed`, with whether it set the time.
unfoldable pub mark_agreed : ℕ → ℕ → UserTable → UserTable × Bool
unfolding update affected
mark_agreed now id t = (
  record t {
    users = update (unagreed id) (λ u. record u { agreed_at = some now; updated_at = now }) t.users;
  },
  affected (unagreed id) t.users == 1,
)

-- `Anonymize`.
unfoldable pub anonymize : ℕ → ℕ → UserTable → UserTable
unfolding update
anonymize now id t = record t {
  users =
      update (λ u. u.id == id)
        (λ u. record u {
          username = none;
          preferred_lang = none;
          personal_supergroup_chat_id = none;
          personal_supergroup_linked_at = none;
          bot_is_admin_in_supergroup = false;
          anonymized = true;
          status = "anonymized";
          updated_at = now;
        })
        t.users;
}

-- `SetStatus`, with whether it accepted the status.
unfoldable pub set_status : ℕ → ℕ → String → UserTable → UserTable × Bool
unfolding update
set_status now id status t =
    if str_eq status "active" || str_eq status "paused"
    then (
      record t {
        users =
            update (λ u. (u.id == id) && not (str_eq u.status "anonymized"))
              (λ u. record u { status = status; updated_at = now }) t.users;
      },
      true,
    )
    else (t, false)
