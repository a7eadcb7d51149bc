-- ===== src/Registry/Supergroups.antt =====
-- internal/registry/personal_supergroup.go: the statements of `SupergroupStore`. Statements here do
-- not fail, and the clocks of the program and the database agree. Durations are in nanoseconds.
use telegram_server.Prelude.{
  ℕ, ◌+◌, ◌*◌, ◌/◌, String, Bool, false, not, ◌&&◌, List, [], ◌∷◌, ◌++◌, Option, none, some, str_eq,
  ltb, ◌==◌, if◌then◌else◌,
}
use telegram_server.Registry.{UserRow, update, find_by}
use telegram_server.Database.{PendingToken, Database, keep}

abbrev pub second : ℕ
second = 1000000000

unfoldable pub find_token : String → List PendingToken → Option PendingToken
find_token token [] = none
find_token token (t ∷ more) =
    let rest = find_token token more in if str_eq t.token token then some t else rest

-- `IssueToken`; the lifetime is cut to whole seconds.
unfoldable pub issue_token : ℕ → String → ℕ → ℕ → Database → Database
unfolding find_token
issue_token now token user_id ttl db = elim (find_token token db.pending_supergroup_tokens) [
  | some t ↦ db
  | none ↦ record db {
    pending_supergroup_tokens =
        db.pending_supergroup_tokens
        ++ record { token = token; user_id = user_id; expires_at = now + ttl / second * second }
          ∷ [];
  }
]

-- `ErrTokenNotFound`, `ErrTokenExpired` and the user.
pub data Consumed : Type 0 where
  token_not_found token_expired : Consumed
  consumed_by : ℕ → Consumed

abbrev pub redeem : ℕ → Option PendingToken → Consumed
redeem now none = token_not_found
redeem now (some t) = if ltb t.expires_at now then token_expired else consumed_by t.user_id

-- `ConsumeToken`: the row goes, whether it has expired or not.
unfoldable pub consume_token : ℕ → String → Database → Database × Consumed
unfolding find_token keep
consume_token now token db = (
  record db {
    pending_supergroup_tokens =
        keep (λ (t : PendingToken). not (str_eq t.token token)) db.pending_supergroup_tokens;
  },
  redeem now (find_token token db.pending_supergroup_tokens),
)

-- `UPDATE users SET ... WHERE ...`.
unfoldable pub update_users : (UserRow → Bool) → (UserRow → UserRow) → Database → Database
unfolding update
update_users where_clause set db = record db {
  users = record db.users { users = update where_clause set db.users.users };
}

abbrev pub linked_row : ℕ → ℕ → UserRow → UserRow
linked_row now chat u = record u {
  personal_supergroup_chat_id = some chat;
  personal_supergroup_linked_at = some now;
  bot_is_admin_in_supergroup = false;
  updated_at = now;
}

abbrev pub is_linkable : ℕ → UserRow → Bool
is_linkable id u = (u.id == id) && not (str_eq u.status "anonymized")

-- `LinkSupergroup`.
unfoldable pub link_supergroup : ℕ → ℕ → ℕ → Database → Database
unfolding update_users
link_supergroup now id chat = update_users (is_linkable id) (linked_row now chat)

-- `SetBotIsAdmin`.
unfoldable pub set_bot_is_admin : ℕ → ℕ → Bool → Database → Database
unfolding update_users
set_bot_is_admin now id is_admin =
    update_users (λ u. u.id == id)
      (λ u. record u { bot_is_admin_in_supergroup = is_admin; updated_at = now })

-- `ResetLink`.
unfoldable pub reset_link : ℕ → ℕ → Database → Database
unfolding update_users
reset_link now id =
    update_users (λ u. u.id == id)
      (λ u. record u {
        personal_supergroup_chat_id = none;
        personal_supergroup_linked_at = none;
        bot_is_admin_in_supergroup = false;
        updated_at = now;
      })

abbrev pub is_linked_to : ℕ → UserRow → Bool
is_linked_to chat u = elim u.personal_supergroup_chat_id [ none ↦ false | some c ↦ c == chat ]

-- `FindUserByChatID`; `none` is `ErrUserNotFound`.
unfoldable pub find_user_by_chat_id : ℕ → Database → Option UserRow
unfolding find_by
find_user_by_chat_id chat db = find_by (is_linked_to chat) db.users.users
