-- ===== src/Bot/Links/Rows.antt =====
-- The handlers that write to the users table without linking a group: PromoteHandler, StartHandler.
use telegram_server.Prelude.{
  ℕ, String, Bool, true, false, ◌==◌, List, [], ◌∷◌, ◌++◌, Option, none, some, ◌≡◌, refl, ap, ◌∙◌,
  arith, Bool-cases, Option-cases, inl, inr,
}
use telegram_server.Registry.{
  UserRow, UserTable, update, find_by, upsert_on_start, mark_agreed, unagreed, new_row, coalesce,
  nullif,
}
use telegram_server.Registry.Supergroups.{set_bot_is_admin, update_users, issue_token}
use telegram_server.Database.{Database}
use telegram_server.Bot.{BotEnv, BotWorld, Update, From, missing_rights, send_message, tell}
use telegram_server.Bot.Promote
use telegram_server.Bot.Start
use telegram_server.Bot.Links.Kept.{link_of, tell-db, reply-db, write_event-db, ensure-users}

-- The group of a user in the database of a world.
abbrev pub group_of : ℕ → BotWorld → Option ℕ
group_of id w = link_of id w.db.users.users

link_of-update :
    (id : ℕ) (p : UserRow → Bool) (f : UserRow → UserRow) (us : List UserRow)
    → ((u : UserRow) → (f u).id ≡ u.id)
    → ((u : UserRow) → (f u).personal_supergroup_chat_id ≡ u.personal_supergroup_chat_id)
    → link_of id (update p f us) ≡ link_of id us
unfolding link_of update
link_of-update id p f [] same kept = refl
link_of-update id p f (u ∷ us) same kept =
    ground (arith, same u, kept u, link_of-update id p f us same kept)

link_of-append :
    (id : ℕ) (us : List UserRow) (v : UserRow)
    → v.personal_supergroup_chat_id ≡ none
    → link_of id (us ++ v ∷ []) ≡ link_of id us
unfolding link_of
link_of-append id [] v h = ground arith
link_of-append id (u ∷ us) v h = ground (arith, link_of-append id us v h)

set_bot_is_admin-link :
    (id now user : ℕ) (b : Bool) (db : Database)
    → link_of id (set_bot_is_admin now user b db).users.users ≡ link_of id db.users.users
unfolding set_bot_is_admin update_users
set_bot_is_admin-link id now user b db =
    link_of-update id _ _ db.users.users (λ u. refl) (λ u. refl)

mark_not_admin-link :
    (id : ℕ) (env : BotEnv) (now user chat : ℕ) (code : String) (w : BotWorld)
    → group_of id (Promote.mark_not_admin env now user chat code w) ≡ group_of id w
unfolding Promote.mark_not_admin
mark_not_admin-link id env now user chat code w =
    ap (λ d. link_of id d.users.users) (write_event-db env _ _)
    ∙ set_bot_is_admin-link id now user false w.db

promote-link :
    (id : ℕ) (env : BotEnv) (now user chat : ℕ) (w : BotWorld)
    → group_of id (Promote.promote env now user chat w) ≡ group_of id w
unfolding Promote.promote tell
promote-link id env now user chat w = elim (Bool-cases env.provisions) [
  | inl e ↦
      rw (e, Promote.promote)
        (ap (λ t. link_of id t.users)
            (ensure-users env user chat (record w { db = set_bot_is_admin now user true w.db }))
          ∙ set_bot_is_admin-link id now user true w.db)
  | inr e ↦ rw (e, Promote.promote) (set_bot_is_admin-link id now user true w.db)
]

change_status-link :
    (id : ℕ) (env : BotEnv) (now user chat : ℕ) (r : String × Bool) (w : BotWorld)
    → group_of id (Promote.change_status env now user chat r w) ≡ group_of id w
unfolding Promote.change_status
change_status-link id env now user chat (status, true) w = ground (
  arith,
  mark_not_admin-link id env now user chat "bot_not_admin" w,
  promote-link id env now user chat w,
)
change_status-link id env now user chat (status, false) w = ground (
  arith,
  mark_not_admin-link id env now user chat "bot_not_admin" w,
  mark_not_admin-link id env now user chat "intrusion_unmitigated"
      (tell env (send_message chat missing_rights) w).0,
  tell-db env (send_message chat missing_rights) w,
)

pub promote_handler-link :
    (id : ℕ) (env : BotEnv) (now : ℕ) (u : Update) (w : BotWorld)
    → group_of id (Promote.handle env now u w).0 ≡ group_of id w
unfolding Promote.handle Promote.change_member
promote_handler-link id env now u w = grind (arith, change_status-link id env now)

upsert_on_start-link :
    (id now telegram_id : ℕ) (name lang : String) (t : UserTable)
    → link_of id (upsert_on_start now telegram_id name lang t).users ≡ link_of id t.users
unfolding upsert_on_start
upsert_on_start-link id now telegram_id name lang t =
    elim (Option-cases (find_by (λ u. u.telegram_id == telegram_id) t.users)) [
      | inl e ↦
          rw (e, upsert_on_start)
            (link_of-append id t.users (new_row t.next_id telegram_id name lang now) refl)
      | inr (v, e) ↦
          rw (e, upsert_on_start)
            (link_of-update id (λ u. u.telegram_id == telegram_id)
              (λ u. record u { username = coalesce (nullif name) u.username; updated_at = now })
              t.users (λ u. refl) (λ u. refl))
    ]

upsert-link :
    (id now : ℕ) (from : From) (w : BotWorld)
    → group_of id (Start.upsert now from w).0 ≡ group_of id w
unfolding Start.upsert
upsert-link id now from w = upsert_on_start-link id now from.id _ from.language_code w.db.users

mark_agreed-link :
    (id now user : ℕ) (t : UserTable)
    → link_of id (mark_agreed now user t).0.users ≡ link_of id t.users
unfolding mark_agreed
mark_agreed-link id now user t =
    link_of-update id (unagreed user) (λ u. record u { agreed_at = some now; updated_at = now })
      t.users (λ u. refl) (λ u. refl)

issue_token-users :
    (now : ℕ) (token : String) (user ttl : ℕ) (db : Database)
    → (issue_token now token user ttl db).users ≡ db.users
unfolding issue_token
issue_token-users now token user ttl db = ground arith

issue-users :
    (env : BotEnv) (now : ℕ) (token : Option String) (user chat : ℕ) (w : BotWorld)
    → (Start.issue_startgroup_deeplink env now token user chat w).0.db.users ≡ w.db.users
unfolding Start.issue_startgroup_deeplink
issue-users env now token user chat w = grind (arith, reply-db, issue_token-users)

welcome-users :
    (env : BotEnv) (now : ℕ) (token : Option String) (chat : ℕ) (found : BotWorld × Option UserRow)
    → (Start.welcome env now token chat found).0.db.users ≡ found.0.db.users
unfolding Start.welcome
welcome-users env now token chat (w, none) = refl
welcome-users env now token chat (w, some user) = grind (arith, reply-db, issue-users)

agree-link :
    (id : ℕ) (env : BotEnv) (now : ℕ) (token : Option String) (chat : ℕ) (from : From)
    (found : BotWorld × Option UserRow)
    → group_of id (Start.agree env now token chat from found).0 ≡ group_of id found.0
unfolding Start.agree
agree-link id env now token chat from (w, none) = refl
agree-link id env now token chat from (w, some user) =
    grind (arith, issue-users, write_event-db, mark_agreed-link id)

get_or_upsert-link :
    (id now : ℕ) (from : From) (w : BotWorld)
    → group_of id (Start.get_or_upsert now from w).0 ≡ group_of id w
unfolding Start.get_or_upsert
get_or_upsert-link id now from w = grind (arith, upsert-link id now from w)

command-link :
    (id : ℕ) (env : BotEnv) (now : ℕ) (token : Option String) (chat : ℕ) (from : From)
    (text : String) (w : BotWorld)
    → group_of id (Start.command env now token chat from text w).0 ≡ group_of id w
unfolding Start.command Start.handle_start Start.handle_agree
command-link id env now token chat from text w = grind (
  arith,
  welcome-users env now token chat,
  upsert-link id now from w,
  agree-link id env now token chat from,
  get_or_upsert-link id now from w,
)

pub start_handler-link :
    (id : ℕ) (env : BotEnv) (now : ℕ) (token : Option String) (u : Update) (w : BotWorld)
    → group_of id (Start.handle env now token u w).0 ≡ group_of id w
unfolding Start.handle
start_handler-link id env now token u w = grind (arith, command-link id env now token)
