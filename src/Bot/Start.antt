-- ===== src/Bot/Start.antt =====
-- internal/bot/handlers/start.go. The token that newToken draws is given with the update, `none`
-- where the draw fails.
use Prim.Native.String.{◌++◌ as ◌+++◌}
use telegram_server.Prelude.{
  ℕ, ◌*◌, String, Bool, true, false, ◌||◌, ◌==◌, [], ◌∷◌, Option, none, some, str_eq, if◌then◌else◌,
}
use telegram_server.Audit.Event.{Event, num, validated}
use telegram_server.Registry.{UserRow, upsert_on_start, get_by_telegram_id, mark_agreed}
use telegram_server.Registry.Supergroups.{second, issue_token}
use telegram_server.Bot.{
  BotEnv, BotWorld, Handled, passed, failed, Update, From, already_registered, ask_agreement,
  no_username, deeplink, reply, write_event, blank,
}
use telegram_server.Bot.Text.{trim, cut_prefix}

-- `displayName`.
unfoldable pub display_name : From → String
unfolding trim
display_name from =
    if str_eq from.username ""
    then trim (from.first_name +++ (" " +++ from.last_name))
    else from.username

-- `ttl`.
abbrev pub ttl : BotEnv → ℕ
ttl env = if env.token_ttl == 0 then 1800 * second else env.token_ttl

-- `issueStartgroupDeeplink`.
unfoldable pub issue_startgroup_deeplink :
    BotEnv → ℕ → Option String → ℕ → ℕ → BotWorld → BotWorld × Handled
unfolding reply issue_token
issue_startgroup_deeplink env now token user chat w =
    if str_eq env.bot_username "" then reply env chat no_username w else elim token [
      | none ↦ (w, failed)
      | some t ↦
          reply env chat (deeplink env.bot_username t)
            (record w { db = issue_token now t user (ttl env) w.db })
    ]

-- `UpsertOnStart` on the database, with the row that it returns.
unfoldable pub upsert : ℕ → From → BotWorld → BotWorld × Option UserRow
unfolding upsert_on_start get_by_telegram_id display_name
upsert now from w =
    let users = upsert_on_start now from.id (display_name from) from.language_code w.db.users in
    (record w { db = record w.db { users = users } }, get_by_telegram_id from.id users)

-- `handleStart` after the upsert.
unfoldable pub welcome :
    BotEnv → ℕ → Option String → ℕ → BotWorld × Option UserRow → BotWorld × Handled
unfolding issue_startgroup_deeplink reply
welcome env now token chat (w, none) = (w, failed)
welcome env now token chat (w, some user) =
    if elim user.personal_supergroup_chat_id [
      | none ↦ false
      | some c ↦ user.bot_is_admin_in_supergroup
    ]
    then reply env chat already_registered w
    else elim user.agreed_at [
      | none ↦ reply env chat ask_agreement w
      | some at ↦ issue_startgroup_deeplink env now token user.id chat w
    ]

unfoldable pub handle_start : BotEnv → ℕ → Option String → ℕ → From → BotWorld → BotWorld × Handled
unfolding welcome upsert
handle_start env now token chat from w = welcome env now token chat (upsert now from w)

-- The user of `handleAgree`, whose row is made where there is none.
unfoldable pub get_or_upsert : ℕ → From → BotWorld → BotWorld × Option UserRow
unfolding upsert get_by_telegram_id
get_or_upsert now from w = elim (get_by_telegram_id from.id w.db.users) [
  | none ↦ upsert now from w
  | some user ↦ (w, some user)
]

unfoldable pub agree_event : ℕ → ℕ → Event
agree_event telegram_id user = record (blank validated) {
  endpoint = "/agree";
  details = ("telegram_id", num telegram_id) ∷ ("user_id", num user) ∷ [];
}

-- `handleAgree` after the user is found.
unfoldable pub agree :
    BotEnv → ℕ → Option String → ℕ → From → BotWorld × Option UserRow → BotWorld × Handled
unfolding issue_startgroup_deeplink mark_agreed write_event agree_event
agree env now token chat from (w, none) = (w, failed)
agree env now token chat from (w, some user) =
    let marked = mark_agreed now user.id w.db.users in
    let w' = record w { db = record w.db { users = marked.0 } } in
    let noted = if marked.1 then write_event env (agree_event from.id user.id) w' else w' in
    issue_startgroup_deeplink env now token user.id chat noted

unfoldable pub handle_agree : BotEnv → ℕ → Option String → ℕ → From → BotWorld → BotWorld × Handled
unfolding agree get_or_upsert
handle_agree env now token chat from w = agree env now token chat from (get_or_upsert now from w)

abbrev has_command : String → String → Bool
has_command prefix text = elim (cut_prefix prefix text) [ none ↦ false | some s ↦ true ]

-- The switch on the text.
unfoldable pub command :
    BotEnv → ℕ → Option String → ℕ → From → String → BotWorld → BotWorld × Handled
unfolding handle_start handle_agree cut_prefix
command env now token chat from text w =
    if str_eq text "/start" || has_command "/start " text
    then handle_start env now token chat from w
    else if str_eq text "/agree"
    then handle_agree env now token chat from w
    else (w, passed)

-- `StartHandler.Handle`.
unfoldable pub handle : BotEnv → ℕ → Option String → Update → BotWorld → BotWorld × Handled
unfolding command trim
handle env now token u w = elim u.message [
  | none ↦ (w, passed)
  | some m ↦ elim m.sender [
    | none ↦ (w, passed)
    | some from ↦ command env now token m.chat.id from (trim m.text) w
  ]
]
