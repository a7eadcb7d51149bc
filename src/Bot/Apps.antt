-- ===== src/Bot/Apps.antt =====
-- internal/bot/handlers/apps.go. Grades are compared as the topic strategy ranks them.
use telegram_server.Prelude.{
  ℕ, String, Bool, true, false, not, ◌&&◌, ◌==◌, leb, ltb, codes, List, [], ◌∷◌, Option, none, some,
  str_eq, if◌then◌else◌,
}
use telegram_server.Registry.{UserRow, get_by_telegram_id}
use telegram_server.Registry.Topics.{order_by_app}
use telegram_server.Dispatch.Grade.{grade_rank}
use telegram_server.Database.{AppRecord, Database, keep, find_record, subscribed as is_subscribed}
use telegram_server.Admin.Members.{insert_subscription}
use telegram_server.Bot.{
  BotEnv, BotWorld, Handled, passed, Update, From, Entry, Reply, start_first, usage, grade_too_low,
  no_such_app, app_inactive, subscribed, unsubscribed, catalogue, reply,
}
use telegram_server.Bot.Text.{trim, argument}
use telegram_server.Bot.Provisioner.{ensure_for_subscribed_apps, close_topic}

-- `strategy.GradeRankExported`.
abbrev pub rank : String → ℕ
rank grade = grade_rank (codes grade)

-- The rows of the query of `list`, before they are ordered.
unfoldable pub entries : ℕ → List (ℕ × String) → List AppRecord → List Entry
unfolding is_subscribed
entries user subscriptions [] = []
entries user subscriptions (a ∷ more) =
    let rest = entries user subscriptions more in
    let entry : Entry = record {
      id = a.id;
      name = a.name;
      min_grade = a.min_grade;
      subscribed = is_subscribed user a.id subscriptions;
    } in
    if a.active then entry ∷ rest else rest

abbrev pub is_visible : String → Entry → Bool
is_visible grade e = leb (rank e.min_grade) (rank grade)

-- The split by visibility and the two sorts.
unfoldable pub visible_entries : String → List Entry → List Entry
unfolding keep order_by_app grade_rank
visible_entries grade es = order_by_app (λ (e : Entry). e.id) (keep (is_visible grade) es)

unfoldable pub locked_entries : String → List Entry → List Entry
unfolding keep order_by_app grade_rank
locked_entries grade es =
    order_by_app (λ (e : Entry). e.id) (keep (λ e. not (is_visible grade e)) es)

-- `list`.
unfoldable pub list_apps : BotEnv → ℕ → From → BotWorld → BotWorld × Handled
unfolding entries visible_entries locked_entries order_by_app get_by_telegram_id reply
list_apps env chat from w = elim (get_by_telegram_id from.id w.db.users) [
  | none ↦ reply env chat start_first w
  | some user ↦
      let rows =
        order_by_app (λ (e : Entry). e.id) (entries user.id w.db.user_subscriptions w.db.apps) in
      reply env chat (catalogue (visible_entries user.grade rows) (locked_entries user.grade rows))
        w
]

-- The group that topics are provisioned in.
unfoldable pub provisioned_group : BotEnv → UserRow → Option ℕ
provisioned_group env user =
    if user.bot_is_admin_in_supergroup && env.provisions
    then user.personal_supergroup_chat_id
    else none

unfoldable pub in_group : (ℕ → BotWorld → BotWorld) → Option ℕ → BotWorld → BotWorld
in_group f none w = w
in_group f (some group) w = f group w

-- The rows after a statement that affects them.
abbrev pub after : Option (Database × ℕ) → BotWorld → BotWorld
after none w = w
after (some (db, n)) w = record w { db = db }

unfoldable pub add_subscription : BotEnv → UserRow → String → BotWorld → BotWorld
unfolding insert_subscription in_group ensure_for_subscribed_apps provisioned_group
add_subscription env user app w =
    in_group (λ group v. (ensure_for_subscribed_apps env user.id group v).0)
      (provisioned_group env user) (after (insert_subscription user.id app w.db) w)

unfoldable pub drop_subscription : BotEnv → UserRow → String → BotWorld → BotWorld
unfolding keep in_group close_topic provisioned_group
drop_subscription env user app w =
    let closed =
      in_group (λ group v. close_topic env user.id group app v) (provisioned_group env user) w in
    record closed {
      db = record closed.db {
        user_subscriptions =
            keep (λ (p : ℕ × String). not ((p.0 == user.id) && str_eq p.1 app))
              closed.db.user_subscriptions;
      };
    }

-- What stands between a user and an app.
unfoldable pub obstacle : UserRow → String → Option AppRecord → Option Reply
unfolding grade_rank
obstacle user app none = some (no_such_app app)
obstacle user app (some a) =
    if not a.active
    then some (app_inactive app)
    else if ltb (rank user.grade) (rank a.min_grade)
    then some grade_too_low
    else none

-- `toggle` of a user that is found.
unfoldable pub toggle_for : BotEnv → ℕ → UserRow → String → Bool → BotWorld → BotWorld × Handled
unfolding obstacle find_record add_subscription drop_subscription reply
toggle_for env chat user app subscribe w = elim (obstacle user app (find_record app w.db.apps)) [
  | some text ↦ reply env chat text w
  | none ↦
      if subscribe
      then reply env chat (subscribed app) (add_subscription env user app w)
      else reply env chat (unsubscribed app) (drop_subscription env user app w)
]

-- `toggle`.
unfoldable pub toggle : BotEnv → ℕ → From → String → Bool → BotWorld → BotWorld × Handled
unfolding toggle_for get_by_telegram_id reply
toggle env chat from app subscribe w =
    if str_eq app "" then reply env chat usage w else elim (get_by_telegram_id from.id w.db.users) [
      | none ↦ reply env chat start_first w
      | some user ↦ toggle_for env chat user app subscribe w
    ]

-- The switch on the text.
unfoldable pub command : BotEnv → ℕ → From → String → BotWorld → BotWorld × Handled
unfolding list_apps toggle argument
command env chat from text w =
    if str_eq text "/apps" then list_apps env chat from w else elim (argument "/subscribe " text) [
      | some app ↦ toggle env chat from app true w
      | none ↦ elim (argument "/unsubscribe " text) [
        | some app ↦ toggle env chat from app false w
        | none ↦ (w, passed)
      ]
    ]

-- `AppsHandler.Handle`.
unfoldable pub handle : BotEnv → Update → BotWorld → BotWorld × Handled
unfolding command trim
handle env u w = elim u.message [
  | none ↦ (w, passed)
  | some m ↦ elim m.sender [
    | none ↦ (w, passed)
    | some from ↦
        if str_eq m.chat.chat_type "private"
        then command env m.chat.id from (trim m.text) w
        else (w, passed)
  ]
]
