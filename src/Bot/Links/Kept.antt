-- ===== src/Bot/Links/Kept.antt =====
-- The handlers that do not link groups: what they leave of the users table.
use telegram_server.Prelude.{
  ℕ, String, Bool, ◌==◌, List, [], ◌∷◌, Option, none, some, if◌then◌else◌, ◌≡◌, refl, ap, ◌∙◌,
  arith, Bool-cases, Option-cases, inl, inr,
}
use telegram_server.Audit.Event.{Event}
use telegram_server.Registry.{UserRow}
use telegram_server.Registry.Topics.{add, remove, get_topic_id, list_subscribed_apps_without_topic}
use telegram_server.Database.{Database}
use telegram_server.Admin.Members.{insert_subscription}
use telegram_server.Bot.{
  BotEnv, BotWorld, Update, ChatMember, From, Call, Answer, call_fails, returned, thread, Reply,
  tell, reply, write_event, create_forum_topic, close_forum_topic, ban_chat_member, member_user,
}
use telegram_server.Bot.Provisioner.{
  record_topic, create_topics, ensure_for_subscribed_apps, remove_closed, close_topic,
}
use telegram_server.Bot.Intrusion
use telegram_server.Bot.Apps

-- The group of a user, `none` where there is no group or no user.
unfoldable pub link_of : ℕ → List UserRow → Option ℕ
link_of id [] = none
link_of id (u ∷ us) =
    let rest = link_of id us in if u.id == id then u.personal_supergroup_chat_id else rest

pub tell-db : (env : BotEnv) (call : Call) (w : BotWorld) → (tell env call w).0.db ≡ w.db
unfolding tell
tell-db env call w = refl

pub reply-db :
    (env : BotEnv) (chat : ℕ) (text : Reply) (w : BotWorld) → (reply env chat text w).0.db ≡ w.db
unfolding reply tell
reply-db env chat text w = refl

pub write_event-db : (env : BotEnv) (e : Event) (w : BotWorld) → (write_event env e w).db ≡ w.db
unfolding write_event
write_event-db env e w = ground arith

add-users :
    (user : ℕ) (app : String) (topic : ℕ) (db : Database) → (add user app topic db).users ≡ db.users
unfolding add
add-users user app topic db = ground arith

record_topic-users :
    (user : ℕ) (app : String) (told : BotWorld × Answer)
    → (record_topic user app told).0.db.users ≡ told.0.db.users
unfolding record_topic
record_topic-users user app (w, call_fails) = refl
record_topic-users user app (w, returned) = refl
record_topic-users user app (w, thread id) = add-users user app id w.db

pub create_topics-users :
    (env : BotEnv) (user chat : ℕ) (apps : List String) (w : BotWorld)
    → (create_topics env user chat apps w).0.db.users ≡ w.db.users
unfolding create_topics
create_topics-users env user chat [] w = refl
create_topics-users env user chat (app ∷ apps) w =
    let told = tell env (create_forum_topic chat app) w in
    create_topics-users env user chat apps (record_topic user app told).0
    ∙ record_topic-users user app told
    ∙ ap (λ d. d.users) (tell-db env (create_forum_topic chat app) w)

pub ensure-users :
    (env : BotEnv) (user chat : ℕ) (w : BotWorld)
    → (ensure_for_subscribed_apps env user chat w).0.db.users ≡ w.db.users
unfolding ensure_for_subscribed_apps
ensure-users env user chat w =
    create_topics-users env user chat (list_subscribed_apps_without_topic user w.db) w

remove_closed-users :
    (user : ℕ) (app : String) (told : BotWorld × Answer)
    → (remove_closed user app told).db.users ≡ told.0.db.users
unfolding remove_closed remove
remove_closed-users user app (w, call_fails) = refl
remove_closed-users user app (w, returned) = refl
remove_closed-users user app (w, thread id) = refl

close_topic-users :
    (env : BotEnv) (user chat : ℕ) (app : String) (w : BotWorld)
    → (close_topic env user chat app w).db.users ≡ w.db.users
unfolding close_topic tell
close_topic-users env user chat app w = elim (Option-cases (get_topic_id user app w.db)) [
  | inl e ↦ rw (e, close_topic) refl
  | inr (id, e) ↦
      rw (e, close_topic) (remove_closed-users user app (tell env (close_forum_topic chat id) w))
]

-- `IntrusionHandler` leaves the database as it is.
report_ban-db :
    (env : BotEnv) (user chat intruder : ℕ) (told : BotWorld × Answer)
    → (Intrusion.report_ban env user chat intruder told).0.db ≡ told.0.db
unfolding Intrusion.report_ban
report_ban-db env user chat intruder (w, call_fails) = write_event-db env _ w
report_ban-db env user chat intruder (w, returned) = write_event-db env _ w
report_ban-db env user chat intruder (w, thread id) = write_event-db env _ w

judge-db :
    (env : BotEnv) (user chat : ℕ) (m : Option ChatMember) (w : BotWorld)
    → (Intrusion.judge env user chat m w).0.db ≡ w.db
unfolding Intrusion.judge
judge-db env user chat none w = refl
judge-db env user chat (some m) w = elim (Bool-cases (Intrusion.is_intruder env m)) [
  | inl e ↦
      rw e (report_ban-db env user chat _ _ ∙ tell-db env (ban_chat_member chat (member_user m)) w)
  | inr e ↦ rw e refl
]

pub intrusion-db :
    (env : BotEnv) (u : Update) (w : BotWorld) → (Intrusion.handle env u w).0.db ≡ w.db
unfolding Intrusion.handle Intrusion.guard_group
intrusion-db env u w = grind (arith, judge-db)

-- `AppsHandler` leaves the users as they are.
after_insert-users :
    (user : UserRow) (app : String) (w : BotWorld)
    → (Apps.after (insert_subscription user.id app w.db) w).db.users ≡ w.db.users
unfolding insert_subscription
after_insert-users user app w = ground arith

add_subscription-users :
    (env : BotEnv) (user : UserRow) (app : String) (w : BotWorld)
    → (Apps.add_subscription env user app w).db.users ≡ w.db.users
unfolding Apps.add_subscription Apps.in_group
add_subscription-users env user app w = elim (Option-cases (Apps.provisioned_group env user)) [
  | inl e ↦ rw (e, Apps.add_subscription) (after_insert-users user app w)
  | inr (g, e) ↦
      rw (e, Apps.add_subscription)
        (ensure-users env user.id g (Apps.after (insert_subscription user.id app w.db) w)
          ∙ after_insert-users user app w)
]

drop_subscription-users :
    (env : BotEnv) (user : UserRow) (app : String) (w : BotWorld)
    → (Apps.drop_subscription env user app w).db.users ≡ w.db.users
unfolding Apps.drop_subscription Apps.in_group
drop_subscription-users env user app w = elim (Option-cases (Apps.provisioned_group env user)) [
  | inl e ↦ rw (e, Apps.drop_subscription) refl
  | inr (g, e) ↦ rw (e, Apps.drop_subscription) (close_topic-users env user.id g app w)
]

toggle_for-users :
    (env : BotEnv) (chat : ℕ) (user : UserRow) (app : String) (subscribe : Bool) (w : BotWorld)
    → (Apps.toggle_for env chat user app subscribe w).0.db.users ≡ w.db.users
unfolding Apps.toggle_for
toggle_for-users env chat user app subscribe w =
    grind (arith, reply-db, add_subscription-users, drop_subscription-users)

toggle-users :
    (env : BotEnv) (chat : ℕ) (from : From) (app : String) (subscribe : Bool) (w : BotWorld)
    → (Apps.toggle env chat from app subscribe w).0.db.users ≡ w.db.users
unfolding Apps.toggle
toggle-users env chat from app subscribe w = grind (arith, reply-db, toggle_for-users)

list_apps-users :
    (env : BotEnv) (chat : ℕ) (from : From) (w : BotWorld)
    → (Apps.list_apps env chat from w).0.db.users ≡ w.db.users
unfolding Apps.list_apps
list_apps-users env chat from w = grind (arith, reply-db)

command-users :
    (env : BotEnv) (chat : ℕ) (from : From) (text : String) (w : BotWorld)
    → (Apps.command env chat from text w).0.db.users ≡ w.db.users
unfolding Apps.command
command-users env chat from text w = grind (arith, list_apps-users, toggle-users)

pub apps-users :
    (env : BotEnv) (u : Update) (w : BotWorld) → (Apps.handle env u w).0.db.users ≡ w.db.users
unfolding Apps.handle
apps-users env u w = grind (arith, command-users)
