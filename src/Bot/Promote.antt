-- ===== src/Bot/Promote.antt =====
-- internal/bot/handlers/promote.go.
use telegram_server.Prelude.{
  ℕ, String, Bool, true, false, ◌&&◌, ◌||◌, List, [], ◌∷◌, Option, none, some, str_eq,
  if◌then◌else◌,
}
use telegram_server.Audit.Event.{bot_not_admin}
use telegram_server.Registry.Supergroups.{find_user_by_chat_id, set_bot_is_admin}
use telegram_server.Bot.{
  BotEnv, BotWorld, Handled, passed, consumed, Update, ChatMember, administrator, other_member,
  MemberUpdate, Rights, Reply, missing_rights, ready, ready_with, send_message, tell, write_event,
  blank,
}
use telegram_server.Bot.Provisioner.{ensure_for_subscribed_apps}
use telegram_server.Bot.Startgroup.{is_group}

abbrev pub has_all_rights : Rights → Bool
has_all_rights r =
    (r.can_post_messages || r.can_post_stories) && r.can_manage_topics && r.can_restrict_members

-- `classifyMyChatMember`.
unfoldable pub classify_my_chat_member : Option ChatMember → String × Bool
classify_my_chat_member none = ("", false)
classify_my_chat_member (some (administrator user r)) = ("administrator", has_all_rights r)
classify_my_chat_member (some (other_member user status)) = (status, false)

-- `markNotAdmin`.
unfoldable pub mark_not_admin : BotEnv → ℕ → ℕ → ℕ → String → BotWorld → BotWorld
unfolding set_bot_is_admin write_event
mark_not_admin env now user chat error_code w =
    write_event env
      (record (blank bot_not_admin) {
        endpoint = "my_chat_member";
        route_strategy = "bot";
        delivery_channel = "supergroup";
        recipient_user_id = user;
        recipient_chat_id = chat;
        error_code = error_code;
      })
      (record w { db = set_bot_is_admin now user false w.db })

-- The text of `sendReady`.
abbrev pub ready_text : List String → Reply
ready_text [] = ready
ready_text (app ∷ apps) = ready_with (app ∷ apps)

-- The grant of every right.
unfoldable pub promote : BotEnv → ℕ → ℕ → ℕ → BotWorld → BotWorld
unfolding set_bot_is_admin tell ensure_for_subscribed_apps
promote env now user chat w =
    let admin = record w { db = set_bot_is_admin now user true w.db } in
    if env.provisions
    then (let provisioned = ensure_for_subscribed_apps env user chat admin in
        (tell env (send_message chat (ready_text provisioned.1)) provisioned.0).0)
    else admin

abbrev pub is_gone : String → Bool
is_gone status =
    str_eq status "member"
    || str_eq status "restricted"
    || str_eq status "left"
    || str_eq status "kicked"

-- The switch on the bot's new status in the group of a user.
unfoldable pub change_status : BotEnv → ℕ → ℕ → ℕ → String × Bool → BotWorld → BotWorld
unfolding promote mark_not_admin tell
change_status env now user chat (status, all_rights) w =
    if str_eq status "administrator"
    then (if all_rights
        then promote env now user chat w
        else mark_not_admin env now user chat "intrusion_unmitigated"
            (tell env (send_message chat missing_rights) w).0)
    else if is_gone status
    then mark_not_admin env now user chat "bot_not_admin" w
    else w

unfoldable pub change_member : BotEnv → ℕ → MemberUpdate → BotWorld → BotWorld
unfolding change_status find_user_by_chat_id classify_my_chat_member
change_member env now m w =
    if is_group m.chat
    then elim (find_user_by_chat_id m.chat.id w.db) [
      | none ↦ w
      | some user ↦
          change_status env now user.id m.chat.id (classify_my_chat_member m.new_chat_member) w
    ]
    else w

-- `PromoteHandler.Handle`.
unfoldable pub handle : BotEnv → ℕ → Update → BotWorld → BotWorld × Handled
unfolding change_member
handle env now u w = elim u.my_chat_member [
  | none ↦ (w, passed)
  | some m ↦ (change_member env now m w, consumed)
]
