-- ===== src/Bot/Intrusion.antt =====
-- internal/bot/handlers/intrusion.go.
use telegram_server.Prelude.{
  ℕ, Bool, not, ◌&&◌, ◌||◌, ◌==◌, [], ◌∷◌, Option, none, some, str_eq, if◌then◌else◌,
}
use telegram_server.Audit.Event.{Event, num, intrusion_kick, intrusion_unmitigated}
use telegram_server.Registry.Supergroups.{find_user_by_chat_id}
use telegram_server.Bot.{
  BotEnv, BotWorld, Handled, passed, consumed, failed, Update, ChatMember, member_status,
  member_user, MemberUpdate, ban_chat_member, Answer, call_fails, returned, thread, tell,
  write_event, blank,
}
use telegram_server.Bot.Startgroup.{is_group}

unfoldable pub kick_event : ℕ → ℕ → ℕ → Event
kick_event user chat intruder = record (blank intrusion_kick) {
  endpoint = "chat_member";
  route_strategy = "bot";
  delivery_channel = "supergroup";
  recipient_user_id = user;
  recipient_chat_id = chat;
  details = ("intruder_id", num intruder) ∷ [];
}

-- The text of the ban's error is left out of the details.
unfoldable pub unmitigated_event : ℕ → ℕ → ℕ → Event
unmitigated_event user chat intruder = record (blank intrusion_unmitigated) {
  endpoint = "chat_member";
  route_strategy = "bot";
  delivery_channel = "supergroup";
  recipient_user_id = user;
  recipient_chat_id = chat;
  error_code = "ban_failed";
  details = ("intruder_id", num intruder) ∷ [];
}

-- What follows `BanChatMember`.
unfoldable pub report_ban : BotEnv → ℕ → ℕ → ℕ → BotWorld × Answer → BotWorld × Handled
unfolding write_event kick_event unmitigated_event
report_ban env user chat intruder (w, call_fails) =
    (write_event env (unmitigated_event user chat intruder) w, failed)
report_ban env user chat intruder (w, returned) =
    (write_event env (kick_event user chat intruder) w, consumed)
report_ban env user chat intruder (w, thread id) =
    (write_event env (kick_event user chat intruder) w, consumed)

-- The guards on the new member; a zero `BotID` is no id.
unfoldable pub is_intruder : BotEnv → ChatMember → Bool
is_intruder env m =
    not (not (env.bot_id == 0) && member_user m == env.bot_id)
    && (str_eq (member_status m) "member" || str_eq (member_status m) "restricted")

unfoldable pub judge : BotEnv → ℕ → ℕ → Option ChatMember → BotWorld → BotWorld × Handled
unfolding is_intruder report_ban tell
judge env user chat none w = (w, consumed)
judge env user chat (some m) w =
    if is_intruder env m
    then report_ban env user chat (member_user m)
        (tell env (ban_chat_member chat (member_user m)) w)
    else (w, consumed)

unfoldable pub guard_group : BotEnv → MemberUpdate → BotWorld → BotWorld × Handled
unfolding judge find_user_by_chat_id
guard_group env m w =
    if is_group m.chat
    then elim (find_user_by_chat_id m.chat.id w.db) [
      | none ↦ (w, consumed)
      | some user ↦ judge env user.id m.chat.id m.new_chat_member w
    ]
    else (w, consumed)

-- `IntrusionHandler.Handle`.
unfoldable pub handle : BotEnv → Update → BotWorld → BotWorld × Handled
unfolding guard_group
handle env u w = elim u.chat_member [ none ↦ (w, passed) | some m ↦ guard_group env m w ]
