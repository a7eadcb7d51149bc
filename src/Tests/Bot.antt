-- ===== src/Tests/Bot.antt =====
-- Updates to the bot on a small database (internal/bot).
use telegram_server.Prelude.{ℕ, ◌≡◌, ◌⊎◌, refl, String, Bool, true, false, [], ◌∷◌, none, some}
use telegram_server.Registry.{UserRow}
use telegram_server.Registry.Topics.{list_subscribed_apps_without_topic}
use telegram_server.Database.{AppRecord}
use telegram_server.Bot.{
  BotEnv, BotWorld, Call, create_forum_topic, Answer, thread, returned, Update, MemberUpdate,
  administrator, other_member, ban_chat_member, consumed,
}
use telegram_server.Bot.Intrusion.{handle}
use telegram_server.Bot.Startgroup
use telegram_server.Bot.Promote
use telegram_server.Bot.Links.Kept.{link_of}
use telegram_server.Bot.Poller.{dispatch, handlers}
use telegram_server.Bot.Provisioner.{ensure_for_subscribed_apps}
use telegram_server.Bot.Provisioner.Completes.{Provisioned, ensure-Provisioned}
use telegram_server.Bot.Links.Rows.{group_of}
use telegram_server.Bot.Links.Redeem.{Redeemed}
use telegram_server.Bot.Links.{group_changes-Redeemed}
use telegram_server.Bot.Bans.{Stranger, Owner, Banned, Exempt, handle-Banned}

abbrev always : ℕ → Bool
always n = true

abbrev answer : ℕ → Call → Answer
answer n (create_forum_topic chat app) = thread 40
answer n other = returned

abbrev env : BotEnv
env = record {
  telegram = answer;
  audit = some always;
  bot_id = 9;
  bot_username = "relay_bot";
  token_ttl = 0;
  provisions = true;
}

abbrev user : UserRow
user = record {
  id = 1;
  telegram_id = 500;
  username = none;
  grade = "user";
  preferred_lang = none;
  agreed_at = some 5;
  personal_supergroup_chat_id = none;
  personal_supergroup_linked_at = none;
  bot_is_admin_in_supergroup = false;
  status = "active";
  anonymized = false;
  updated_at = 5;
}

abbrev app : String → AppRecord
app id = record {
  id = id;
  name = id;
  description = "";
  min_grade = "user";
  active = true;
  capability_set_version = 1;
  created_by = "";
}

abbrev world : BotWorld
world = record {
  db = record {
    users = record { users = user ∷ []; next_id = 2 };
    apps = app "deploys" ∷ app "alerts" ∷ [];
    app_capabilities = [];
    app_keys = [];
    user_subscriptions = (1, "deploys") ∷ (1, "alerts") ∷ [];
    user_topics = [];
    pending_supergroup_tokens = record { token = "abc"; user_id = 1; expires_at = 100 } ∷ [];
  };
  calls = [];
  made = 0;
  events = [];
}

abbrev in_group : String → Update
in_group text = record {
  message =
      some (record {
        chat = record { id = 77; chat_type = "supergroup" };
        sender = none;
        text = text;
      });
  my_chat_member = none;
  chat_member = none;
}

abbrev linked : BotWorld
linked = dispatch (handlers env 60 none) (in_group " /start abc ") world

linked_group : group_of 1 linked ≡ some 77
unfolding dispatch link_of Startgroup.handle
linked_group = refl

-- The bot is made an administrator of the group with every right.
abbrev promotion : Update
promotion = record {
  message = none;
  my_chat_member = some (record {
    chat = record { id = 77; chat_type = "supergroup" };
    new_chat_member = some (
        administrator 9 (record {
          can_post_messages = true;
          can_post_stories = false;
          can_manage_topics = true;
          can_restrict_members = true;
        }));
  });
  chat_member = none;
}

abbrev joined : MemberUpdate
joined = record {
  chat = record { id = 77; chat_type = "supergroup" };
  new_chat_member = some (other_member 600 "member");
}

abbrev joining : Update
joining = record { message = none; my_chat_member = none; chat_member = some joined }

banned : (handle env joining linked).0.calls ≡ ban_chat_member 77 600 ∷ linked.calls
unfolding handle dispatch Startgroup.handle
banned = refl

topics_of_promotion :
    list_subscribed_apps_without_topic 1 (dispatch (handlers env 61 none) promotion linked).db ≡ []
unfolding dispatch Startgroup.handle Promote.handle list_subscribed_apps_without_topic
topics_of_promotion = refl

group_changes-Redeemed_example :
    (group_of 1 (dispatch (handlers env 60 none) (in_group " /start abc ") world)
      ≡ group_of 1 world)
    ⊎ Redeemed 60
        (in_group " /start abc ")
        world
        1
        (dispatch (handlers env 60 none) (in_group " /start abc ") world)
group_changes-Redeemed_example =
    group_changes-Redeemed env 60 none (in_group " /start abc ") world 1

ensure-Provisioned_example : Provisioned 1 77 world (ensure_for_subscribed_apps env 1 77 world)
ensure-Provisioned_example =
    ensure-Provisioned env 1 77 world (record { made_topic = λ n chat a. (40, refl) })

handle-Banned_example :
    Banned Stranger env always joined linked (handle env joining linked)
    ⊎ Banned Owner env always joined linked (handle env joining linked)
    ⊎ (Exempt env joined linked × (handle env joining linked ≡ (linked, consumed)))
handle-Banned_example = handle-Banned env always joining joined linked refl refl
