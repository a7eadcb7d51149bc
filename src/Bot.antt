-- ===== src/Bot.antt =====
-- The bot: internal/bot and internal/bot/handlers. A handler takes an update and the world, made of
-- the database, the calls of Telegram's API and the audit writes so far, both newest first. The
-- API and the audit writer are parameters, by what their n-th call returns; the token and
-- the time of an update are given with it.
pub mod Text
pub mod Provisioner
pub mod Startgroup
pub mod Promote
pub mod Intrusion
pub mod Start
pub mod Apps
pub mod Poller
pub mod Links
pub mod Bans
use telegram_server.Prelude.{
  ℕ, suc, String, Bool, true, false, List, [], ◌∷◌, Option, none, some, if◌then◌else◌,
}
use telegram_server.Audit.Event.{Stage, Event}
use telegram_server.Database.{Database}

pub record Chat : Type 0 where
  pub id : ℕ
  pub chat_type : String

pub record From : Type 0 where
  pub id : ℕ
  pub username : String
  pub first_name : String
  pub last_name : String
  pub language_code : String

pub record Message : Type 0 where
  pub chat : Chat
  pub sender : Option From
  pub text : String

pub record Rights : Type 0 where
  pub can_post_messages : Bool
  pub can_post_stories : Bool
  pub can_manage_topics : Bool
  pub can_restrict_members : Bool

-- `telego.ChatMember`: an administrator, or another kind of member with its status.
pub data ChatMember : Type 0 where
  administrator : ℕ → Rights → ChatMember
  other_member : ℕ → String → ChatMember

abbrev pub member_user : ChatMember → ℕ
member_user (administrator user rights) = user
member_user (other_member user status) = user

abbrev pub member_status : ChatMember → String
member_status (administrator user rights) = "administrator"
member_status (other_member user status) = status

pub record MemberUpdate : Type 0 where
  pub chat : Chat
  pub new_chat_member : Option ChatMember

-- `telego.Update`; the bot looks into none of its other fields.
pub record Update : Type 0 where
  pub message : Option Message
  pub my_chat_member : Option MemberUpdate
  pub chat_member : Option MemberUpdate

-- `appRow`.
pub record Entry : Type 0 where
  pub id : String
  pub name : String
  pub min_grade : String
  pub subscribed : Bool

-- The texts that the bot sends, by what they say.
pub data Reply : Type 0 where
  invalid_token group_linked missing_rights ready already_registered ask_agreement : Reply
  no_username start_first usage grade_too_low : Reply
  ready_with : List String → Reply
  deeplink : String → String → Reply
  no_such_app app_inactive subscribed unsubscribed : String → Reply
  catalogue : List Entry → List Entry → Reply

pub data Call : Type 0 where
  send_message : ℕ → Reply → Call
  create_forum_topic : ℕ → String → Call
  close_forum_topic : ℕ → ℕ → Call
  ban_chat_member : ℕ → ℕ → Call

-- `returned` has no value that the bot reads, as with a nil topic.
pub data Answer : Type 0 where
  call_fails returned : Answer
  thread : ℕ → Answer

pub record BotEnv : Type 0 where
  pub telegram : ℕ → Call → Answer
  pub audit : Option (ℕ → Bool)
  pub bot_id : ℕ
  pub bot_username : String
  pub token_ttl : ℕ
  pub provisions : Bool

pub record BotWorld : Type 0 where
  pub db : Database
  pub calls : List Call
  pub made : ℕ
  pub events : List (Event × Bool)

-- `(false, nil)`, `(true, nil)` and `(true, err)`.
pub data Handled : Type 0 where
  passed consumed failed : Handled

unfoldable pub tell : BotEnv → Call → BotWorld → BotWorld × Answer
tell env call w = (record w { calls = call ∷ w.calls; made = suc w.made }, env.telegram w.made call)

abbrev pub outcome_of : Answer → Handled
outcome_of call_fails = failed
outcome_of returned = consumed
outcome_of (thread id) = consumed

-- `SendMessage` where its error is the handler's.
unfoldable pub reply : BotEnv → ℕ → Reply → BotWorld → BotWorld × Handled
unfolding tell
reply env chat text w =
    let told = tell env (send_message chat text) w in (told.0, outcome_of told.1)

abbrev pub length_of : List (Event × Bool) → ℕ
length_of [] = 0
length_of (e ∷ es) = suc (length_of es)

-- `Audit.Write`, whose error is dropped; each event stands with whether it was stored.
unfoldable pub write_event : BotEnv → Event → BotWorld → BotWorld
write_event env e w = elim env.audit [
  | none ↦ w
  | some ok ↦ record w { events = (e, ok (length_of w.events)) ∷ w.events }
]

-- `audit.Event{Stage: ...}`.
abbrev pub blank : Stage → Event
blank stage = record {
  at = 0;
  trace_id = "";
  message_id = "";
  stage = stage;
  app_id = "";
  capability = "";
  capability_set_ver = 0;
  endpoint = "";
  route_strategy = "";
  delivery_channel = "";
  recipient_user_id = 0;
  recipient_chat_id = 0;
  error_code = "";
  details = [];
}
