-- ===== src/Bot/Startgroup.antt =====
-- internal/bot/handlers/startgroup.go.
use telegram_server.Prelude.{ℕ, String, Bool, ◌||◌, Option, none, some, str_eq, if◌then◌else◌}
use telegram_server.Registry.Supergroups.{
  Consumed, token_not_found, token_expired, consumed_by, consume_token, link_supergroup,
}
use telegram_server.Bot.{
  BotEnv, BotWorld, Handled, passed, Update, Message, Chat, invalid_token, group_linked, reply,
}
use telegram_server.Bot.Text.{trim, argument}

abbrev pub is_group : Chat → Bool
is_group chat = str_eq chat.chat_type "group" || str_eq chat.chat_type "supergroup"

-- The token of a message that the handler takes.
unfoldable pub token_of : Message → Option String
unfolding trim argument
token_of m =
    if is_group m.chat
    then elim (argument "/start " (trim m.text)) [
      | none ↦ none
      | some token ↦ if str_eq token "" then none else some token
    ]
    else none

-- What follows `ConsumeToken`.
unfoldable pub link : BotEnv → ℕ → ℕ → BotWorld → Consumed → BotWorld × Handled
unfolding link_supergroup reply
link env now chat w token_not_found = reply env chat invalid_token w
link env now chat w token_expired = reply env chat invalid_token w
link env now chat w (consumed_by user) =
    reply env chat group_linked (record w { db = link_supergroup now user chat w.db })

unfoldable pub redeem_token : BotEnv → ℕ → ℕ → Option String → BotWorld → BotWorld × Handled
unfolding link consume_token
redeem_token env now chat none w = (w, passed)
redeem_token env now chat (some token) w =
    let result = consume_token now token w.db in
    link env now chat (record w { db = result.0 }) result.1

unfoldable pub take_message : BotEnv → ℕ → Option Message → BotWorld → BotWorld × Handled
unfolding redeem_token token_of
take_message env now none w = (w, passed)
take_message env now (some m) w = redeem_token env now m.chat.id (token_of m) w

-- `StartgroupHandler.Handle`.
unfoldable pub handle : BotEnv → ℕ → Update → BotWorld → BotWorld × Handled
unfolding take_message
handle env now u w = take_message env now u.message w
