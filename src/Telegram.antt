-- ===== src/Telegram.antt =====
-- internal/dispatch/telegram/dispatcher.go. The bot client is a parameter, by what it answers to a
-- message; so are the printing of a chat's key and whether the request ends during a wait. Error
-- texts are ASCII.
pub mod Sending
use telegram_server.Prelude.{
  ℕ, String, Bool, true, false, ◌||◌, List, [], ◌∷◌, Option, none, some, Bytes, codes, ltb,
  if◌then◌else◌,
}
use telegram_server.Ratelimit.Bucket.{Float64, Decision}
use telegram_server.Ratelimit.Limiter.{DispatchLimiter, allow_dispatch}
use telegram_server.Dispatch.Collect.{RecipientHandle}
use telegram_server.Dispatch.Grade.{to_lower}
use telegram_server.Dispatch.Resolvers.{Envelope}
use telegram_server.Api.Flow.{
  SendError, chat_not_found, bot_not_admin, rate_limited, telegram_auth, transient,
}
use telegram_server.Auth.Bearer.{after_prefix}

unfoldable pub starts : Bytes → Bytes → Bool
unfolding after_prefix
starts sub s = elim (after_prefix sub s) [ none ↦ false | some rest ↦ true ]

-- `strings.Contains`.
unfoldable pub contains_text : Bytes → Bytes → Bool
unfolding starts
contains_text sub [] = starts sub []
contains_text sub (c ∷ s) = starts sub (c ∷ s) || contains_text sub s

-- `classify`, on the text of an error.
unfoldable pub classify : Bytes → SendError
unfolding to_lower contains_text
classify err =
    let low = to_lower err in
    if contains_text (codes "chat not found") low
    then chat_not_found
    else if contains_text (codes "bot is not a member") low
        || contains_text (codes "not enough rights") low
        || contains_text (codes "have no rights") low
    then bot_not_admin
    else if contains_text (codes "too many requests") low || contains_text (codes "retry_after") low
    then rate_limited
    else if contains_text (codes "unauthorized") low
    then telegram_auth
    else transient

-- `telego.SendMessageParams`.
pub record Message : Type 0 where
  pub chat_id : ℕ
  pub text : String
  pub message_thread_id : Option ℕ

-- The client's answer: a message with its id, a nil message, or an error's text.
pub data BotAnswer : Type 0 where
  sent_message : ℕ → BotAnswer
  no_message : BotAnswer
  bot_error : Bytes → BotAnswer

pub data Delivery : Type 0 where
  arrived : ℕ → Delivery
  failed : SendError → Delivery
  context_done : Delivery

unfoldable pub message_for : RecipientHandle → Envelope → Message
message_for h envelope = record {
  chat_id = h.chat_id;
  text = envelope.text;
  message_thread_id = if ltb 0 h.topic_id then some h.topic_id else none;
}

unfoldable pub delivery_of : BotAnswer → Delivery
unfolding classify
delivery_of (sent_message id) = arrived id
delivery_of no_message = failed transient
delivery_of (bot_error err) = failed (classify err)

-- What the limiter's decision leaves to do: nothing, or an early return.
unfoldable pub admit : Decision → Bool → Option Delivery
admit d ended =
    if d.allowed
    then none
    else if ltb 0 d.retry_after
    then (if ended then some context_done else none)
    else some (failed rate_limited)

-- The call of the client, unless `Send` has returned; the messages given to the client come first.
unfoldable pub transmit :
    (Message → BotAnswer) → Message → Option Delivery → List Message × Delivery
unfolding delivery_of
transmit bot m (some early) = ([], early)
transmit bot m none = (m ∷ [], delivery_of (bot m))

-- `Dispatcher.Send` with the dispatch limiter.
unfoldable pub send :
    Float64
    → (ℕ → String)
    → (Message → BotAnswer)
    → Bool
    → ℕ
    → DispatchLimiter
    → RecipientHandle
    → Envelope
    → DispatchLimiter × List Message × Delivery
unfolding admit transmit message_for allow_dispatch
send float chat_key bot ended now l h envelope =
    let (l', d) = allow_dispatch float now (chat_key h.chat_id) l in
    let (messages, delivery) = transmit bot (message_for h envelope) (admit d ended) in
    (l', messages, delivery)
