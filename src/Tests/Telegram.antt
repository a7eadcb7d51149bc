-- ===== src/Tests/Telegram.antt =====
-- Sends at a concrete state of the limiter (internal/dispatch/telegram/dispatcher.go).
use telegram_server.Prelude.{ℕ, ◌≡◌, refl, String, false, [], ◌∷◌, ◌==◌, if◌then◌else◌, lookup}
use telegram_server.Ratelimit.Bucket.{refill, spend, take}
use telegram_server.Ratelimit.Limiter.{
  bucket_for, DispatchLimiter, take_at, new_dispatch_limiter, allow_dispatch,
}
use telegram_server.Dispatch.Collect.{RecipientHandle}
use telegram_server.Dispatch.Resolvers.{Envelope}
use telegram_server.Telegram.{
  Message, BotAnswer, sent_message, arrived, delivery_of, admit, transmit, send,
}
use telegram_server.Telegram.Sending.{Addressed, arrived_once}
use telegram_server.Tests.Ratelimit.{whole}

abbrev chat_key : ℕ → String
chat_key id = if id == 101 then "chat:101" else "chat"

abbrev bot : Message → BotAnswer
bot m = sent_message 77

abbrev handle : RecipientHandle
handle = record { user_id = 1; chat_id = 101; topic_id = 5; channel = "supergroup" }

abbrev envelope : Envelope
envelope = record { text = "hello"; schema_version = 1 }

abbrev limiter : DispatchLimiter
limiter = new_dispatch_limiter whole 0

sent_now : (send whole chat_key bot false 0 limiter handle envelope).2 ≡ arrived 77
unfolding send delivery_of transmit admit allow_dispatch new_dispatch_limiter take take_at refill
    lookup spend bucket_for
sent_now = refl

arrived_once_example :
    (m : Message) × ((send whole chat_key bot false 0 limiter handle envelope).1 ≡ m ∷ [])
    × Addressed handle envelope m
    × (bot m ≡ sent_message 77)
arrived_once_example = arrived_once whole chat_key bot false 0 limiter handle envelope 77 sent_now
