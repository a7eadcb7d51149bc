-- ===== src/Telegram/Sending.antt =====
-- What internal/dispatch/telegram/dispatcher.go gives to Telegram, and what it charges for it.
use telegram_server.Prelude.{
  ℕ, ◌≡◌, ◌≢◌, ◌⊎◌, inl, inr, refl, String, Bool, Bool-cases, [], ◌∷◌, Option, none, some, ltb,
  arith,
}
use mathlib.Core.Option.{none-ne-some, some-ne-none}
use telegram_server.Ratelimit.Bucket.{Float64, Decision}
use telegram_server.Ratelimit.Limiter.{DispatchLimiter, allow_dispatch}
use telegram_server.Dispatch.Collect.{RecipientHandle}
use telegram_server.Dispatch.Resolvers.{Envelope}
use telegram_server.Api.Flow.{rate_limited}
use telegram_server.Telegram.{
  Message, BotAnswer, sent_message, no_message, bot_error, Delivery, arrived, failed, context_done,
  message_for, delivery_of, admit, transmit, send,
}

delivery_of-arrived : (a : BotAnswer) (id : ℕ) → delivery_of a ≡ arrived id → a ≡ sent_message id
unfolding delivery_of
delivery_of-arrived (sent_message j) id e = cc
delivery_of-arrived no_message id e = cc
delivery_of-arrived (bot_error err) id e = cc

admit-cases :
    (d : Decision) (ended : Bool)
    → (admit d ended ≡ none)
      ⊎ ((admit d ended ≡ some context_done) ⊎ (admit d ended ≡ some (failed rate_limited)))
unfolding admit
admit-cases d ended = elim (Bool-cases d.allowed) [
  | inl a ↦ rw a (inl refl)
  | inr a ↦ elim (Bool-cases (ltb 0 d.retry_after)) [
    | inl w ↦ elim (Bool-cases ended) [
      | inl e ↦ rw (a, w, e) (inr (inl refl))
      | inr e ↦ rw (a, w, e) (inl refl)
    ]
    | inr w ↦ rw (a, w) (inr (inr refl))
  ]
]

-- What follows an early return or none of them.
abbrev Arrives : (Message → BotAnswer) → Message → Option Delivery → ℕ → Type 0
Arrives bot m o id = ((transmit bot m o).0 ≡ m ∷ []) × (bot m ≡ sent_message id)

transmit-none :
    (bot : Message → BotAnswer) (m : Message) (o : Option Delivery) (id : ℕ)
    → o ≡ none
    → (transmit bot m o).1 ≡ arrived id
    → Arrives bot m o id
unfolding transmit
transmit-none bot m none id n e = (refl, delivery_of-arrived (bot m) id e)
transmit-none bot m (some d) id n e = absurd (some-ne-none d n)

transmit_early :
    (bot : Message → BotAnswer) (m : Message) (o : Option Delivery) (early : Delivery) (id : ℕ)
    → o ≡ some early
    → (transmit bot m o).1 ≡ arrived id
    → early ≡ arrived id
unfolding transmit
transmit_early bot m none early id n e = absurd (none-ne-some early n)
transmit_early bot m (some d) early id n e = cc

transmit-arrived :
    (bot : Message → BotAnswer) (m : Message) (d : Decision) (ended : Bool) (id : ℕ)
    → (transmit bot m (admit d ended)).1 ≡ arrived id
    → Arrives bot m (admit d ended) id
transmit-arrived bot m d ended id e = elim (admit-cases d ended) [
  | inl n ↦ transmit-none bot m (admit d ended) id n e
  | inr (inl c) ↦
      let clash : context_done ≡ arrived id =
        transmit_early bot m (admit d ended) context_done id c e in
      cc
  | inr (inr c) ↦
      let clash : failed rate_limited ≡ arrived id =
        transmit_early bot m (admit d ended) (failed rate_limited) id c e in
      cc
]

-- The message that a recipient should get: the text, in the recipient's chat, and in the thread of
-- its topic where it has one.
pub record Addressed (h : RecipientHandle) (envelope : Envelope) (m : Message) : Type 0 where
  pub chat : m.chat_id ≡ h.chat_id
  pub text : m.text ≡ envelope.text
  pub thread : h.topic_id ≢ 0 → m.message_thread_id ≡ some h.topic_id
  pub no_thread : h.topic_id ≡ 0 → m.message_thread_id ≡ none

message_for-Addressed :
    (h : RecipientHandle) (envelope : Envelope) → Addressed h envelope (message_for h envelope)
unfolding message_for
message_for-Addressed h envelope = record {
  chat = refl;
  text = refl;
  thread = λ n. ground arith;
  no_thread = λ z. ground arith;
}

-- A send reports an arrival only when the client was given one message and answered with that
-- message id. The message has the envelope's text, goes to the recipient's chat, and to the thread
-- of the recipient's topic, or to no thread where the topic is 0.
pub arrived_once :
    (float : Float64) (chat_key : ℕ → String) (bot : Message → BotAnswer) (ended : Bool) (now : ℕ)
    (l : DispatchLimiter) (h : RecipientHandle) (envelope : Envelope) (id : ℕ)
    → (send float chat_key bot ended now l h envelope).2 ≡ arrived id
    → (m : Message) × ((send float chat_key bot ended now l h envelope).1 ≡ m ∷ [])
      × Addressed h envelope m
      × (bot m ≡ sent_message id)
unfolding send
arrived_once float chat_key bot ended now l h envelope id e =
    let m = message_for h envelope in
    let (given, answered) =
      transmit-arrived bot m (allow_dispatch float now (chat_key h.chat_id) l).1 ended id e in
    (m, given, message_for-Addressed h envelope, answered)
