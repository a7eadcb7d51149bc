-- ===== src/Bot/Poller.antt =====
-- internal/bot/poller.go, over the handlers in the order of cmd/server/main.go.
use telegram_server.Prelude.{ℕ, String, List, [], ◌∷◌, Option}
use telegram_server.Bot.{BotEnv, BotWorld, Handled, passed, consumed, failed, Update}
use telegram_server.Bot.Startgroup
use telegram_server.Bot.Promote
use telegram_server.Bot.Intrusion
use telegram_server.Bot.Apps
use telegram_server.Bot.Start

abbrev pub Handler : Type 0
Handler = Update → BotWorld → BotWorld × Handled

-- The handlers after one that passed; an error and a handled update end the loop alike.
unfoldable pub dispatch : List Handler → Update → BotWorld → BotWorld
dispatch [] u w = w
dispatch (h ∷ hs) u w =
    let step = h u w in
    let rest = dispatch hs u step.0 in
    elim step.1 [ passed ↦ rest | consumed ↦ step.0 | failed ↦ step.0 ]

-- The list of NewPoller.
abbrev pub handlers : BotEnv → ℕ → Option String → List Handler
handlers env now token =
    Startgroup.handle env now
    ∷ Promote.handle env now
    ∷ Intrusion.handle env
    ∷ Apps.handle env
    ∷ Start.handle env now token
    ∷ []

-- An update with the time of its handling and the token drawn for it.
pub record Arrival : Type 0 where
  pub update : Update
  pub now : ℕ
  pub token : Option String

-- The loop of `Run` over the updates that come.
unfoldable pub run : BotEnv → List Arrival → BotWorld → BotWorld
unfolding dispatch Startgroup.handle Promote.handle Intrusion.handle Apps.handle Start.handle
run env [] w = w
run env (a ∷ more) w = run env more (dispatch (handlers env a.now a.token) a.update w)
