-- ===== src/Tests/Hook.antt =====
-- A chain of two hooks and a core (internal/hook/chain.go); the state counts the runs.
use telegram_server.Prelude.{ℕ, suc, ◌≡◌, refl, String, Bool, true, false, [], ◌∷◌, Option, some}
use telegram_server.Audit.Event.{text}
use telegram_server.Hook.{
  HookStage, pre_stage, post_stage, Request, ran, Hook, Chain, new_chain, execute, short_circuit,
}
use telegram_server.Hook.Watch.{hook_ran, core_ran, watch_chain, watch_core, schedule, Tracks}
use telegram_server.Hook.Order.{execute-Tracks}

abbrev counting : String → HookStage → Bool → Hook ℕ
counting name stage continues = record {
  name = name;
  stage = stage;
  run = λ req n. (
    (req, suc n),
    ran (record {
      continues = continues;
      stage = stage;
      reason = "because";
      updated = (name, text "seen") ∷ [];
    }),
  );
}

abbrev core : Option (Request → ℕ → (Request × ℕ) × Bool)
core = some (λ req n. ((req, suc n), true))

abbrev request : Request
request = record {
  trace_id = "trace";
  message_id = "message";
  endpoint = "/v1/messages/direct";
  app_id = "app";
  capability = "";
  route_strategy = "direct";
  payload = [];
}

abbrev chain : Bool → Chain ℕ
chain continues =
    new_chain (counting "last" post_stage false ∷ counting "first" pre_stage continues ∷ [])

all_ran :
    (execute (watch_chain (chain true)) (watch_core core) request (0, [])).0.1
    ≡ (3, hook_ran "first" true ∷ core_ran true ∷ hook_ran "last" true ∷ [])
unfolding execute new_chain watch_chain watch_core
all_ran = refl

cut_short :
    (execute (chain false) core request 0).1 ≡ some (short_circuit "first" pre_stage "because")
unfolding execute new_chain
cut_short = refl

execute-Tracks_example :
    Tracks
      (schedule (chain false) core)
      []
      (execute (chain false) core request 0)
      (execute (watch_chain (chain false)) (watch_core core) request (0, []))
execute-Tracks_example = execute-Tracks (chain false) core request 0
