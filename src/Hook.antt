-- ===== src/Hook.antt =====
-- internal/hook/chain.go and builtin/audit_hook.go. A hook and the core act on the request and on a
-- state, which stands for everything else that they touch. A payload's values are details, and a
-- nil payload is the empty one.
pub mod Watch
pub mod Order
use telegram_server.Prelude.{
  ℕ, String, Bool, true, false, List, [], ◌∷◌, Option, none, some, insert, lookup, if◌then◌else◌,
}
use telegram_server.Audit.Event.{Stage, Event, Detail, num, text, flag, dispatched}
use telegram_server.Api.Flow.{Env, World, write_audit_safe}

pub data HookStage : Type 0 where
  pre_stage core_stage post_stage : HookStage
  other_stage : String → HookStage

pub record Request : Type 0 where
  pub trace_id : String
  pub message_id : String
  pub endpoint : String
  pub app_id : String
  pub capability : String
  pub route_strategy : String
  pub payload : List (String × Detail)

pub record Result : Type 0 where
  pub continues : Bool
  pub stage : HookStage
  pub reason : String
  pub updated : List (String × Detail)

-- What a hook returns.
pub data Ran : Type 0 where
  ran : Result → Ran
  run_fails : Ran

pub record Hook (S : Type 0) : Type 0 where
  pub name : String
  pub stage : HookStage
  pub run : Request → S → (Request × S) × Ran

pub record Chain (S : Type 0) : Type 0 where
  pub pre_hooks : List (Hook S)
  pub post_hooks : List (Hook S)

pub data ChainError : Type 0 where
  pre_fails : String → ChainError
  short_circuit : String → HookStage → String → ChainError
  core_fails : ChainError
  post_fails : String → ChainError

-- The switch of `NewChain`, whose default is the same as StagePre.
abbrev pub is_post : HookStage → Bool
is_post post_stage = true
is_post other = false

-- `mergePayload`.
unfoldable pub merge_payload : List (String × Detail) → Request → Request
unfolding insert
merge_payload [] req = req
merge_payload ((key, value) ∷ more) req =
    merge_payload more (record req { payload = insert key value req.payload })

module _ {S : Type 0} where
  unfoldable pub post_of : List (Hook S) → List (Hook S)
  post_of [] = []
  post_of (h ∷ hs) = let rest = post_of hs in if is_post h.stage then h ∷ rest else rest

  unfoldable pub pre_of : List (Hook S) → List (Hook S)
  pre_of [] = []
  pre_of (h ∷ hs) = let rest = pre_of hs in if is_post h.stage then rest else h ∷ rest

  -- `NewChain`.
  unfoldable pub new_chain : List (Hook S) → Chain S
  unfolding pre_of post_of
  new_chain hooks = record { pre_hooks = pre_of hooks; post_hooks = post_of hooks }

  -- What follows where no error has ended the run.
  unfoldable pub then_run :
      (Request × S) × Option ChainError
      → (Request → S → (Request × S) × Option ChainError)
      → (Request × S) × Option ChainError
  then_run (state, some e) k = (state, some e)
  then_run ((req, s), none) k = k req s

  -- A round of the first loop, after the hook has run.
  unfoldable pub pre_step : String → (Request × S) × Ran → (Request × S) × Option ChainError
  unfolding merge_payload
  pre_step name (state, run_fails) = (state, some (pre_fails name))
  pre_step name ((req, s), ran r) =
      if r.continues
      then ((merge_payload r.updated req, s), none)
      else ((req, s), some (short_circuit name r.stage r.reason))

  unfoldable pub run_pre : List (Hook S) → Request → S → (Request × S) × Option ChainError
  unfolding pre_step then_run
  run_pre [] req s = ((req, s), none)
  run_pre (h ∷ hs) req s = then_run (pre_step h.name (h.run req s)) (run_pre hs)

  -- A round of the last loop, which does not ask whether to continue.
  unfoldable pub post_step : String → (Request × S) × Ran → (Request × S) × Option ChainError
  unfolding merge_payload
  post_step name (state, run_fails) = (state, some (post_fails name))
  post_step name ((req, s), ran r) = ((merge_payload r.updated req, s), none)

  unfoldable pub run_post : List (Hook S) → Request → S → (Request × S) × Option ChainError
  unfolding post_step then_run
  run_post [] req s = ((req, s), none)
  run_post (h ∷ hs) req s = then_run (post_step h.name (h.run req s)) (run_post hs)

  unfoldable pub core_step : (Request × S) × Bool → (Request × S) × Option ChainError
  core_step (state, false) = (state, some core_fails)
  core_step (state, true) = (state, none)

  -- The core, `none` where it is nil.
  unfoldable pub run_core :
      Option (Request → S → (Request × S) × Bool) → Request → S → (Request × S) × Option ChainError
  unfolding core_step
  run_core none req s = ((req, s), none)
  run_core (some f) req s = core_step (f req s)

  -- `Execute`.
  unfoldable pub execute :
      Chain S
      → Option (Request → S → (Request × S) × Bool)
      → Request
      → S
      → (Request × S) × Option ChainError
  unfolding then_run run_pre run_core run_post
  execute c f req s =
      then_run (run_pre c.pre_hooks req s)
        (λ req' s'. then_run (run_core f req' s') (run_post c.post_hooks))

abbrev text_of : Option Detail → String
text_of none = ""
text_of (some (text s)) = s
text_of (some other) = ""

abbrev num_of : Option Detail → ℕ
num_of none = 0
num_of (some (num n)) = n
num_of (some other) = 0

-- The event of `AuditHook.Run`; a payload's value of another type counts as missing.
unfoldable pub dispatch_event : Request → Event
unfolding lookup
dispatch_event req = record {
  at = 0;
  trace_id = req.trace_id;
  message_id = req.message_id;
  stage = dispatched;
  app_id = req.app_id;
  capability = req.capability;
  capability_set_ver = 0;
  endpoint = req.endpoint;
  route_strategy = req.route_strategy;
  delivery_channel = text_of (lookup "delivery_channel" req.payload);
  recipient_user_id = num_of (lookup "recipient_user_id" req.payload);
  recipient_chat_id = num_of (lookup "recipient_chat_id" req.payload);
  error_code = "";
  details = [];
}

-- `NewPostDispatchAuditHook`.
unfoldable pub audit_hook : Env → Hook World
unfolding write_audit_safe dispatch_event
audit_hook env = record {
  name = "audit_dispatched";
  stage = post_stage;
  run = λ req w.
      let wrote = write_audit_safe env w (dispatch_event req) in
      (
        (req, wrote.0),
        if wrote.1
            then ran
                (record { continues = true; stage = other_stage ""; reason = ""; updated = [] })
            else run_fails,
      );
}
