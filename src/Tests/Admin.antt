-- ===== src/Tests/Admin.antt =====
-- Requests to the admin API on a small database (internal/api/handlers/admin_apps.go).
use telegram_server.Prelude.{
  ℕ, ◌==◌, ◌≡◌, refl, String, Bool, true, false, List, [], ◌∷◌, none, some, if◌then◌else◌,
}
use telegram_server.Audit.Event.{Event, received}
use telegram_server.Api.Flow.{Env, World, send_fails, other, write_error}
use telegram_server.Database.{Database, holds}
use telegram_server.Admin.Apps.{validate_capability_grant, is_app_id, is_forbidden}
use telegram_server.Admin.Api.{AdminRequest, post_app, edit_app, handle, handle_all}
use telegram_server.Admin.Tx.{Reply, works, fails}
use telegram_server.Admin.Privilege.{no_escalation}
use telegram_server.Bot.{blank}

abbrev always : ℕ → Bool
always n = true

abbrev never : ℕ → Reply
never n = works

abbrev env : Env
env = record { audit = some always; send = λ n h e. send_fails other }

abbrev start : World
start = record { trace = []; writes = 0; sends = 0 }

abbrev base : Event
base = blank received

abbrev empty : Database
empty = record {
  users = record { users = []; next_id = 1 };
  apps = [];
  app_capabilities = [];
  app_keys = [];
  user_subscriptions = [];
  user_topics = [];
  pending_supergroup_tokens = [];
}

abbrev creation : List String → AdminRequest
creation capabilities = post_app "root" (
    some (record {
      id = "deploys";
      name = "Deploys";
      description = "";
      min_grade = "";
      capabilities = capabilities;
    }))

abbrev addition : List String → AdminRequest
addition capabilities = edit_app "deploys" (
    some (record {
      description = none;
      min_grade = none;
      active = some false;
      add_capabilities = capabilities;
      remove_capabilities = [];
    }))

abbrev requests : List (AdminRequest × (ℕ → Reply))
requests =
    (creation ("messages.topic.send" ∷ []), never)
    ∷ (addition ("users.promote" ∷ []), never)
    ∷ (addition ("noop.invoke" ∷ []), never)
    ∷ []

granted :
    holds "deploys" "noop.invoke" (handle_all env base requests empty start).0.app_capabilities
    ≡ true
unfolding handle_all validate_capability_grant is_app_id
granted = refl

refused_grant :
    (handle env never base (creation ("audit.freeze" ∷ [])) empty start).2
    ≡ write_error 403 "forbidden_capability"
unfolding handle validate_capability_grant is_app_id
refused_grant = refl

no_escalation_example :
    holds "deploys" "users.promote" (handle_all env base requests empty start).0.app_capabilities
    ≡ false
unfolding is_forbidden holds
no_escalation_example =
    no_escalation env base requests empty start "deploys" "users.promote" refl refl

-- The third statement, which stores a capability, fails.
abbrev third_fails : ℕ → Reply
third_fails n = if n == 2 then fails else works

rolled_back : (handle env third_fails base (creation ("noop.invoke" ∷ [])) empty start).0 ≡ empty
unfolding handle validate_capability_grant is_app_id
rolled_back = refl
