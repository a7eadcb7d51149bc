-- ===== src/Admin/Outcome.antt =====
-- How a request to the admin API ends: in its database, its audit trail and its answer.
pub mod Steps
pub mod Finish
pub mod Handlers
use telegram_server.Prelude.{
  ◌<◌, ◌==◌, not, ◌&&◌, ◌≡◌, ◌⊎◌, sym, ap, ◌∙◌, String, List, [], ◌∷◌, Option, str_eq, Bool-cases,
  Option-cases, if◌then◌else◌,
}
use mathlib.Core.Option.{some-injective}
use telegram_server.Audit.Event.{Event, Detail, text, flag, num, received}
use telegram_server.Api.Flow.{Effect, wrote, World, Response, event, write_error}
use telegram_server.Registry.{UserRow, update, affected, get_by_telegram_id}
use telegram_server.Database.{Database, AppRecord, keep, count, subscribed}
use telegram_server.Admin.Tx.{
  Flow, Session, Attempt, done, stopped, Tx, continue, ◌>>◌, pure, guard, conclude, Statement,
  begin, commit, exec, each, when_some,
}
use telegram_server.Admin.Apps.{
  CreateAppRequest, PatchAppRequest, validate_capability_grant, require_grant, lock_row, exists_app,
  bump_version, create_decoded, patch_decoded, is_forbidden, is_allowed, is_valid_grade,
  caps_changed,
}
use telegram_server.Admin.Members.{
  set_grade, insert_subscription, require_active, subscribe_user, patch_decoded_user,
}
use telegram_server.Admin.Outcome.Steps.{
  IsRefusal, error_403, error_409, Denied, Finished, Waits, Quiet, EndsWell, stored, refusal,
  denial_before, recount, Quiet-bind, Quiet-refuse, Quiet-pure, Quiet-guard, Quiet-begin,
  Quiet-exec, Quiet-query, quiet_rules,
}
use telegram_server.Admin.Outcome.Finish.{Ends-commit, Ends-conclude, Ends-last}
use telegram_server.Admin.Outcome.Handlers.{set_grade_none}

-- The end of a run: a success or a refusal after the received event, or the refusal of a telegram id
-- that does not parse, before it.
abbrev pub Ended : Flow → Database → World → Attempt Response → Type 0
Ended flow db w a =
    EndsWell flow db (wrote (event flow.base received) ∷ w.trace) a
    ⊎ ((r : Response) × (s : Session) × (a ≡ stopped r s)
        × Denied flow db w.trace r s
        × (r ≡ write_error 400 "invalid_telegram_id"))
