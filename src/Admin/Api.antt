-- ===== src/Admin/Api.antt =====
-- A request to the admin API, from its first audit event to its answer. The app that asks is `created_by` of a new app.
use telegram_server.Prelude.{ℕ, String, List, [], ◌∷◌, Option, none}
use telegram_server.Audit.Event.{Event}
use telegram_server.Api.Flow.{Env, World, Response}
use telegram_server.Database.{Database}
use telegram_server.Admin.Tx.{Reply, Flow, Session, Attempt, done, stopped, Tx}
use telegram_server.Admin.Apps.{
  CreateAppRequest, PatchAppRequest, create_app, patch_app, delete_app, purge_app,
}
use telegram_server.Admin.Members.{patch_user, subscribe, unsubscribe}

pub data AdminRequest : Type 0 where
  post_app : String → Option CreateAppRequest → AdminRequest
  edit_app : String → Option PatchAppRequest → AdminRequest
  retire_app : String → AdminRequest
  erase_app : String → AdminRequest
  edit_user : Option ℕ → Option String → AdminRequest
  post_subscription : Option ℕ → String → AdminRequest
  erase_subscription : Option ℕ → String → AdminRequest

-- The capability that the handler's events carry.
unfoldable pub capability_of : AdminRequest → String
capability_of (edit_user id grade) = "users.promote"
capability_of other = "apps.register"

unfoldable pub run : Flow → AdminRequest → Tx Response
unfolding create_app patch_app delete_app purge_app patch_user subscribe unsubscribe
run flow (post_app created_by body) = create_app flow created_by body
run flow (edit_app id body) = patch_app flow id body
run flow (retire_app id) = delete_app flow id
run flow (erase_app id) = purge_app flow id
run flow (edit_user id grade) = patch_user flow id grade
run flow (post_subscription id app) = subscribe flow id app
run flow (erase_subscription id app) = unsubscribe flow id app

-- The end of a handler, at its last line or at a `return`: `defer tx.Rollback` drops an open
-- transaction.
abbrev pub leave : Attempt Response → Database × World × Response
leave (done r s) = (s.committed, s.world, r)
leave (stopped r s) = (s.committed, s.world, r)

abbrev pub flow_of : Env → (ℕ → Reply) → Event → AdminRequest → Flow
flow_of env fault base req = record {
  env = env;
  base = record base { capability = capability_of req };
  fault = fault;
}

abbrev pub open_session : Database → World → Session
open_session db w = record { committed = db; working = none; world = w; made = 0 }

unfoldable pub handle :
    Env → (ℕ → Reply) → Event → AdminRequest → Database → World → Database × World × Response
unfolding run capability_of
handle env fault base req db w = leave (run (flow_of env fault base req) req (open_session db w))

-- Requests one after another; each has its own ends of its statements.
unfoldable pub handle_all :
    Env → Event → List (AdminRequest × (ℕ → Reply)) → Database → World → Database × World
unfolding handle
handle_all env base [] db w = (db, w)
handle_all env base ((req, fault) ∷ more) db w =
    let step = handle env fault base req db w in handle_all env base more step.0 step.1
