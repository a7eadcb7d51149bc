-- ===== src/Admin/Privilege.antt =====
-- What the admin API cannot do: give an app a management capability.
pub mod Statements
use telegram_server.Prelude.{
  ℕ, String, Bool, true, false, not, ◌&&◌, ◌||◌, List, [], ◌∷◌, ◌++◌, Option, none, some, All, ◌≡◌,
  refl, sym, ap, ◌∙◌, ◌==◌, str_eq, if◌then◌else◌, Bool-cases, Option-cases, inl, ◌⊎◌, inr, arith,
  eq_iff,
}
use telegram_server.Audit.Event.{Event}
use telegram_server.Api.Flow.{Env, World, Response}
use telegram_server.Database.{Database, AppRecord, keep, holds, subscribed, find_record}
use telegram_server.Registry.{UserRow, get_by_telegram_id}
use telegram_server.Admin.Tx.{Reply, Flow, Session, Attempt, done, stopped, Tx, ◌>>=◌, ◌>>◌}
use telegram_server.Admin.Tx.Keeps.{Keeps, Both, Leaves, Keeps-refuse, keeps_rules}
use telegram_server.Admin.Apps.{
  CreateAppRequest, PatchAppRequest, is_forbidden, create_app, create_decoded, patch_app,
  patch_decoded, delete_app, purge_app,
}
use telegram_server.Admin.Members.{patch_user, patch_decoded_user, subscribe, unsubscribe}
use telegram_server.Admin.Api.{
  AdminRequest, post_app, edit_app, retire_app, erase_app, edit_user, post_subscription,
  erase_subscription, run, leave, flow_of, open_session, handle, handle_all,
}
use telegram_server.Admin.Privilege.Statements.{Within, within_rules, statement_rules}

create_decoded-Keeps :
    {before : Database} (flow : Flow) (by : String) (body : Option CreateAppRequest)
    → Keeps (Within before) (create_decoded flow by body)
unfolding create_decoded
create_decoded-Keeps flow by none = Keeps-refuse flow "malformed_json" 400
create_decoded-Keeps flow by (some req) =
    search (keeps_rules, within_rules, statement_rules) depth 24

patch_decoded-Keeps :
    {before : Database} (flow : Flow) (id : String) (body : Option PatchAppRequest)
    → Keeps (Within before) (patch_decoded flow id body)
unfolding patch_decoded
patch_decoded-Keeps flow id none = Keeps-refuse flow "malformed_json" 400
patch_decoded-Keeps flow id (some req) =
    search (keeps_rules, within_rules, statement_rules) depth 28

patch_decoded_user-Keeps :
    {before : Database} (flow : Flow) (id : ℕ) (body : Option String)
    → Keeps (Within before) (patch_decoded_user flow id body)
unfolding patch_decoded_user
patch_decoded_user-Keeps flow id none = Keeps-refuse flow "malformed_json" 400
patch_decoded_user-Keeps flow id (some g) =
    search (keeps_rules, within_rules, statement_rules) depth 20

ruleset decoded_rules = (create_decoded-Keeps, patch_decoded-Keeps, patch_decoded_user-Keeps)

run-Keeps :
    {before : Database} (flow : Flow) (req : AdminRequest) → Keeps (Within before) (run flow req)
unfolding run create_app patch_app delete_app purge_app patch_user subscribe unsubscribe
run-Keeps flow (post_app created_by body) = search (keeps_rules, decoded_rules) depth 20
run-Keeps flow (edit_app id body) = search (keeps_rules, decoded_rules) depth 20
run-Keeps flow (retire_app id) = search (keeps_rules, within_rules, statement_rules) depth 20
run-Keeps flow (erase_app id) = search (keeps_rules, within_rules, statement_rules) depth 20
run-Keeps flow (edit_user none body) = Keeps-refuse flow "invalid_telegram_id" 400
run-Keeps flow (edit_user (some id) body) = search (keeps_rules, decoded_rules) depth 20
run-Keeps flow (post_subscription none a) = Keeps-refuse flow "invalid_telegram_id" 400
run-Keeps flow (post_subscription (some id) a) =
    search (keeps_rules, within_rules, statement_rules) depth 20
run-Keeps flow (erase_subscription none a) = Keeps-refuse flow "invalid_telegram_id" 400
run-Keeps flow (erase_subscription (some id) a) =
    search (keeps_rules, within_rules, statement_rules) depth 20

leave-Within :
    {before : Database} (r : Attempt Response)
    → Leaves (Within before) r
    → Within before (leave r).0
leave-Within (done a s) h = h.0
leave-Within (stopped a s) h = h.0

handle-Within :
    {before : Database} (env : Env) (fault : ℕ → Reply) (base : Event) (req : AdminRequest)
    (db : Database) (w : World)
    → Within before db
    → Within before (handle env fault base req db w).0
unfolding handle
handle-Within env fault base req db w h =
    let flow = flow_of env fault base req in
    leave-Within (run flow req (open_session db w))
      ((run-Keeps flow req).at (open_session db w) (h, tt))

handle_all-Within :
    {before : Database} (env : Env) (base : Event) (reqs : List (AdminRequest × (ℕ → Reply)))
    (db : Database) (w : World)
    → Within before db
    → Within before (handle_all env base reqs db w).0
unfolding handle_all
handle_all-Within env base [] db w h = h
handle_all-Within env base ((req, fault) ∷ more) db w h =
    let step = handle env fault base req db w in
    handle_all-Within env base more step.0 step.1 (handle-Within env fault base req db w h)

-- Whatever requests are made of the admin API, one after another and with whatever statements
-- failing, an app that does not hold a management capability (apps.register, users.promote,
-- users.deactivate, audit.search or audit.freeze) does not hold it afterwards.
pub no_escalation :
    (env : Env) (base : Event) (reqs : List (AdminRequest × (ℕ → Reply))) (db : Database)
    (w : World) (app c : String)
    → is_forbidden c ≡ true
    → holds app c db.app_capabilities ≡ false
    → holds app c (handle_all env base reqs db w).0.app_capabilities ≡ false
no_escalation env base reqs db w app c =
    (handle_all-Within {before = db} env base reqs db w (record { within = λ a d f l. l })).within
      app c
