-- ===== src/Admin/Outcome/Handlers.antt =====
-- The handlers of internal/api/handlers/admin_*.go, behind the received event, step by step.
use telegram_server.Prelude.{
  ℕ, ◌==◌, not, ◌&&◌, ◌≡◌, inl, inr, refl, sym, ap, ◌∙◌, String, Bool, true, false, List, [], ◌∷◌,
  Option, none, some, str_eq, Bool-cases, arith,
}
use mathlib.Core.Option.{some-injective}
use telegram_server.Audit.Event.{Detail, text, flag}
use telegram_server.Registry.{UserRow, update, affected, get_by_telegram_id}
use telegram_server.Database.{Database, AppRecord, keep, count}
use telegram_server.Admin.Tx.{Flow, ◌>>=◌, ◌>>◌, guard, conclude, Statement, begin, commit, exec}
use telegram_server.Admin.Apps.{
  CreateAppRequest, PatchAppRequest, validate_capability_grant, require_grant, lock_row, exists_app,
  bump_version, set_app, next_version, create_decoded, patch_decoded, is_forbidden, is_allowed,
  is_valid_grade, caps_changed,
}
use telegram_server.Admin.Members.{
  set_grade, insert_subscription, delete_subscription, require_active, subscribe_user,
  patch_decoded_user,
}
use telegram_server.Admin.Outcome.Steps.{
  IsRefusal, error_400, error_403, error_404, error_500, Any, Shut, Quiet, Ends, IsStoring,
  Ends-bind, Quiet-refuse, Ends-refuse, Quiet-pure, Quiet-guard, Quiet-exec, quiet_rules,
}
use telegram_server.Admin.Outcome.Finish.{Ends-commit, Ends-conclude, Ends-last, Ends-affected}

update_none :
    (p : UserRow → Bool) (set : UserRow → UserRow) (us : List UserRow)
    → affected p us ≡ 0
    → update p set us ≡ us
unfolding update affected
update_none p set [] h = refl
update_none p set (u ∷ us) h = let ih = update_none p set us in ground arith

keep_none :
    {A : Type 0} (p : A → Bool) (xs : List A) → count p xs ≡ 0 → keep (λ x. not (p x)) xs ≡ xs
unfolding keep count
keep_none p [] h = refl
keep_none p (x ∷ xs) h = let ih = keep_none p xs in ground arith

pub set_grade_none :
    (id : ℕ) (grade : String) (db d : Database) → set_grade id grade db ≡ some (d, 0) → d ≡ db
unfolding set_grade
set_grade_none id grade db d e =
    let p : UserRow → Bool = λ u. u.telegram_id == id in
    let set : UserRow → UserRow = λ u. record u { grade = grade } in
    let same = some-injective _ _ e in
    sym (ap (λ x. x.0) same)
    ∙ ap (λ us. record db { users = record db.users { users = us } })
        (update_none p set db.users.users (ap (λ x. x.1) same))

deleted_none :
    (id : ℕ) (app : String) (db d : Database) (o : Option UserRow)
    → get_by_telegram_id id db.users ≡ o
    → delete_subscription id app db ≡ some (d, 0)
    → d ≡ db
unfolding delete_subscription
deleted_none id app db d none g e =
    let gone : delete_subscription id app db ≡ some (db, 0) = rw (g, delete_subscription) refl in
    ap (λ x. x.0) (some-injective (d, 0) (db, 0) (sym e ∙ gone))
deleted_none id app db d (some u) g e =
    let p : ℕ × String → Bool = λ (x : ℕ × String). (x.0 == u.id) && str_eq x.1 app in
    let left : Database = record db {
      user_subscriptions = keep (λ x. not (p x)) db.user_subscriptions;
    } in
    let gone : delete_subscription id app db ≡ some (left, count p db.user_subscriptions) =
      rw (g, delete_subscription) refl in
    let same = some-injective (d, 0) (left, count p db.user_subscriptions) (sym e ∙ gone) in
    ap (λ x. x.0) same
    ∙ ap (λ rows. record db { user_subscriptions = rows })
        (keep_none p db.user_subscriptions (sym (ap (λ x. x.1) same)))

pub delete_subscription_none :
    (id : ℕ) (app : String) (db d : Database) → delete_subscription id app db ≡ some (d, 0) → d ≡ db
delete_subscription_none id app db d e =
    deleted_none id app db d (get_by_telegram_id id db.users) refl e

-- The denial of a grant has a status of an error.
abbrev Refuses : Option (String × ℕ) → Type 0
Refuses none = Unit
Refuses (some (code, status)) = IsRefusal status

validate_capability_grant-Refuses : (cs : List String) → Refuses (validate_capability_grant cs)
unfolding validate_capability_grant
validate_capability_grant-Refuses [] = tt
validate_capability_grant-Refuses (c ∷ cs) = elim (Bool-cases (is_forbidden c)) [
  | inl e ↦ rw e error_403
  | inr e ↦ elim (Bool-cases (is_allowed c)) [
    | inl a ↦ rw (e, a) (validate_capability_grant-Refuses cs)
    | inr a ↦ rw (e, a) error_400
  ]
]

module _ (flow : Flow) (storing : IsStoring flow) where
  require_grant-Quiet :
      (o : Option (String × ℕ)) → Refuses o → Quiet Any flow (require_grant flow o)
  unfolding require_grant guard
  require_grant-Quiet none r = record { at = λ s db t h. h }
  require_grant-Quiet (some (code, status)) r = Quiet-guard flow storing false code status r

  grant-Quiet :
      (cs : List String) → Quiet Any flow (require_grant flow (validate_capability_grant cs))
  grant-Quiet cs =
      require_grant-Quiet (validate_capability_grant cs) (validate_capability_grant-Refuses cs)

  bump_version-Quiet : (id : String) (b : Bool) → Quiet Any flow (bump_version flow id b)
  unfolding bump_version
  bump_version-Quiet id true =
      Quiet-exec flow storing "db_error" 500 (set_app id next_version) error_500
  bump_version-Quiet id false = Quiet-pure 0

  pub require_active-Quiet : (row : Option AppRecord) → Quiet Shut flow (require_active flow row)
  require_active-Quiet none = Quiet-guard flow storing false "app_not_found" 404 error_404
  require_active-Quiet (some a) = Quiet-guard flow storing a.active "app_inactive" 400 error_400

  pub subscribe_user-Ends :
      (app : String) (user : Option UserRow) (details fields : List (String × Detail))
      → Ends Shut flow (subscribe_user flow app user >>= λ _. conclude flow 200 details fields)
  subscribe_user-Ends app none details fields =
      Ends-bind _ _ (Quiet-refuse flow storing "user_not_found" 404 error_404)
        (λ _. Ends-conclude flow storing 200 details fields (omega arith))
  subscribe_user-Ends app (some u) details fields =
      Ends-last flow storing "db_error" 500 (insert_subscription u.id app) 200 details fields
        error_500 (omega arith)

  pub create_decoded-Ends :
      (by : String) (body : Option CreateAppRequest) → Ends Any flow (create_decoded flow by body)
  unfolding create_decoded
  create_decoded-Ends by none = Ends-refuse flow storing "malformed_json" 400 error_400
  create_decoded-Ends by (some req) =
      let last =
        Ends-commit flow storing 201
          (("created_app_id", text req.id) ∷ ("created_by", text by) ∷ [])
          (("id", text req.id) ∷ []) (omega arith) in
      search (quiet_rules, grant-Quiet, last, storing) depth 24

  pub patch_decoded-Ends :
      (id : String) (body : Option PatchAppRequest) → Ends Any flow (patch_decoded flow id body)
  unfolding patch_decoded lock_row exists_app
  patch_decoded-Ends id none = Ends-refuse flow storing "malformed_json" 400 error_400
  patch_decoded-Ends id (some req) =
      let last =
        Ends-commit flow storing 200
          (("patched_app_id", text id) ∷ ("caps_changed", flag (caps_changed req)) ∷ [])
          (("id", text id) ∷ ("updated", flag true) ∷ []) (omega arith) in
      search (quiet_rules, grant-Quiet, bump_version-Quiet, last, storing) depth 28

  -- `Delete` and `Purge`, which differ by their statement and their answer.
  pub removal-Ends :
      (f : Statement) (details fields : List (String × Detail))
      → Ends Any flow (do
        begin flow
        lock_row flow
        n ← exec flow "db_error" 500 f
        guard flow (not (n == 0)) "app_not_found" 404
        commit flow
        conclude flow 200 details fields)
  unfolding lock_row
  removal-Ends f details fields =
      let last = Ends-commit flow storing 200 details fields (omega arith) in
      search (quiet_rules, last, storing) depth 20

  pub patch_decoded_user-Ends :
      (id : ℕ) (body : Option String) → Ends Shut flow (patch_decoded_user flow id body)
  unfolding patch_decoded_user
  patch_decoded_user-Ends id none = Ends-refuse flow storing "malformed_json" 400 error_400
  patch_decoded_user-Ends id (some grade) =
      Ends-bind _ _ (Quiet-guard flow storing (is_valid_grade grade) "invalid_grade" 400 error_400)
        (λ _.
          Ends-affected flow storing "db_error" 500 (set_grade id grade) "user_not_found" 404 200 _
            _ error_500 error_404 (omega arith) (set_grade_none id grade))
