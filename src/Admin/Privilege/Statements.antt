-- ===== src/Admin/Privilege/Statements.antt =====
-- Each statement of the admin API, as far as management capabilities go.
use telegram_server.Prelude.{
  ℕ, String, Bool, true, false, ◌||◌, List, [], ◌∷◌, ◌++◌, Option, none, some, All, ◌≡◌, refl,
  str_eq, Bool-cases, Option-cases, inl, ◌⊎◌, inr, arith, eq_iff,
}
use telegram_server.Database.{Database, AppRecord, keep, holds, subscribed, find_record}
use telegram_server.Registry.{UserRow, get_by_telegram_id}
use telegram_server.Admin.Tx.{Flow, Tx, refuse, ◌>>=◌, guard, exec, pool_exec, each}
use telegram_server.Admin.Tx.Keeps.{
  Keeps, Allows, Keeps-pure, Keeps-refuse, Keeps-guard, Keeps-bind, Keeps-exec, Keeps-pool_exec,
  Keeps-query,
}
use telegram_server.Admin.Apps.{
  CreateAppRequest, is_allowed, is_forbidden, validate_capability_grant, require_grant, insert_app,
  insert_capability, delete_capability, set_app, delete_app_row, lock_row, exists_app, bump_version,
  next_version,
}
use telegram_server.Admin.Members.{
  set_grade, insert_subscription, delete_subscription, require_active, subscribe_user,
}

-- Management capabilities of `db` are held in `before` too.
pub record Within (before db : Database) : Type 0 where
  pub within :
      (app c : String)
      → is_forbidden c ≡ true
      → holds app c before.app_capabilities ≡ false
      → holds app c db.app_capabilities ≡ false

holds-append :
    (app c : String) (rows more : List (String × String))
    → holds app c (rows ++ more) ≡ (holds app c rows || holds app c more)
unfolding holds
holds-append app c [] more = refl
holds-append app c ((a, d) ∷ rows) more = let ih = holds-append app c rows more in ground arith

holds-keep :
    (app c : String) (p : String × String → Bool) (rows : List (String × String))
    → holds app c rows ≡ false
    → holds app c (keep p rows) ≡ false
unfolding holds keep
holds-keep app c p [] h = refl
holds-keep app c p ((a, d) ∷ rows) h = let ih = holds-keep app c p rows in ground arith

module _ {before : Database} where
  pub Keeps-lock_row : (flow : Flow) → Keeps (Within before) (lock_row flow)
  unfolding lock_row
  Keeps-lock_row flow = Keeps-exec flow "db_error" 500 (λ db. some (db, 0)) (λ db h. h)

  pub Keeps-set_app :
      (flow : Flow) (id : String) (set : AppRecord → AppRecord)
      → Keeps (Within before) (exec flow "db_error" 500 (set_app id set))
  unfolding set_app
  Keeps-set_app flow id set =
      Keeps-exec flow "db_error" 500 (set_app id set) (λ db h. record { within = h.within })

  pub Keeps-bump_version :
      (flow : Flow) (id : String) (b : Bool) → Keeps (Within before) (bump_version flow id b)
  unfolding bump_version
  Keeps-bump_version flow id true = Keeps-set_app flow id next_version
  Keeps-bump_version flow id false = Keeps-pure 0

  pub Keeps-delete_capability :
      (flow : Flow) (id d : String)
      → Keeps (Within before) (exec flow "db_error" 500 (delete_capability id d))
  unfolding delete_capability
  Keeps-delete_capability flow id d =
      Keeps-exec flow "db_error" 500 (delete_capability id d) (λ db h. record {
        within = λ app c f l. holds-keep app c _ db.app_capabilities (h.within app c f l);
      })

pub ruleset within_rules =
    (Keeps-lock_row, Keeps-set_app, Keeps-bump_version, Keeps-delete_capability)

forbidden-differs :
    (d c : String) → is_forbidden d ≡ false → is_forbidden c ≡ true → str_eq d c ≡ false
forbidden-differs d c e f = elim (Bool-cases (str_eq d c)) [
  | inl t ↦ grind (arith, eq_iff d c)
  | inr t ↦ t
]

-- A grant that passes names no management capability.
validated :
    (cs : List String)
    → (validate_capability_grant cs ≡ none × All (λ d. is_forbidden d ≡ false) cs)
      ⊎ ((r : String × ℕ) × (validate_capability_grant cs ≡ some r))
unfolding validate_capability_grant
validated [] = inl (refl, tt)
validated (d ∷ cs) = elim (Bool-cases (is_forbidden d)) [
  | inl e ↦ inr (("forbidden_capability", 403), rw e refl)
  | inr e ↦ elim (Bool-cases (is_allowed d)) [
    | inl a ↦ elim (validated cs) [
      | inl (v, all) ↦ inl (rw (e, a, v) refl, (e, all))
      | inr (r, v) ↦ inr (r, rw (e, a, v) refl)
    ]
    | inr a ↦ inr (("unknown_capability", 400), rw (e, a) refl)
  ]
]

pub Keeps-require_grant :
    {B : Type 0} {before : Database} (flow : Flow) (cs : List String) (f : Unit {0} → Tx B)
    → (All (λ d. is_forbidden d ≡ false) cs → Keeps (Within before) (f tt))
    → Keeps (Within before) (require_grant flow (validate_capability_grant cs) >>= f)
unfolding require_grant guard refuse ◌>>=◌
Keeps-require_grant flow cs f k = elim (validated cs) [
  | inl (v, all) ↦ rw v (record { at = λ s h. (k all).at s h })
  | inr (r, v) ↦ rw v (record { at = λ s h. h })
]

Allows-insert_capability :
    {before : Database} (id d : String) (db : Database)
    → is_forbidden d ≡ false
    → Within before db
    → Allows (Within before) (insert_capability id d db)
unfolding insert_capability
Allows-insert_capability id d db h w = elim (Bool-cases (holds id d db.app_capabilities)) [
  | inl e ↦ rw e w
  | inr e ↦ rw e (record {
    within = λ app c f l.
        unfold holds in
        ground (
          arith,
          w.within app c f l,
          holds-append app c db.app_capabilities ((id, d) ∷ []),
          forbidden-differs d c h f,
        );
  })
]

Keeps-insert_capability :
    {before : Database} (flow : Flow) (id d : String)
    → is_forbidden d ≡ false
    → Keeps (Within before) (exec flow "db_error" 500 (insert_capability id d))
Keeps-insert_capability flow id d h =
    Keeps-exec flow "db_error" 500 (insert_capability id d)
      (λ db l. Allows-insert_capability id d db h l)

pub Keeps-grant_all :
    {before : Database} (flow : Flow) (id : String) (cs : List String)
    → All (λ d. is_forbidden d ≡ false) cs
    → Keeps (Within before) (each (λ d. exec flow "db_error" 500 (insert_capability id d)) cs)
unfolding each
Keeps-grant_all flow id [] h = Keeps-pure tt
Keeps-grant_all flow id (d ∷ cs) (h, hs) =
    Keeps-bind _ _ (Keeps-insert_capability flow id d h) (λ _. Keeps-grant_all flow id cs hs)

module _ {before : Database} where
  pub Keeps-delete_app_row :
      (flow : Flow) (id : String)
      → Keeps (Within before) (exec flow "db_error" 500 (delete_app_row id))
  unfolding delete_app_row
  Keeps-delete_app_row flow id = Keeps-exec flow "db_error" 500 (delete_app_row id) (λ db h.
      record { within = λ app c f l. holds-keep app c _ db.app_capabilities (h.within app c f l) })

  pub Keeps-exists_app : (flow : Flow) (id : String) → Keeps (Within before) (exists_app flow id)
  unfolding exists_app
  Keeps-exists_app flow id = Keeps-query flow "app_not_found" 404 _

  pub Keeps-insert_app :
      (flow : Flow) (created_by : String) (req : CreateAppRequest)
      → Keeps (Within before) (exec flow "app_already_exists" 409 (insert_app created_by req))
  unfolding insert_app
  Keeps-insert_app flow created_by req =
      Keeps-exec flow "app_already_exists" 409 (insert_app created_by req) (λ db h.
        elim (Option-cases (find_record req.id db.apps)) [
          | inl e ↦ rw (e, Allows) (record { within = h.within })
          | inr (a, e) ↦ rw (e, Allows) tt
        ])

  pub Keeps-revoke_all :
      (flow : Flow) (id : String) (cs : List String)
      → Keeps (Within before) (each (λ d. exec flow "db_error" 500 (delete_capability id d)) cs)
  unfolding each
  Keeps-revoke_all flow id [] = Keeps-pure tt
  Keeps-revoke_all flow id (d ∷ cs) =
      Keeps-bind _ _ (Keeps-delete_capability flow id d) (λ _. Keeps-revoke_all flow id cs)

  pub Keeps-set_grade :
      (flow : Flow) (id : ℕ) (grade : String)
      → Keeps (Within before) (pool_exec flow "db_error" 500 (set_grade id grade))
  unfolding set_grade
  Keeps-set_grade flow id grade =
      Keeps-pool_exec flow "db_error" 500 (set_grade id grade)
        (λ db h. record { within = h.within })

  pub Keeps-delete_subscription :
      (flow : Flow) (id : ℕ) (a : String)
      → Keeps (Within before) (pool_exec flow "db_error" 500 (delete_subscription id a))
  unfolding delete_subscription
  Keeps-delete_subscription flow id a =
      Keeps-pool_exec flow "db_error" 500 (delete_subscription id a) (λ db h.
        elim (Option-cases (get_by_telegram_id id db.users)) [
          | inl e ↦ rw (e, Allows) (record { within = h.within })
          | inr (u, e) ↦ rw (e, Allows) (record { within = h.within })
        ])

  pub Keeps-require_active :
      (flow : Flow) (row : Option AppRecord) → Keeps (Within before) (require_active flow row)
  Keeps-require_active flow none = Keeps-guard flow false "app_not_found" 404
  Keeps-require_active flow (some a) = Keeps-guard flow a.active "app_inactive" 400

  pub Keeps-subscribe_user :
      (flow : Flow) (a : String) (user : Option UserRow)
      → Keeps (Within before) (subscribe_user flow a user)
  unfolding insert_subscription
  Keeps-subscribe_user flow a none = Keeps-refuse flow "user_not_found" 404
  Keeps-subscribe_user flow a (some u) =
      Keeps-pool_exec flow "db_error" 500 (insert_subscription u.id a) (λ db h.
        elim (Bool-cases (subscribed u.id a db.user_subscriptions)) [
          | inl e ↦ rw e (record { within = h.within })
          | inr e ↦ rw e (record { within = h.within })
        ])

pub ruleset statement_rules = (
  Keeps-delete_app_row, Keeps-exists_app, Keeps-insert_app, Keeps-revoke_all, Keeps-set_grade,
  Keeps-delete_subscription, Keeps-require_active, Keeps-subscribe_user, Keeps-require_grant,
  Keeps-grant_all,
)
