-- ===== src/Registry/Lifecycle.antt =====
-- The life of a row of internal/registry/user.go.
use telegram_server.Prelude.{
  ℕ, ◌≡◌, refl, String, Bool, true, not, ◌&&◌, ◌||◌, Bool-cases, Option-cases, inl, inr, List, [],
  ◌∷◌, ◌++◌, Option, none, some, str_eq, eq_iff, ◌==◌, if◌then◌else◌, arith,
}
use telegram_server.Registry.{
  UserRow, UserTable, update, find_by, new_row, upsert_on_start, unagreed, mark_agreed, anonymize,
  set_status,
}

-- A call of the store, with its time.
pub data Operation : Type 0 where
  upserted : ℕ → ℕ → String → String → Operation
  agreed : ℕ → ℕ → Operation
  anonymized : ℕ → ℕ → Operation
  status_set : ℕ → ℕ → String → Operation

unfoldable pub step : Operation → UserTable → UserTable
unfolding upsert_on_start mark_agreed anonymize set_status
step (upserted now telegram_id username lang) t = upsert_on_start now telegram_id username lang t
step (agreed now id) t = (mark_agreed now id t).0
step (anonymized now id) t = anonymize now id t
step (status_set now id status) t = (set_status now id status t).0

unfoldable pub run : List Operation → UserTable → UserTable
unfolding step
run [] t = t
run (o ∷ more) t = run more (step o t)

-- The status of the row with an id.
unfoldable pub status_of : ℕ → List UserRow → Option String
status_of id [] = none
status_of id (u ∷ us) = let rest = status_of id us in if u.id == id then some u.status else rest

status_of-append :
    (id : ℕ) (us : List UserRow) (v : UserRow) (s : String)
    → status_of id us ≡ some s
    → status_of id (us ++ v ∷ []) ≡ some s
unfolding status_of
status_of-append id [] v s h = cc
status_of-append id (u ∷ us) v s h = ground (arith, status_of-append id us v s)

-- An update that keeps ids, and an anonymized status.
status_of-update :
    (id : ℕ) (p : UserRow → Bool) (f : UserRow → UserRow) (us : List UserRow)
    → ((u : UserRow) → (f u).id ≡ u.id)
    → ((u : UserRow) → p u ≡ true → u.status ≡ "anonymized" → (f u).status ≡ "anonymized")
    → status_of id us ≡ some "anonymized"
    → status_of id (update p f us) ≡ some "anonymized"
unfolding status_of update
status_of-update id p f [] same kept h = cc
status_of-update id p f (u ∷ us) same kept h =
    ground (arith, same u, kept u, status_of-update id p f us same kept)

upsert_on_start-status_of :
    (id now telegram_id : ℕ) (username lang : String) (t : UserTable)
    → status_of id t.users ≡ some "anonymized"
    → status_of id (upsert_on_start now telegram_id username lang t).users ≡ some "anonymized"
unfolding upsert_on_start
upsert_on_start-status_of id now telegram_id username lang t h =
    elim (Option-cases (find_by (λ u. u.telegram_id == telegram_id) t.users)) [
      | inl e ↦
          rw (e, upsert_on_start)
            (status_of-append id t.users (new_row t.next_id telegram_id username lang now)
              "anonymized" h)
      | inr (u, e) ↦
          rw (e, upsert_on_start)
            (status_of-update id (λ v. v.telegram_id == telegram_id) _ t.users (λ v. refl)
              (λ v c a. a) h)
    ]

set_status-status_of :
    (id now other : ℕ) (status : String) (t : UserTable)
    → status_of id t.users ≡ some "anonymized"
    → status_of id (set_status now other status t).0.users ≡ some "anonymized"
unfolding set_status
set_status-status_of id now other status t h =
    elim (Bool-cases (str_eq status "active" || str_eq status "paused")) [
      | inl a ↦
          rw (a, set_status)
            (status_of-update id (λ u. (u.id == other) && not (str_eq u.status "anonymized"))
              (λ u. record u { status = status; updated_at = now }) t.users (λ u. refl)
              (λ u c e. ground (arith, eq_iff u.status "anonymized")) h)
      | inr a ↦ rw (a, set_status) h
    ]

step-status_of :
    (id : ℕ) (o : Operation) (t : UserTable)
    → status_of id t.users ≡ some "anonymized"
    → status_of id (step o t).users ≡ some "anonymized"
unfolding step
step-status_of id (upserted now telegram_id username lang) t h =
    upsert_on_start-status_of id now telegram_id username lang t h
step-status_of id (agreed now other) t h =
    status_of-update id (unagreed other) _ t.users (λ u. refl) (λ u c e. e) h
step-status_of id (anonymized now other) t h =
    status_of-update id (λ u. u.id == other) _ t.users (λ u. refl) (λ u c e. refl) h
step-status_of id (status_set now other status) t h = set_status-status_of id now other status t h

-- No sequence of the store's operations takes a user out of the anonymized status.
pub anonymized_is_final :
    (id : ℕ) (ops : List Operation) (t : UserTable)
    → status_of id t.users ≡ some "anonymized"
    → status_of id (run ops t).users ≡ some "anonymized"
unfolding run
anonymized_is_final id [] t h = h
anonymized_is_final id (o ∷ more) t h =
    anonymized_is_final id more (step o t) (step-status_of id o t h)
