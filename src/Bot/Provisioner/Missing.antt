-- ===== src/Bot/Provisioner/Missing.antt =====
-- The apps of a user that have no topic, as topics are added.
use telegram_server.Prelude.{
  ℕ, String, Bool, true, false, ◌==◌, List, [], ◌∷◌, ◌++◌, All, none, some, eq_iff, ◌≡◌, refl,
  arith, Bool-cases, Option-cases, inl, inr,
}
use telegram_server.Dispatch.Tables.{Topic, find_topic}
use telegram_server.Database.{Database}
use telegram_server.Registry.Topics.{precedes, add, missing, insert_by_app, order_by_app}

abbrev pub has_topic : ℕ → String → List Topic → Bool
has_topic user app ts = elim (find_topic user app ts) [ none ↦ false | some t ↦ true ]

pub has_topic-append :
    (user : ℕ) (app : String) (ts new : List Topic)
    → has_topic user app ts ≡ true
    → has_topic user app (ts ++ new) ≡ true
unfolding find_topic
has_topic-append user app [] new h = cc
has_topic-append user app (t ∷ ts) new h = ground (arith, has_topic-append user app ts new)

has_topic-last :
    (user : ℕ) (app : String) (id : ℕ) (ts : List Topic)
    → has_topic user app
        (ts ++ record { user_id = user; app_id = app; telegram_topic_id = id } ∷ [])
      ≡ true
unfolding find_topic
has_topic-last user app id [] = ground (arith, eq_iff app app)
has_topic-last user app id (t ∷ ts) = ground (arith, has_topic-last user app id ts)

pub has_topic-add :
    (user : ℕ) (app : String) (id : ℕ) (db : Database)
    → has_topic user app (add user app id db).user_topics ≡ true
unfolding add
has_topic-add user app id db = elim (Option-cases (find_topic user app db.user_topics)) [
  | inl e ↦ rw (e, add) (has_topic-last user app id db.user_topics)
  | inr (t, e) ↦ rw (e, add) (rw (e, has_topic) refl)
]

All-insert_by_app :
    (P : String → Type 0) (x : String) (ys : List String)
    → All P (insert_by_app (λ (a : String). a) x ys)
    → P x × All P ys
unfolding insert_by_app
All-insert_by_app P x [] h = h
All-insert_by_app P x (y ∷ ys) h = elim (Bool-cases (precedes x y)) [
  | inl e ↦ (rw e at h)
  | inr e ↦
      let k : P y × All P (insert_by_app (λ (a : String). a) x ys) = (rw e at h) in
      let ih = All-insert_by_app P x ys k.1 in (ih.0, (k.0, ih.1))
]

pub All-order_by_app :
    (P : String → Type 0) (xs : List String)
    → All P (order_by_app (λ (a : String). a) xs)
    → All P xs
unfolding order_by_app
All-order_by_app P [] h = h
All-order_by_app P (x ∷ xs) h =
    let k = All-insert_by_app P x (order_by_app (λ (a : String). a) xs) h in
    (k.0, All-order_by_app P xs k.1)

pub missing-append :
    (user : ℕ) (ts new : List Topic) (subs : List (ℕ × String))
    → All (λ app. has_topic user app (ts ++ new) ≡ true) (missing user ts subs)
    → missing user (ts ++ new) subs ≡ []
unfolding missing
missing-append user ts new [] h = refl
missing-append user ts new ((u, app) ∷ more) h = elim (Bool-cases (u == user)) [
  | inl e ↦ elim (Option-cases (find_topic user app ts)) [
    | inl f ↦
        let k : (has_topic user app (ts ++ new) ≡ true)
            × All (λ a. has_topic user a (ts ++ new) ≡ true) (missing user ts more) =
          (rw (e, f) at h) in
        ground (arith, k.0, missing-append user ts new more k.1)
    | inr (t, f) ↦
        let k : All (λ a. has_topic user a (ts ++ new) ≡ true) (missing user ts more) =
          (rw (e, f) at h) in
        ground (
          arith,
          has_topic-append user app ts new (rw (f, has_topic) refl),
          missing-append user ts new more k,
        )
  ]
  | inr e ↦ rw e (missing-append user ts new more (rw e at h))
]
