-- ===== src/Bot/Provisioner/Completes.antt =====
-- What provisioning achieves when Telegram answers.
use mathlib.Core.Path.{subst}
use mathlib.Core.List.{append_assoc, append-nil}
use telegram_server.Prelude.{
  ℕ, String, true, List, [], ◌∷◌, ◌++◌, All, ◌≡◌, refl, sym, ap, ◌∙◌, Option-cases, inl, inr,
}
use telegram_server.Dispatch.Tables.{Topic, find_topic}
use telegram_server.Database.{Database}
use telegram_server.Registry.Topics.{add, missing, order_by_app, list_subscribed_apps_without_topic}
use telegram_server.Bot.{
  BotEnv, BotWorld, Answer, call_fails, returned, thread, Call, create_forum_topic, tell,
}
use telegram_server.Bot.Provisioner.{record_topic, create_topics, ensure_for_subscribed_apps}
use telegram_server.Bot.Provisioner.Missing.{
  has_topic, has_topic-append, has_topic-add, All-order_by_app, missing-append,
}

-- The topics of a database, with some added, and everything else as it was.
pub record Grown (before after : Database) : Type 0 where
  pub new : List Topic
  pub grown : after ≡ record before { user_topics = before.user_topics ++ new }

Grown-refl : (db : Database) → Grown db db
Grown-refl db = record {
  new = [];
  grown =
      ap (λ (ts : List Topic). record db { user_topics = ts }) (sym (append-nil db.user_topics));
}

add-Grown : (user : ℕ) (app : String) (id : ℕ) (db : Database) → Grown db (add user app id db)
unfolding add
add-Grown user app id db = elim (Option-cases (find_topic user app db.user_topics)) [
  | inl e ↦ record {
    new = record { user_id = user; app_id = app; telegram_topic_id = id } ∷ [];
    grown = rw (e, add) refl;
  }
  | inr (t, e) ↦ rw (e, add) (Grown-refl db)
]

Grown-trans : {a b c : Database} → Grown a b → Grown b c → Grown a c
Grown-trans {a} g h = record {
  new = g.new ++ h.new;
  grown =
      h.grown
      ∙ ap (λ (d : Database). record d { user_topics = d.user_topics ++ h.new }) g.grown
      ∙ ap (λ (ts : List Topic). record a { user_topics = ts })
          (append_assoc a.user_topics g.new h.new);
}

-- Telegram makes every topic that it is asked for.
pub record Answers (env : BotEnv) : Type 0 where
  pub made_topic :
      (n chat : ℕ) (app : String)
      → (id : ℕ) × (env.telegram n (create_forum_topic chat app) ≡ thread id)

-- The calls that ask for topics, newest first.
unfoldable pub asked : ℕ → List String → List Call → List Call
asked chat [] calls = calls
asked chat (app ∷ apps) calls = asked chat apps (create_forum_topic chat app ∷ calls)

record_topic-Grown :
    (user : ℕ) (app : String) (told : BotWorld × Answer)
    → Grown told.0.db (record_topic user app told).0.db
unfolding record_topic
record_topic-Grown user app (w, call_fails) = Grown-refl w.db
record_topic-Grown user app (w, returned) = Grown-refl w.db
record_topic-Grown user app (w, thread id) = add-Grown user app id w.db

create_topics-Grown :
    (env : BotEnv) (user chat : ℕ) (apps : List String) (w : BotWorld)
    → Grown w.db (create_topics env user chat apps w).0.db
unfolding create_topics tell
create_topics-Grown env user chat [] w = Grown-refl w.db
create_topics-Grown env user chat (app ∷ apps) w =
    let told = tell env (create_forum_topic chat app) w in
    Grown-trans (record_topic-Grown user app told)
      (create_topics-Grown env user chat apps (record_topic user app told).0)

Grown-has_topic :
    {before after : Database} (user : ℕ) (app : String)
    → Grown before after
    → has_topic user app before.user_topics ≡ true
    → has_topic user app after.user_topics ≡ true
Grown-has_topic {before} user app g h =
    ap (λ (d : Database). has_topic user app d.user_topics) g.grown
    ∙ has_topic-append user app before.user_topics g.new h

module _ (env : BotEnv) (answers : Answers env) (user chat : ℕ) where
  record_topic-answered :
      (app : String) (w : BotWorld)
      → let told = tell env (create_forum_topic chat app) w in
        (has_topic user app (record_topic user app told).0.db.user_topics ≡ true)
        × (((record_topic user app told).1 ≡ app ∷ [])
            × ((record_topic user app told).0.calls ≡ create_forum_topic chat app ∷ w.calls))
  unfolding tell record_topic
  record_topic-answered app w =
      let a = answers.made_topic w.made chat app in
      rw (a.1, record_topic) (has_topic-add user app a.0 w.db, (refl, refl))

  create_topics-answered :
      (apps : List String) (w : BotWorld)
      → All
          (λ app. has_topic user app (create_topics env user chat apps w).0.db.user_topics ≡ true)
          apps
        × (((create_topics env user chat apps w).1 ≡ apps)
            × ((create_topics env user chat apps w).0.calls ≡ asked chat apps w.calls))
  unfolding create_topics asked
  create_topics-answered [] w = (tt, (refl, refl))
  create_topics-answered (app ∷ apps) w =
      let first = record_topic-answered app w in
      let next = (record_topic user app (tell env (create_forum_topic chat app) w)).0 in
      let ih = create_topics-answered apps next in
      (
        (Grown-has_topic user app (create_topics-Grown env user chat apps next) first.0, ih.0),
        (
          ap (λ (l : List String). l ++ (create_topics env user chat apps next).1) first.1.0
              ∙ ap (λ (l : List String). app ∷ l) ih.1.0,
          ih.1.1 ∙ ap (asked chat apps) first.1.1,
        ),
      )

provisioned-missing :
    (user : ℕ) (db after : Database)
    → Grown db after
    → All
        (λ app. has_topic user app after.user_topics ≡ true)
        (list_subscribed_apps_without_topic user db)
    → list_subscribed_apps_without_topic user after ≡ []
unfolding list_subscribed_apps_without_topic order_by_app
provisioned-missing user db after g =
    subst
      (λ (d : Database).
        All (λ app. has_topic user app d.user_topics ≡ true)
          (list_subscribed_apps_without_topic user db)
        → list_subscribed_apps_without_topic user d ≡ [])
      (sym g.grown)
      (λ h. ap (order_by_app (λ (app : String). app)) (
        missing-append user db.user_topics g.new db.user_subscriptions
          (All-order_by_app _ (missing user db.user_topics db.user_subscriptions) h)))

-- What provisioning a user's topics in a group leads to.
pub record Provisioned (user chat : ℕ) (w : BotWorld) (r : BotWorld × List String) : Type 0 where
  pub complete : list_subscribed_apps_without_topic user r.0.db ≡ []
  pub created : r.1 ≡ list_subscribed_apps_without_topic user w.db
  pub others_kept : Grown w.db r.0.db
  pub calls : r.0.calls ≡ asked chat (list_subscribed_apps_without_topic user w.db) w.calls

-- Where Telegram makes each topic that it is asked for, provisioning leaves none of the user's
-- subscribed apps without a topic. It asks once for each app that had none, in their order, and
-- returns these apps; the database has topics added and is otherwise as it was.
pub ensure-Provisioned :
    (env : BotEnv) (user chat : ℕ) (w : BotWorld)
    → Answers env
    → Provisioned user chat w (ensure_for_subscribed_apps env user chat w)
unfolding ensure_for_subscribed_apps list_subscribed_apps_without_topic
ensure-Provisioned env user chat w answers =
    let apps = list_subscribed_apps_without_topic user w.db in
    let done = create_topics-answered env answers user chat apps w in
    let g = create_topics-Grown env user chat apps w in
    record {
      complete = provisioned-missing user w.db _ g done.0;
      created = done.1.0;
      others_kept = g;
      calls = done.1.1;
    }
