-- ===== src/Dispatch/Resolvers/Topic.antt =====
-- Whom the topic and the broadcast strategies send to, and whom they leave out.
use telegram_server.Prelude.{
  ℕ, ◌≤◌, ◌<◌, ◌≡◌, refl, String, true, false, ◌&&◌, ◌⊎◌, inl, inr, List, [], ◌∷◌, none, some,
  Bytes, arith, Bool-cases, eq_iff, str_eq,
}
use telegram_server.Dispatch.Grade.{grade_rank, normalize_grade, max_grade}
use telegram_server.Dispatch.Grade.Laws.{grade_rank-max_grade}
use telegram_server.Dispatch.Collect.{
  RecipientHandle, ResolveError, ResolveResult, Judged, unknown, reject, accept, collect_all,
}
use telegram_server.Dispatch.Collect.Split.{Split, done, outside, Fits-of, collect_all-Split}
use telegram_server.Dispatch.Tables.{
  User, Tables, app_exists, is_subscribed, find_topic, user_row, broadcast_query, topic_query,
}
use telegram_server.Dispatch.Resolvers.{
  Request, found, sound, judge_broadcast, judge_topic, judge_all, broadcast_strategy, resolve_topic,
  app_min_grade,
}

-- The user of a broadcast.
abbrev pub IsActive : User → Type 0
IsActive u = u.status ≡ "active"

-- The users of a topic message.
abbrev pub IsSubscriber : Tables → String → User → Type 0
IsSubscriber t app u = (u.status ≡ "active") × (is_subscribed u.id app t.subscriptions ≡ true)

-- The handle of a user whose grade is high enough, that leads to the own group, in which the bot is
-- an admin.
pub record Reached (grade : Bytes) (u : User) (h : RecipientHandle) : Type 0 where
  pub own : h.user_id ≡ u.id
  pub graded : grade_rank grade ≤ grade_rank u.grade
  pub linked : u.personal_chat_id ≡ some h.chat_id
  pub admin : u.bot_is_admin ≡ true

-- The entry of a skipped user, with a condition that fails as its code.
pub record Lacking (grade : Bytes) (u : User) (e : ResolveError) (Other : Type 0) : Type 0 where
  pub own : e.user_id ≡ u.id
  pub reason :
      ((e.code ≡ "grade_insufficient") × (grade_rank u.grade < grade_rank grade))
      ⊎ ((e.code ≡ "recipient_not_linked") × (u.personal_chat_id ≡ none))
      ⊎ ((e.code ≡ "bot_not_admin") × (u.bot_is_admin ≡ false))
      ⊎ Other

-- The grade that a topic message needs: the higher one of the app's and the request's.
abbrev pub Needs : Tables → String → Bytes → Bytes → Type 0
Needs t app min_grade grade =
    (grade_rank (app_min_grade t app) ≤ grade_rank grade)
    × (grade_rank min_grade ≤ grade_rank grade)
    × ((grade ≡ app_min_grade t app) ⊎ (grade ≡ min_grade))

abbrev pub TopicReached : Tables → String → Bytes → User → RecipientHandle → Type 0
TopicReached t app grade u h =
    Reached grade u h
    × (h.channel ≡ "supergroup")
    × (find_topic u.id app t.topics ≡ some h.topic_id)

abbrev pub TopicMissed : Tables → String → Bytes → User → ResolveError → Type 0
TopicMissed t app grade u e =
    Lacking grade u e ((e.code ≡ "recipient_topic_missing") × (find_topic u.id app t.topics ≡ none))

abbrev pub BroadcastReached : Bytes → User → RecipientHandle → Type 0
BroadcastReached grade u h = Reached grade u h × (h.channel ≡ "general") × (h.topic_id ≡ 0)

abbrev pub BroadcastMissed : Bytes → User → ResolveError → Type 0
BroadcastMissed grade u e = Lacking grade u e ⊥

module _ (t : Tables) (app : String) (grade : Bytes) where
  topic_row : User → Judged
  topic_row u = judge_topic grade (user_row (find_topic u.id app t.topics) u)

  topic_row-known : (u : User) (r : ℕ) → topic_row u ≡ unknown r → ⊥
  unfolding topic_row judge_topic user_row
  topic_row-known u r e = ground arith

  topic_row-missed :
      (u : User) (id : ℕ) (code : String)
      → topic_row u ≡ reject id code
      → TopicMissed t app grade u (record { user_id = id; code = code })
  unfolding topic_row judge_topic user_row
  topic_row-missed u id code e = ground arith

  topic_row-reached :
      (u : User) (h : RecipientHandle) → topic_row u ≡ accept h → TopicReached t app grade u h
  unfolding topic_row judge_topic user_row
  topic_row-reached u h e = ground arith

  topic_rows-Split :
      (us : List User)
      → let r = collect_all (judge_all (judge_topic grade) (topic_query t app us)) in
        Split
          (IsSubscriber t app)
          (TopicReached t app grade)
          (TopicMissed t app grade)
          us
          r.recipients
          r.skipped
  unfolding topic_query judge_all collect_all topic_row
  topic_rows-Split [] = done
  topic_rows-Split (u ∷ us) =
      let rest = topic_rows-Split us in
      elim (Bool-cases (str_eq u.status "active" && is_subscribed u.id app t.subscriptions)) [
        | inl e ↦ rw e (
            collect_all-Split (IsSubscriber t app) (TopicReached t app grade)
              (TopicMissed t app grade) u us (topic_row u) _
              (ground (arith, eq_iff u.status "active"))
              (Fits-of (IsSubscriber t app) (TopicReached t app grade) (TopicMissed t app grade) u
                (topic_row u) (topic_row-known u) (topic_row-missed u) (topic_row-reached u))
              rest)
        | inr e ↦ rw e (outside (λ s. ground (arith, eq_iff u.status "active")) rest)
      ]

-- For an active app the topic resolver finds a result, which splits the users, in their order: an
-- active subscriber of the app is either one recipient or one skipped entry, under the own id, and
-- nobody else is in it. A recipient's grade is at least the higher one of the app's and the
-- request's, and its handle leads to the user's group, in which the bot is an admin, and to the
-- app's topic there. A skipped entry's code names a condition of these that the user fails.
pub resolve_topic_recipients :
    (t : Tables) (app : String) (min_grade : Bytes)
    → app_exists t app ≡ true
    → (r : ResolveResult) × (grade : Bytes) × (resolve_topic t sound app min_grade ≡ found r)
      × Needs t app min_grade grade
      × Split
          (IsSubscriber t app)
          (TopicReached t app grade)
          (TopicMissed t app grade)
          t.users
          r.recipients
          r.skipped
unfolding resolve_topic
resolve_topic_recipients t app min_grade e =
    let grade = max_grade (app_min_grade t app) min_grade in
    (
      collect_all (judge_all (judge_topic grade) (topic_query t app t.users)),
      grade,
      rw e,
      grade_rank-max_grade (app_min_grade t app) min_grade,
      topic_rows-Split t app grade t.users,
    )

module _ (grade : Bytes) where
  broadcast_row : User → Judged
  broadcast_row u = judge_broadcast grade (user_row none u)

  broadcast_row-known : (u : User) (r : ℕ) → broadcast_row u ≡ unknown r → ⊥
  unfolding broadcast_row judge_broadcast user_row
  broadcast_row-known u r e = ground arith

  broadcast_row-missed :
      (u : User) (id : ℕ) (code : String)
      → broadcast_row u ≡ reject id code
      → BroadcastMissed grade u (record { user_id = id; code = code })
  unfolding broadcast_row judge_broadcast user_row
  broadcast_row-missed u id code e = ground arith

  broadcast_row-reached :
      (u : User) (h : RecipientHandle) → broadcast_row u ≡ accept h → BroadcastReached grade u h
  unfolding broadcast_row judge_broadcast user_row
  broadcast_row-reached u h e = ground arith

  broadcast_rows-Split :
      (us : List User)
      → let r = collect_all (judge_all (judge_broadcast grade) (broadcast_query us)) in
        Split IsActive (BroadcastReached grade) (BroadcastMissed grade) us r.recipients r.skipped
  unfolding broadcast_query judge_all collect_all broadcast_row
  broadcast_rows-Split [] = done
  broadcast_rows-Split (u ∷ us) =
      let rest = broadcast_rows-Split us in
      elim (Bool-cases (str_eq u.status "active")) [
        | inl e ↦ rw e (
            collect_all-Split IsActive (BroadcastReached grade) (BroadcastMissed grade) u us
              (broadcast_row u) _ ((eq_iff u.status "active").0 e)
              (Fits-of IsActive (BroadcastReached grade) (BroadcastMissed grade) u (broadcast_row u)
                (broadcast_row-known u) (broadcast_row-missed u) (broadcast_row-reached u))
              rest)
        | inr e ↦ rw e (outside (λ s. ground (arith, eq_iff u.status "active")) rest)
      ]

-- A broadcast splits the users, in their order: an active user is either one recipient or one
-- skipped entry, under the own id, and nobody else is in the result. A recipient's grade is at
-- least the normalised one of the request, and its handle leads to the general channel of the
-- user's group, in which the bot is an admin. A skipped entry's code names a condition of these that
-- the user fails.
pub broadcast_recipients :
    (t : Tables) (q : Request)
    → (r : ResolveResult) × (broadcast_strategy t sound q ≡ found r)
      × Split IsActive
          (BroadcastReached (normalize_grade q.min_grade))
          (BroadcastMissed (normalize_grade q.min_grade))
          t.users
          r.recipients
          r.skipped
unfolding broadcast_strategy
broadcast_recipients t q =
    let grade = normalize_grade q.min_grade in
    (
      collect_all (judge_all (judge_broadcast grade) (broadcast_query t.users)),
      refl,
      broadcast_rows-Split grade t.users,
    )
