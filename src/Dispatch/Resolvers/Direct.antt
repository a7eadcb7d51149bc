-- ===== src/Dispatch/Resolvers/Direct.antt =====
-- Whom the direct strategy sends to.
use telegram_server.Prelude.{
  ℕ, suc, ◌≡◌, refl, sym, ap, ◌∙◌, String, Bool, true, false, ◌&&◌, List, [], ◌∷◌, ◌++◌, map,
  Option, none, some, length, length-append, get_elem?, All, arith, eq_iff, str_eq, if◌then◌else◌,
}
use mathlib.Core.List.{append_assoc}
use telegram_server.Dispatch.Collect.{
  RecipientHandle, ResolveResult, Judged, accept, contains, collect_unique,
}
use telegram_server.Dispatch.Collect.Laws.{
  times, accepts, IsOf, IsOf-IsOf, Accepted-of, times-collect_unique, Accepted, collect_unique-All,
}
use telegram_server.Dispatch.Tables.{
  User, Tables, find_user, app_exists, is_subscribed, find_topic, DirectRow, direct_row,
  direct_query,
}
use telegram_server.Dispatch.Resolvers.{
  found, sound, judge_known, judge_direct, judge_rows, resolve_rows, resolve_direct,
}

-- The row that the query yields for a request, judged.
abbrev judged : Tables → String → ℕ → Judged
judged t app id = judge_direct id (direct_row t app (find_user id t.users))

abbrev is_some {ℓ} : {A : Type ℓ} → Option A → Bool
is_some none = false
is_some (some a) = true

-- Whom a message of the app may reach: a known, active, subscribed user with a linked group in
-- which the bot is an admin and the app has a topic.
abbrev pub eligible_user : Tables → String → Option User → Bool
eligible_user t app none = false
eligible_user t app (some u) =
    str_eq u.status "active"
    && is_subscribed u.id app t.subscriptions
    && is_some u.personal_chat_id
    && u.bot_is_admin
    && is_some (find_topic u.id app t.topics)

abbrev pub eligible : Tables → String → ℕ → Bool
eligible t app id = eligible_user t app (find_user id t.users)

-- The handle leads to the user's own group and to the app's topic in it.
pub record LeadsTo (t : Tables) (app : String) (h : RecipientHandle) : Type 0 where
  pub user : User
  pub known : find_user h.user_id t.users ≡ some user
  pub active : user.status ≡ "active"
  pub subscribed : is_subscribed h.user_id app t.subscriptions ≡ true
  pub linked : user.personal_chat_id ≡ some h.chat_id
  pub admin : user.bot_is_admin ≡ true
  pub topic : find_topic h.user_id app t.topics ≡ some h.topic_id
  pub channel : h.channel ≡ "supergroup"

find_user-id : (id : ℕ) (us : List User) (u : User) → find_user id us ≡ some u → u.id ≡ id
unfolding find_user
find_user-id id [] u e = cc
find_user-id id (v ∷ us) u e = ground (arith, find_user-id id us u)

judged_accepts :
    (t : Tables) (app : String) (id : ℕ) (o : Option User)
    → accepts (judge_direct id (direct_row t app o)) ≡ eligible_user t app o
unfolding judge_direct direct_row
judged_accepts t app id none = refl
judged_accepts t app id (some u) = ground arith

known-IsOf : (id i : ℕ) (r : DirectRow) → i ≡ id → IsOf id (judge_known i r)
unfolding judge_known
known-IsOf id i r e =
    IsOf-IsOf id (judge_known i r) (λ q h. ground arith) (λ u code h. ground arith)
      (λ h q. ground arith)

judged-IsOf :
    (t : Tables) (app : String) (id : ℕ) (o : Option User)
    → ((u : User) → o ≡ some u → u.id ≡ id)
    → IsOf id (judge_direct id (direct_row t app o))
unfolding judge_direct direct_row
judged-IsOf t app id none h = refl
judged-IsOf t app id (some u) h = known-IsOf id u.id (direct_row t app (some u)) (h u refl)

-- What an accepted row says of its user.
accepted_facts :
    (t : Tables) (app : String) (id : ℕ) (u : User) (h : RecipientHandle)
    → judge_direct id (direct_row t app (some u)) ≡ accept h
    → (u.id ≡ h.user_id)
      × (u.status ≡ "active")
      × (is_subscribed u.id app t.subscriptions ≡ true)
      × (u.personal_chat_id ≡ some h.chat_id)
      × (u.bot_is_admin ≡ true)
      × (find_topic u.id app t.topics ≡ some h.topic_id)
      × (h.channel ≡ "supergroup")
unfolding judge_direct direct_row
accepted_facts t app id u h e = ground (arith, eq_iff u.status "active")

accepted-LeadsTo :
    (t : Tables) (app : String) (id : ℕ) (o : Option User) (h : RecipientHandle)
    → find_user id t.users ≡ o
    → judge_direct id (direct_row t app o) ≡ accept h
    → LeadsTo t app h
unfolding judge_direct direct_row
accepted-LeadsTo t app id none h f e = cc
accepted-LeadsTo t app id (some u) h f e =
    let (same, active, subscribed, linked, admin, topic, channel) = accepted_facts t app id u h e in
    let own = find_user-id id t.users u f in
    record {
      user = u;
      known = ap (λ i. find_user i t.users) (sym same ∙ own) ∙ f;
      active = active;
      subscribed = ap (λ i. is_subscribed i app t.subscriptions) (sym same) ∙ subscribed;
      linked = linked;
      admin = admin;
      topic = ap (λ i. find_topic i app t.topics) (sym same) ∙ topic;
      channel = channel;
    }

judged-All-LeadsTo :
    (t : Tables) (app : String) (ids : List ℕ)
    → All (Accepted (LeadsTo t app)) (map (judged t app) ids)
judged-All-LeadsTo t app [] = tt
judged-All-LeadsTo t app (id ∷ ids) = (
  Accepted-of (LeadsTo t app) (judged t app id)
      (λ h. accepted-LeadsTo t app id (find_user id t.users) h refl),
  judged-All-LeadsTo t app ids,
)

get_elem?-length :
    (pre : List ℕ) (id : ℕ) (ids : List ℕ) → get_elem? (pre ++ id ∷ ids) (length pre) ≡ some id
get_elem?-length [] id ids = refl
get_elem?-length (x ∷ pre) id ids = get_elem?-length pre id ids

-- The index runs along the requests: no row is out of range.
judge_rows-query :
    (t : Tables) (app : String) (user_ids pre ids : List ℕ) (n : ℕ)
    → user_ids ≡ pre ++ ids
    → n ≡ length pre
    → judge_rows user_ids n (direct_query t app ids) ≡ some (map (judged t app) ids)
unfolding judge_rows direct_query
judge_rows-query t app user_ids pre [] n e l = refl
judge_rows-query t app user_ids pre (id ∷ ids) n e l =
    let here : get_elem? user_ids n ≡ some id = rw (e, l) (get_elem?-length pre id ids) in
    let rest =
      judge_rows-query t app user_ids (pre ++ id ∷ []) ids (suc n)
        (e ∙ sym (append_assoc pre (id ∷ []) ids))
        (omega (arith, l, length-append pre (id ∷ []))) in
    rw (here, judge_rows, rest)

own_judged : (t : Tables) (app : String) (id : ℕ) → IsOf id (judged t app id)
own_judged t app id =
    judged-IsOf t app id (find_user id t.users) (λ u e. find_user-id id t.users u e)

resolve_rows-collect :
    (t : Tables) (app : String) (ids : List ℕ)
    → resolve_rows ids (direct_query t app ids) ≡ found (collect_unique [] (map (judged t app) ids))
unfolding resolve_rows
resolve_rows-collect t app ids = rw (judge_rows-query t app ids [] ids 0 refl refl, resolve_rows)

resolve_direct-collect :
    (t : Tables) (app : String) (ids : List ℕ)
    → app_exists t app ≡ true
    → resolve_direct t sound ids app ≡ found (collect_unique [] (map (judged t app) ids))
unfolding resolve_direct
resolve_direct-collect t app ids e = rw e (resolve_rows-collect t app ids)

once :
    (t : Tables) (app : String) (ids : List ℕ) (id : ℕ)
    → times id (collect_unique [] (map (judged t app) ids)).recipients
      ≡ (if contains ids id && eligible t app id then 1 else 0)
unfolding contains
once t app ids id = ground (
  arith,
  times-collect_unique (judged t app) (own_judged t app) [] ids id,
  judged_accepts t app id (find_user id t.users),
)

-- For an active app the direct resolver finds a result: it never runs past the requests, and each
-- user stands among its recipients exactly once if it was asked for and is eligible, however often
-- it was asked for, and otherwise not at all; and every recipient's handle leads to that user's own
-- group and topic.
pub resolve_direct_recipients :
    (t : Tables) (app : String) (ids : List ℕ)
    → app_exists t app ≡ true
    → (r : ResolveResult) × (resolve_direct t sound ids app ≡ found r)
      × ((id : ℕ) → times id r.recipients ≡ (if contains ids id && eligible t app id then 1 else 0))
      × All (LeadsTo t app) r.recipients
resolve_direct_recipients t app ids e = (
  collect_unique [] (map (judged t app) ids),
  resolve_direct-collect t app ids e,
  once t app ids,
  collect_unique-All (LeadsTo t app) [] (map (judged t app) ids) (judged-All-LeadsTo t app ids),
)
