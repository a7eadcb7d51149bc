-- ===== src/Dispatch/Resolvers.antt =====
-- The strategies and resolvers of internal/dispatch/strategy: direct.go, direct_dm.go, topic.go and
-- broadcast_all.go. The database is its tables and a fault that says which query fails.
pub mod Direct
pub mod Topic
use telegram_server.Prelude.{
  ℕ, suc, ◌+◌, ◌<◌, String, Bool, true, false, not, List, [], ◌∷◌, Option, none, some, Bytes, codes,
  ltb, get_elem?, str_eq, if◌then◌else◌,
}
use telegram_server.Dispatch.Grade.{grade_rank, normalize_grade, max_grade}
use telegram_server.Dispatch.Collect.{
  RecipientHandle, ResolveError, ResolveResult, Judged, unknown, reject, accept, collect_unique,
  collect_all,
}
use telegram_server.Dispatch.Tables.{
  User, App, Tables, find_app, app_exists, DirectRow, direct_query, DmRow, dm_query, UserRow,
  broadcast_query, topic_query,
}

pub record Envelope : Type 0 where
  pub text : String
  pub schema_version : ℕ

pub record Request : Type 0 where
  pub app_id : String
  pub recipients : List ℕ
  pub min_grade : Bytes
  pub envelope : Envelope

-- Errors of `Resolve`; `query_error` is any error of the database, `index_panic` an index out of
-- range.
pub data Failure : Type 0 where
  app_not_found empty_recipients query_error index_panic : Failure

pub data Resolved : Type 0 where
  found : ResolveResult → Resolved
  fails : Failure → Resolved

pub data Fault : Type 0 where
  sound lookup_fails query_fails : Fault

-- The tests of the body of `ResolveDirect`, in their order.
unfoldable pub judge_known : ℕ → DirectRow → Judged
judge_known id r =
    let inactive : Bool = elim r.status [ none ↦ false | some s ↦ not (str_eq s "active") ] in
    let admin : Bool = elim r.bot_is_admin [ none ↦ false | some b ↦ b ] in
    if inactive
    then reject id "recipient_inactive"
    else if not r.subscribed
    then reject id "recipient_not_subscribed"
    else elim r.personal_chat_id [
      | none ↦ reject id "recipient_not_linked"
      | some chat ↦ if not admin then reject id "bot_not_admin" else elim r.topic_id [
        | none ↦ reject id "recipient_topic_missing"
        | some topic ↦
            accept
              (record { user_id = id; chat_id = chat; topic_id = topic; channel = "supergroup" })
      ]
    ]

unfoldable pub judge_direct : ℕ → DirectRow → Judged
unfolding judge_known
judge_direct requested r = elim r.user_id [ none ↦ unknown requested | some id ↦ judge_known id r ]

-- `requested := userIDs[idx]; idx++` at each row: `none` where the index is out of range.
unfoldable pub judge_rows : List ℕ → ℕ → List DirectRow → Option (List Judged)
unfolding judge_direct
judge_rows user_ids idx [] = some []
judge_rows user_ids idx (r ∷ rows) =
    let rest = judge_rows user_ids (suc idx) rows in
    elim (get_elem? user_ids idx) [
      | none ↦ none
      | some requested ↦ elim rest [ none ↦ none | some js ↦ some (judge_direct requested r ∷ js) ]
    ]

unfoldable pub resolve_rows : List ℕ → List DirectRow → Resolved
unfolding judge_rows collect_unique
resolve_rows user_ids rows = elim (judge_rows user_ids 0 rows) [
  | none ↦ fails index_panic
  | some js ↦ found (collect_unique [] js)
]

-- `PgDirectResolver.ResolveDirect`.
unfoldable pub resolve_direct : Tables → Fault → List ℕ → String → Resolved
unfolding resolve_rows app_exists direct_query
resolve_direct t lookup_fails user_ids app = fails query_error
resolve_direct t query_fails user_ids app =
    if not (app_exists t app) then fails app_not_found else fails query_error
resolve_direct t sound user_ids app =
    if not (app_exists t app)
    then fails app_not_found
    else resolve_rows user_ids (direct_query t app user_ids)

abbrev pub is_empty {ℓ} : {A : Type ℓ} → List A → Bool
is_empty [] = true
is_empty (x ∷ xs) = false

-- `DirectStrategy.Resolve`.
unfoldable pub direct_strategy : Tables → Fault → Request → Resolved
unfolding resolve_direct
direct_strategy t fault r =
    if str_eq r.app_id ""
    then fails app_not_found
    else if is_empty r.recipients
    then fails empty_recipients
    else resolve_direct t fault r.recipients r.app_id

-- The tests of the body of `ResolveDirectDM`.
unfoldable pub judge_dm : DmRow → Judged
judge_dm r = elim r.user_id [
  | none ↦ unknown r.requested
  | some id ↦ elim r.telegram_id [
    | none ↦ unknown r.requested
    | some chat ↦
        let inactive : Bool = elim r.status [ none ↦ false | some s ↦ not (str_eq s "active") ] in
        if inactive
        then reject id "recipient_inactive"
        else accept (record { user_id = id; chat_id = chat; topic_id = 0; channel = "dm" })
  ]
]

unfoldable pub judge_dms : List DmRow → List Judged
unfolding judge_dm
judge_dms [] = []
judge_dms (r ∷ rows) = judge_dm r ∷ judge_dms rows

-- `DirectDMStrategy.Resolve` and `PgDirectDMResolver.ResolveDirectDM`.
unfoldable pub direct_dm_strategy : Tables → Fault → Request → Resolved
unfolding judge_dms collect_unique dm_query
direct_dm_strategy t query_fails r =
    if is_empty r.recipients then fails empty_recipients else fails query_error
direct_dm_strategy t fault r =
    if is_empty r.recipients
    then fails empty_recipients
    else found (collect_unique [] (judge_dms (dm_query t r.recipients)))

-- The tests of the body of `ResolveBroadcast`; and of `ResolveTopic`, which asks for a topic too.
unfoldable pub judge_broadcast : Bytes → UserRow → Judged
judge_broadcast min_grade r =
    if ltb (grade_rank r.grade) (grade_rank min_grade)
    then reject r.user_id "grade_insufficient"
    else elim r.personal_chat_id [
      | none ↦ reject r.user_id "recipient_not_linked"
      | some chat ↦
          if not r.bot_is_admin
          then reject r.user_id "bot_not_admin"
          else accept
              (record { user_id = r.user_id; chat_id = chat; topic_id = 0; channel = "general" })
    ]

unfoldable pub judge_topic : Bytes → UserRow → Judged
judge_topic min_grade r =
    if ltb (grade_rank r.grade) (grade_rank min_grade)
    then reject r.user_id "grade_insufficient"
    else elim r.personal_chat_id [
      | none ↦ reject r.user_id "recipient_not_linked"
      | some chat ↦
          if not r.bot_is_admin then reject r.user_id "bot_not_admin" else elim r.topic_id [
            | none ↦ reject r.user_id "recipient_topic_missing"
            | some topic ↦ accept (record {
              user_id = r.user_id;
              chat_id = chat;
              topic_id = topic;
              channel = "supergroup";
            })
          ]
    ]

unfoldable pub judge_all : (UserRow → Judged) → List UserRow → List Judged
judge_all judge [] = []
judge_all judge (r ∷ rows) = judge r ∷ judge_all judge rows

-- `BroadcastAllStrategy.Resolve` and `PgBroadcastResolver.ResolveBroadcast`.
unfoldable pub broadcast_strategy : Tables → Fault → Request → Resolved
unfolding judge_broadcast judge_all collect_all broadcast_query
broadcast_strategy t query_fails r = fails query_error
broadcast_strategy t fault r =
    let min_grade = normalize_grade r.min_grade in
    found (collect_all (judge_all (judge_broadcast min_grade) (broadcast_query t.users)))

-- `COALESCE((SELECT min_grade FROM apps WHERE id=$1), 'user')`.
unfoldable pub app_min_grade : Tables → String → Bytes
unfolding find_app
app_min_grade t app = elim (find_app app t.apps) [ none ↦ codes "user" | some a ↦ a.min_grade ]

-- `PgTopicResolver.ResolveTopic`.
unfoldable pub resolve_topic : Tables → Fault → String → Bytes → Resolved
unfolding judge_topic judge_all collect_all topic_query app_exists app_min_grade
resolve_topic t lookup_fails app min_grade = fails query_error
resolve_topic t query_fails app min_grade =
    if not (app_exists t app) then fails app_not_found else fails query_error
resolve_topic t sound app min_grade =
    let effective = max_grade (app_min_grade t app) min_grade in
    if not (app_exists t app)
    then fails app_not_found
    else found (collect_all (judge_all (judge_topic effective) (topic_query t app t.users)))

-- `TopicStrategy.Resolve`.
unfoldable pub topic_strategy : Tables → Fault → Request → Resolved
unfolding resolve_topic
topic_strategy t fault r =
    if str_eq r.app_id ""
    then fails app_not_found
    else resolve_topic t fault r.app_id (normalize_grade r.min_grade)
