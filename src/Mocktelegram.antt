-- ===== src/Mocktelegram.antt =====
-- internal/mocktelegram/server.go: its state and what a request to /bot<token>/<method> and the
-- /test endpoints do to it. Each step runs under the server's mutex. A long poll that waits is left
-- out: `getUpdates` here returns what the queue holds.
pub mod Recording
use telegram_server.Prelude.{
  ℕ, suc, ◌+◌, Bool, true, false, not, ◌&&◌, ◌||◌, List, [], ◌∷◌, ◌++◌, Option, none, some, Bytes,
  codes, bytes_eq, length, drop, take, leb, ◌==◌, if◌then◌else◌,
}
use telegram_server.Auth.Bearer.{after_prefix, index_byte}

abbrev pub max_recorded_calls : ℕ
max_recorded_calls = 2048

abbrev pub max_queued_updates : ℕ
max_queued_updates = 1024

pub record Call : Type 0 where
  pub method : Bytes
  pub token : Bytes
  pub body : Bytes

-- An update: the id that the server gave it, and the rest of its JSON object.
pub record Update : Type 0 where
  pub update_id : ℕ
  pub object : Bytes

pub record Server : Type 0 where
  pub calls : List Call
  pub dropped : ℕ
  pub msg_seq : ℕ
  pub topic_seq : ℕ
  pub update_seq : ℕ
  pub queue : List Update

abbrev pub new_server : Server
new_server = record {
  calls = [];
  dropped = 0;
  msg_seq = 0;
  topic_seq = 0;
  update_seq = 0;
  queue = [];
}

-- The shift of a full window by one, or the append.
unfoldable pub push {ℓ} : {A : Type ℓ} → ℕ → A → List A → List A
push bound x xs = if leb bound (length xs) then drop 1 xs ++ x ∷ [] else xs ++ x ∷ []

-- `record`.
unfoldable pub record_call : Bytes → Bytes → Bytes → Server → Server
unfolding push
record_call token method body s =
    let call : Call = record { method = method; token = token; body = body } in
    record s {
      calls = push max_recorded_calls call s.calls;
      dropped = if leb max_recorded_calls (length s.calls) then suc s.dropped else s.dropped;
    }

unfoldable pub calls_for_method : Bytes → List Call → List Call
unfolding bytes_eq
calls_for_method method [] = []
calls_for_method method (c ∷ cs) =
    let rest = calls_for_method method cs in if bytes_eq c.method method then c ∷ rest else rest

unfoldable pub reset : Server → Server
reset s = record s { calls = []; dropped = 0 }

-- How `Inject` ends.
pub data Injection : Type 0 where
  queued panicked : Injection

-- `Inject`, for the object that the body holds, or an empty one; `none` is the body `null`, which
-- decodes to a nil map: the number is drawn, and the assignment to the map then panics.
unfoldable pub inject : Option Bytes → Server → Server × Injection
unfolding push
inject none s = (record s { update_seq = suc s.update_seq }, panicked)
inject (some object) s =
    let id = suc s.update_seq in
    let update : Update = record { update_id = id; object = object } in
    (record s { update_seq = id; queue = push max_queued_updates update s.queue }, queued)

unfoldable pub drain_queue : Server → Server × List Update
drain_queue s = (record s { queue = [] }, s.queue)

pub data Reply : Type 0 where
  identity done administrators not_found : Reply
  message_id message_thread_id : ℕ → Reply
  updates : List Update → Reply

-- The token and the method of a path.
unfoldable pub split_at : Bytes → Option ℕ → Option (Bytes × Bytes)
split_at rest none = none
split_at rest (some slash) =
    if (slash == 0) || (slash + 1 == length rest)
    then none
    else some (take slash rest, drop (slash + 1) rest)

unfoldable pub split_rest : Option Bytes → Option (Bytes × Bytes)
unfolding split_at index_byte
split_rest none = none
split_rest (some rest) = split_at rest (index_byte b'/' rest)

-- The `switch` over the methods.
unfoldable pub answer : Bytes → Server → Server × Reply
unfolding drain_queue bytes_eq
answer method s =
    if bytes_eq method (codes "sendMessage")
    then (record s { msg_seq = suc s.msg_seq }, message_id (suc s.msg_seq))
    else if bytes_eq method (codes "getMe")
    then (s, identity)
    else if bytes_eq method (codes "getUpdates")
    then ((drain_queue s).0, updates (drain_queue s).1)
    else if bytes_eq method (codes "createForumTopic")
    then (record s { topic_seq = suc s.topic_seq }, message_thread_id (suc s.topic_seq + 100))
    else if bytes_eq method (codes "closeForumTopic") || bytes_eq method (codes "banChatMember")
    then (s, done)
    else if bytes_eq method (codes "getChatAdministrators")
    then (s, administrators)
    else (s, not_found)

unfoldable pub serve_split : Option (Bytes × Bytes) → Bytes → Server → Server × Reply
unfolding record_call answer
serve_split none body s = (s, not_found)
serve_split (some (token, method)) body s = answer method (record_call token method body s)

-- `serve` on a path that is none of the /test endpoints.
unfoldable pub serve : Bytes → Bytes → Server → Server × Reply
unfolding serve_split split_rest after_prefix
serve path body s = serve_split (split_rest (after_prefix (codes "/bot") path)) body s
