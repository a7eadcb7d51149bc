-- ===== src/Admin/Tx.antt =====
-- The steps of a handler of the admin API: its statements on the database, in a transaction or on the
-- pool, its audit events, and its early returns. A session holds the committed tables, those of the
-- open transaction, and the audit trail. `fault n` says how the n-th statement of the request ends.
pub mod Keeps
use telegram_server.Prelude.{ℕ, suc, String, Bool, true, false, List, [], ◌∷◌, Option, none, some}
use telegram_server.Audit.Event.{Event, Detail}
use telegram_server.Database.{Database}
use telegram_server.Api.Flow.{Env, World, Response, fields_body, deny, note_received, succeed}

-- How a statement ends; where `lost`, the database carries it out and the reply does not arrive.
pub data Reply : Type 0 where
  works fails lost : Reply

-- `auditFlow`, with the writer, the base event, and the ends of the statements.
pub record Flow : Type 0 where
  pub env : Env
  pub base : Event
  pub fault : ℕ → Reply

pub record Session : Type 0 where
  pub committed : Database
  pub working : Option Database
  pub world : World
  pub made : ℕ

-- `stopped` is a `return` of the handler, with the answer that it has written.
pub data Attempt (A : Type 0) : Type 0 where
  done : A → Session → Attempt A
  stopped : Response → Session → Attempt A

abbrev pub Tx : Type 0 → Type 0
Tx A = Session → Attempt A

module _ {A B : Type 0} where
  abbrev pub continue : Attempt A → (A → Tx B) → Attempt B
  continue (done a s) f = f a s
  continue (stopped r s) f = stopped r s

  infixl 5 ◌>>=◌ ◌>>◌
  unfoldable pub ◌>>=◌ : Tx A → (A → Tx B) → Tx B
  ◌>>=◌ m f s = continue (m s) f

  abbrev pub ◌>>◌ : Tx A → Tx B → Tx B
  m >> k = m >>= λ _. k

unfoldable pub pure : {A : Type 0} → A → Tx A
pure a s = done a s

-- `flow.deny(code, status); return`.
unfoldable pub refuse : {A : Type 0} → Flow → String → ℕ → Tx A
unfolding deny
refuse flow code status s =
    let denial = deny flow.env flow.base s.world code status in
    stopped denial.1 (record s { world = denial.0 })

-- A test that is refused when it fails.
unfoldable pub guard : Flow → Bool → String → ℕ → Tx (Unit {0})
unfolding refuse
guard flow true code status = λ s. done tt s
guard flow false code status = refuse flow code status

-- `flow.received()`.
unfoldable pub receive : Flow → Tx (Unit {0})
unfolding note_received
receive flow s = done tt (record s { world = note_received flow.env flow.base s.world })

-- `flow.succeed(details); writeJSON(w, status, fields)`.
unfoldable pub conclude : Flow → ℕ → List (String × Detail) → List (String × Detail) → Tx Response
unfolding succeed
conclude flow status details fields s =
    done (record { status = status; body = fields_body fields })
      (record s { world = succeed flow.env flow.base s.world details })

abbrev pub Statement : Type 0
Statement = Database → Option (Database × ℕ)

abbrev pub counted : Session → Session
counted s = record s { made = suc s.made }

-- What a statement that is carried out makes of the tables; a constraint may forbid it.
abbrev pub effect : Option (Database × ℕ) → Database → Database
effect none db = db
effect (some (db', k)) db = db'

-- `h.Pool.Begin(ctx)`.
unfoldable pub begin_reply : Flow → Reply → Tx ℕ
unfolding refuse
begin_reply flow works s = done 0 (record s { working = some s.committed })
begin_reply flow fails s = refuse flow "db_error" 500 s
begin_reply flow lost s = refuse flow "db_error" 500 s

unfoldable pub begin : Flow → Tx ℕ
unfolding begin_reply
begin flow s = begin_reply flow (flow.fault s.made) (counted s)

-- `tx.Commit(ctx)`; a closed transaction cannot be committed.
unfoldable pub commit_reply : Flow → Reply → Option Database → Tx ℕ
unfolding refuse
commit_reply flow works (some db) s = done 0 (record s { committed = db; working = none })
commit_reply flow fails (some db) s = refuse flow "db_error" 500 (record s { working = none })
commit_reply flow lost (some db) s =
    refuse flow "db_error" 500 (record s { committed = db; working = none })
commit_reply flow r none s = refuse flow "db_error" 500 s

unfoldable pub commit : Flow → Tx ℕ
unfolding commit_reply
commit flow s = commit_reply flow (flow.fault s.made) s.working (counted s)

-- `tx.Exec`, with the rows affected, and the refusal where it reports an error; a closed
-- transaction reports one.
unfoldable pub exec_result : Flow → String → ℕ → Option (Database × ℕ) → Tx ℕ
unfolding refuse
exec_result flow code status none s = refuse flow code status s
exec_result flow code status (some (db, k)) s = done k (record s { working = some db })

unfoldable pub exec_reply : Flow → String → ℕ → Statement → Reply → Option Database → Tx ℕ
unfolding exec_result refuse
exec_reply flow code status f works (some db) s = exec_result flow code status (f db) s
exec_reply flow code status f fails o s = refuse flow code status s
exec_reply flow code status f lost o s = refuse flow code status s
exec_reply flow code status f works none s = refuse flow code status s

unfoldable pub exec : Flow → String → ℕ → Statement → Tx ℕ
unfolding exec_reply
exec flow code status f s = exec_reply flow code status f (flow.fault s.made) s.working (counted s)

-- `h.Pool.Exec`: a statement that commits by itself.
unfoldable pub pool_result : Flow → String → ℕ → Option (Database × ℕ) → Tx ℕ
unfolding refuse
pool_result flow code status none s = refuse flow code status s
pool_result flow code status (some (db, k)) s = done k (record s { committed = db })

unfoldable pub pool_reply : Flow → String → ℕ → Statement → Reply → Tx ℕ
unfolding pool_result refuse
pool_reply flow code status f works s = pool_result flow code status (f s.committed) s
pool_reply flow code status f fails s = refuse flow code status s
pool_reply flow code status f lost s =
    refuse flow code status (record s { committed = effect (f s.committed) s.committed })

unfoldable pub pool_exec : Flow → String → ℕ → Statement → Tx ℕ
unfolding pool_reply
pool_exec flow code status f s = pool_reply flow code status f (flow.fault s.made) (counted s)

-- `tx.QueryRow` and `h.Pool.QueryRow`.
unfoldable pub query_reply :
    {A : Type 0} → Flow → String → ℕ → (Database → A) → Reply → Option Database → Tx A
unfolding refuse
query_reply flow code status f works (some db) s = done (f db) s
query_reply flow code status f fails o s = refuse flow code status s
query_reply flow code status f lost o s = refuse flow code status s
query_reply flow code status f works none s = refuse flow code status s

unfoldable pub query : {A : Type 0} → Flow → String → ℕ → (Database → A) → Tx A
unfolding query_reply
query flow code status f s =
    query_reply flow code status f (flow.fault s.made) s.working (counted s)

unfoldable pub pool_query : {A : Type 0} → Flow → String → ℕ → (Database → A) → Tx A
unfolding query_reply
pool_query flow code status f s =
    query_reply flow code status f (flow.fault s.made) (some s.committed) (counted s)

-- A loop of statements over a list.
unfoldable pub each : (String → Tx ℕ) → List String → Tx (Unit {0})
unfolding pure ◌>>=◌
each f [] = pure tt
each f (c ∷ cs) = do f c; each f cs

-- A statement that runs only when a field of the request is present.
unfoldable pub when_some : {A : Type 0} → Option A → (A → Tx ℕ) → Tx ℕ
unfolding pure
when_some none f = pure 0
when_some (some a) f = f a
