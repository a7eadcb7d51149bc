-- ===== src/Admin/Tx/Keeps.antt =====
-- Invariants of the tables, committed and open, with a rule for each step and way to put them
-- together.
use telegram_server.Prelude.{ℕ, String, Bool, true, false, List, Option, none, some}
use telegram_server.Audit.Event.{Detail}
use telegram_server.Database.{Database}
use telegram_server.Admin.Tx.{
  Reply, works, fails, lost, Flow, Session, Attempt, done, stopped, Tx, continue, ◌>>=◌, pure,
  refuse, guard, receive, conclude, Statement, counted, effect, begin, begin_reply, commit,
  commit_reply, exec, exec_result, exec_reply, pool_exec, pool_result, pool_reply, query,
  query_reply, pool_query, when_some,
}

-- The open transaction, if there is one.
abbrev pub Open : (Database → Type 0) → Option Database → Type 0
Open P none = Unit
Open P (some db) = P db

abbrev pub Both : (Database → Type 0) → Session → Type 0
Both P s = P s.committed × Open P s.working

-- What a step leaves, whether it returns early or not.
abbrev pub Leaves : {A : Type 0} → (Database → Type 0) → Attempt A → Type 0
Leaves P (done a s) = Both P s
Leaves P (stopped r s) = Both P s

pub record Keeps {A : Type 0} (P : Database → Type 0) (m : Tx A) : Type 0 where
  pub at : (s : Session) → Both P s → Leaves P (m s)

-- A statement that a constraint forbids leaves nothing.
abbrev pub Allows : (Database → Type 0) → Option (Database × ℕ) → Type 0
Allows P none = Unit
Allows P (some (db, k)) = P db

module _ (P : Database → Type 0) where
  Leaves-begin :
      (flow : Flow) (r : Reply) (s : Session) → Both P s → Leaves P (begin_reply flow r s)
  unfolding begin_reply refuse
  Leaves-begin flow works s h = (h.0, h.0)
  Leaves-begin flow fails s h = h
  Leaves-begin flow lost s h = h

  Leaves-commit :
      (flow : Flow) (r : Reply) (o : Option Database) (s : Session)
      → P s.committed
      → Open P s.working
      → Open P o
      → Leaves P (commit_reply flow r o s)
  unfolding commit_reply refuse
  Leaves-commit flow works (some db) s c w h = (h, tt)
  Leaves-commit flow fails (some db) s c w h = (c, tt)
  Leaves-commit flow lost (some db) s c w h = (h, tt)
  Leaves-commit flow works none s c w h = (c, w)
  Leaves-commit flow fails none s c w h = (c, w)
  Leaves-commit flow lost none s c w h = (c, w)

  Leaves-exec_result :
      (flow : Flow) (code : String) (status : ℕ) (o : Option (Database × ℕ)) (s : Session)
      → Both P s
      → Allows P o
      → Leaves P (exec_result flow code status o s)
  unfolding exec_result refuse
  Leaves-exec_result flow code status none s h a = h
  Leaves-exec_result flow code status (some (db, k)) s h a = (h.0, a)

  Leaves-exec :
      (flow : Flow) (code : String) (status : ℕ) (f : Statement) (r : Reply) (o : Option Database)
      (s : Session)
      → Both P s
      → Open P o
      → ((db : Database) → P db → Allows P (f db))
      → Leaves P (exec_reply flow code status f r o s)
  unfolding exec_reply refuse
  Leaves-exec flow code status f works (some db) s h w k =
      Leaves-exec_result flow code status (f db) s h (k db w)
  Leaves-exec flow code status f works none s h w k = h
  Leaves-exec flow code status f fails o s h w k = h
  Leaves-exec flow code status f lost o s h w k = h

  Leaves-pool_result :
      (flow : Flow) (code : String) (status : ℕ) (o : Option (Database × ℕ)) (s : Session)
      → Both P s
      → Allows P o
      → Leaves P (pool_result flow code status o s)
  unfolding pool_result refuse
  Leaves-pool_result flow code status none s h a = h
  Leaves-pool_result flow code status (some (db, k)) s h a = (a, h.1)

  effect_allowed : (o : Option (Database × ℕ)) (db : Database) → P db → Allows P o → P (effect o db)
  effect_allowed none db h a = h
  effect_allowed (some (db', k)) db h a = a

  Leaves-pool :
      (flow : Flow) (code : String) (status : ℕ) (f : Statement) (r : Reply) (s : Session)
      → Both P s
      → ((db : Database) → P db → Allows P (f db))
      → Leaves P (pool_reply flow code status f r s)
  unfolding pool_reply refuse
  Leaves-pool flow code status f works s h k =
      Leaves-pool_result flow code status (f s.committed) s h (k s.committed h.0)
  Leaves-pool flow code status f fails s h k = h
  Leaves-pool flow code status f lost s h k =
      (effect_allowed (f s.committed) s.committed h.0 (k s.committed h.0), h.1)

  Leaves-query :
      {A : Type 0} (flow : Flow) (code : String) (status : ℕ) (f : Database → A) (r : Reply)
      (o : Option Database) (s : Session)
      → Both P s
      → Leaves P (query_reply flow code status f r o s)
  unfolding query_reply refuse
  Leaves-query flow code status f works (some db) s h = h
  Leaves-query flow code status f works none s h = h
  Leaves-query flow code status f fails o s h = h
  Leaves-query flow code status f lost o s h = h

module _ {P : Database → Type 0} where
  pub Keeps-pure : {A : Type 0} (a : A) → Keeps P (pure a)
  unfolding pure
  Keeps-pure a = record { at = λ s h. h }

  pub Keeps-refuse :
      {A : Type 0} (flow : Flow) (code : String) (status : ℕ)
      → Keeps P (refuse {A = A} flow code status)
  unfolding refuse
  Keeps-refuse flow code status = record { at = λ s h. h }

  pub Keeps-guard :
      (flow : Flow) (b : Bool) (code : String) (status : ℕ) → Keeps P (guard flow b code status)
  unfolding guard refuse
  Keeps-guard flow true code status = record { at = λ s h. h }
  Keeps-guard flow false code status = record { at = λ s h. h }

  pub Keeps-receive : (flow : Flow) → Keeps P (receive flow)
  unfolding receive
  Keeps-receive flow = record { at = λ s h. h }

  pub Keeps-conclude :
      (flow : Flow) (status : ℕ) (details fields : List (String × Detail))
      → Keeps P (conclude flow status details fields)
  unfolding conclude
  Keeps-conclude flow status details fields = record { at = λ s h. h }

  Leaves-bind :
      {A B : Type 0} (r : Attempt A) (f : A → Tx B)
      → Leaves P r
      → ((a : A) → Keeps P (f a))
      → Leaves P (continue r f)
  Leaves-bind (done a s) f h k = (k a).at s h
  Leaves-bind (stopped r s) f h k = h

  pub Keeps-bind :
      {A B : Type 0} (m : Tx A) (f : A → Tx B)
      → Keeps P m
      → ((a : A) → Keeps P (f a))
      → Keeps P (m >>= f)
  unfolding ◌>>=◌
  Keeps-bind m f km kf = record { at = λ s h. Leaves-bind (m s) f (km.at s h) kf }

  pub Keeps-begin : (flow : Flow) → Keeps P (begin flow)
  unfolding begin
  Keeps-begin flow = record { at = λ s h. Leaves-begin P flow (flow.fault s.made) (counted s) h }

  pub Keeps-commit : (flow : Flow) → Keeps P (commit flow)
  unfolding commit
  Keeps-commit flow = record {
    at = λ s h. Leaves-commit P flow (flow.fault s.made) s.working (counted s) h.0 h.1 h.1;
  }

  pub Keeps-exec :
      (flow : Flow) (code : String) (status : ℕ) (f : Statement)
      → ((db : Database) → P db → Allows P (f db))
      → Keeps P (exec flow code status f)
  unfolding exec
  Keeps-exec flow code status f k = record {
    at = λ s h. Leaves-exec P flow code status f (flow.fault s.made) s.working (counted s) h h.1 k;
  }

  pub Keeps-pool_exec :
      (flow : Flow) (code : String) (status : ℕ) (f : Statement)
      → ((db : Database) → P db → Allows P (f db))
      → Keeps P (pool_exec flow code status f)
  unfolding pool_exec
  Keeps-pool_exec flow code status f k = record {
    at = λ s h. Leaves-pool P flow code status f (flow.fault s.made) (counted s) h k;
  }

  pub Keeps-query :
      {A : Type 0} (flow : Flow) (code : String) (status : ℕ) (f : Database → A)
      → Keeps P (query flow code status f)
  unfolding query
  Keeps-query flow code status f = record {
    at = λ s h. Leaves-query P flow code status f (flow.fault s.made) s.working (counted s) h;
  }

  pub Keeps-pool_query :
      {A : Type 0} (flow : Flow) (code : String) (status : ℕ) (f : Database → A)
      → Keeps P (pool_query flow code status f)
  unfolding pool_query
  Keeps-pool_query flow code status f = record {
    at = λ s h.
        Leaves-query P flow code status f (flow.fault s.made) (some s.committed) (counted s) h;
  }

  pub Keeps-when_some :
      {A : Type 0} (o : Option A) (f : A → Tx ℕ)
      → ((a : A) → Keeps P (f a))
      → Keeps P (when_some o f)
  unfolding when_some
  Keeps-when_some none f k = Keeps-pure 0
  Keeps-when_some (some a) f k = k a

pub ruleset keeps_rules = (
  Keeps-pure, Keeps-refuse, Keeps-guard, Keeps-receive, Keeps-conclude, Keeps-bind, Keeps-begin,
  Keeps-commit, Keeps-query, Keeps-pool_query, Keeps-when_some,
)
