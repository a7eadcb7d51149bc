-- ===== src/Admin/Outcome/Steps.antt =====
-- The steps of a handler of the admin API that commit nothing, and its refusals.
use telegram_server.Prelude.{
  ℕ, suc, ◌≤◌, ◌<◌, ◌≡◌, ◌⊎◌, inl, refl, ap, ◌∙◌, String, Bool, true, false, List, [], ◌∷◌, Option,
  none, some, arith,
}
use telegram_server.Audit.Event.{Event, Detail, validated, delivered, denied}
use telegram_server.Api.Flow.{
  Effect, wrote, World, Response, write_error, event, write_audit_safe, deny,
}
use telegram_server.Database.{Database}
use telegram_server.Admin.Tx.{
  Reply, works, fails, lost, Flow, Session, Attempt, done, stopped, Tx, continue, ◌>>=◌, pure,
  refuse, guard, Statement, counted, begin, begin_reply, exec, exec_result, exec_reply, query,
  query_reply, pool_query, each, when_some,
}

-- A status that tells of an error.
pub record IsRefusal (status : ℕ) : Type 0 where
  pub least : 400 ≤ status

pub error_400 : IsRefusal 400
error_400 = record { least = omega arith }

pub error_403 : IsRefusal 403
error_403 = record { least = omega arith }

pub error_404 : IsRefusal 404
error_404 = record { least = omega arith }

pub error_409 : IsRefusal 409
error_409 = record { least = omega arith }

pub error_500 : IsRefusal 500
error_500 = record { least = omega arith }

-- A return with an error: one denied event and the answer tell its code, and the committed tables
-- are as they were, unless the reply to a statement was lost.
pub record Denied (flow : Flow) (db : Database) (before : List Effect) (r : Response) (s : Session)
    : Type 0 where
  pub code : String
  pub status : ℕ
  pub trail : s.world.trace ≡ wrote (record (event flow.base denied) { error_code = code }) ∷ before
  pub answer : r ≡ write_error status code
  pub error : IsRefusal status
  pub unchanged : (s.committed ≡ db) ⊎ ((n : ℕ) × (flow.fault n ≡ lost))

-- A success: no transaction is left open, and the trail ends with the delivery.
pub record Finished (flow : Flow) (before : List Effect) (r : Response) (s : Session) : Type 0 where
  pub details : List (String × Detail)
  pub trail :
      s.world.trace
      ≡ wrote (event flow.base delivered)
        ∷ wrote (record (event flow.base validated) { details = details })
        ∷ before
  pub succeeds : r.status < 300
  pub closed : s.working ≡ none

-- Before anything is committed.
pub record Calm (Working : Option Database → Type 0) (db : Database) (before : List Effect)
    (s : Session) : Type 0 where
  pub kept : s.committed ≡ db
  pub trail : s.world.trace ≡ before
  pub working : Working s.working

abbrev pub Any : Option Database → Type 0
Any o = Unit

abbrev pub Shut : Option Database → Type 0
Shut o = o ≡ none

abbrev pub Waits :
    {A : Type 0} → (Option Database → Type 0) → Flow → Database → List Effect → Attempt A → Type 0
Waits W flow db t (done a s) = Calm W db t s
Waits W flow db t (stopped r s) = Denied flow db t r s

-- A step that commits nothing.
pub record Quiet {A : Type 0} (W : Option Database → Type 0) (flow : Flow) (m : Tx A) : Type 0 where
  pub at : (s : Session) (db : Database) (t : List Effect) → Calm W db t s → Waits W flow db t (m s)

abbrev pub EndsWell : Flow → Database → List Effect → Attempt Response → Type 0
EndsWell flow db t (done r s) = Finished flow t r s
EndsWell flow db t (stopped r s) = Denied flow db t r s

-- The rest of a handler, from a point before anything is committed.
pub record Ends (W : Option Database → Type 0) (flow : Flow) (m : Tx Response) : Type 0 where
  pub at :
      (s : Session) (db : Database) (t : List Effect) → Calm W db t s → EndsWell flow db t (m s)

module _ {W : Option Database → Type 0} {flow : Flow} where
  Waits-bind :
      {A B : Type 0} (r : Attempt A) (f : A → Tx B) (db : Database) (t : List Effect)
      → Waits W flow db t r
      → ((a : A) → Quiet W flow (f a))
      → Waits W flow db t (continue r f)
  Waits-bind (done a s) f db t h k = (k a).at s db t h
  Waits-bind (stopped r s) f db t h k = h

  pub Quiet-bind :
      {A B : Type 0} (m : Tx A) (f : A → Tx B)
      → Quiet W flow m
      → ((a : A) → Quiet W flow (f a))
      → Quiet W flow (m >>= f)
  unfolding ◌>>=◌
  Quiet-bind m f km kf = record { at = λ s db t h. Waits-bind (m s) f db t (km.at s db t h) kf }

  EndsWell-bind :
      {A : Type 0} (r : Attempt A) (f : A → Tx Response) (db : Database) (t : List Effect)
      → Waits W flow db t r
      → ((a : A) → Ends W flow (f a))
      → EndsWell flow db t (continue r f)
  EndsWell-bind (done a s) f db t h k = (k a).at s db t h
  EndsWell-bind (stopped r s) f db t h k = h

  pub Ends-bind :
      {A : Type 0} (m : Tx A) (f : A → Tx Response)
      → Quiet W flow m
      → ((a : A) → Ends W flow (f a))
      → Ends W flow (m >>= f)
  unfolding ◌>>=◌
  Ends-bind m f km kf = record { at = λ s db t h. EndsWell-bind (m s) f db t (km.at s db t h) kf }

  pub Quiet-pure : {A : Type 0} (a : A) → Quiet W flow (pure a)
  unfolding pure
  Quiet-pure a = record { at = λ s db t h. h }

-- A writer that stores every event.
pub record IsStoring (flow : Flow) : Type 0 where
  pub ok : ℕ → Bool
  pub audited : flow.env.audit ≡ some ok
  pub stores : (n : ℕ) → ok n ≡ true

module _ (flow : Flow) (storing : IsStoring flow) where
  pub stored :
      (w : World) (e : Event)
      → (write_audit_safe flow.env w e).0
        ≡ record w { trace = wrote e ∷ w.trace; writes = suc w.writes }
  unfolding write_audit_safe
  stored w e = rw (storing.audited, storing.stores w.writes) refl

  -- What a refusal leaves, from a session whose committed tables are accounted for.
  pub refusal :
      (code : String) (status : ℕ) (s : Session) (db : Database) (t : List Effect)
      → IsRefusal status
      → s.world.trace ≡ t
      → (s.committed ≡ db) ⊎ ((n : ℕ) × (flow.fault n ≡ lost))
      → let denial = deny flow.env flow.base s.world code status in
        Denied flow db t denial.1 (record s { world = denial.0 })
  unfolding deny
  refusal code status s db t i e k = record {
    code = code;
    status = status;
    trail =
        ap (λ v. v.trace) (stored s.world (record (event flow.base denied) { error_code = code }))
        ∙ ap (λ l. wrote (record (event flow.base denied) { error_code = code }) ∷ l) e;
    answer = refl;
    error = i;
    unchanged = k;
  }

  -- A refusal while nothing is committed.
  pub denial_before :
      {V : Option Database → Type 0} (code : String) (status : ℕ) (s : Session) (db : Database)
      (t : List Effect)
      → IsRefusal status
      → Calm V db t s
      → let denial = deny flow.env flow.base s.world code status in
        Denied flow db t denial.1 (record s { world = denial.0 })
  denial_before code status s db t i h = refusal code status s db t i h.trail (inl h.kept)

  pub Quiet-refuse :
      {A : Type 0} {W : Option Database → Type 0} (code : String) (status : ℕ)
      → IsRefusal status
      → Quiet {A = A} W flow (refuse flow code status)
  unfolding refuse
  Quiet-refuse code status i = record { at = λ s db t h. denial_before code status s db t i h }

  pub Ends-refuse :
      {W : Option Database → Type 0} (code : String) (status : ℕ)
      → IsRefusal status
      → Ends W flow (refuse flow code status)
  unfolding refuse
  Ends-refuse code status i = record {
    at = λ s db t h. refusal code status s db t i h.trail (inl h.kept);
  }

  pub Quiet-guard :
      {W : Option Database → Type 0} (b : Bool) (code : String) (status : ℕ)
      → IsRefusal status
      → Quiet W flow (guard flow b code status)
  unfolding guard
  Quiet-guard true code status i = record { at = λ s db t h. h }
  Quiet-guard false code status i = Quiet-refuse code status i

  Waits-begin :
      (r : Reply) (s : Session) (db : Database) (t : List Effect)
      → Calm Any db t s
      → Waits Any flow db t (begin_reply flow r s)
  unfolding begin_reply refuse
  Waits-begin works s db t h = record { kept = h.kept; trail = h.trail; working = tt }
  Waits-begin fails s db t h = denial_before "db_error" 500 s db t error_500 h
  Waits-begin lost s db t h = denial_before "db_error" 500 s db t error_500 h

  -- Counting a statement changes nothing else.
  pub recount :
      {W : Option Database → Type 0} (s : Session) (db : Database) (t : List Effect)
      → Calm W db t s
      → Calm W db t (counted s)
  recount s db t h = record { kept = h.kept; trail = h.trail; working = h.working }

  pub Quiet-begin : Quiet Any flow (begin flow)
  unfolding begin
  Quiet-begin = record {
    at = λ s db t h. Waits-begin (flow.fault s.made) (counted s) db t (recount s db t h);
  }

  Waits-exec_result :
      (code : String) (status : ℕ) (o : Option (Database × ℕ)) (s : Session) (db : Database)
      (t : List Effect)
      → IsRefusal status
      → Calm Any db t s
      → Waits Any flow db t (exec_result flow code status o s)
  unfolding exec_result refuse
  Waits-exec_result code status none s db t i h = denial_before code status s db t i h
  Waits-exec_result code status (some (d, k)) s db t i h = record {
    kept = h.kept;
    trail = h.trail;
    working = tt;
  }

  Waits-exec :
      (code : String) (status : ℕ) (f : Statement) (r : Reply) (o : Option Database) (s : Session)
      (db : Database) (t : List Effect)
      → IsRefusal status
      → Calm Any db t s
      → Waits Any flow db t (exec_reply flow code status f r o s)
  unfolding exec_reply refuse
  Waits-exec code status f works (some d) s db t i h =
      Waits-exec_result code status (f d) s db t i h
  Waits-exec code status f works none s db t i h = denial_before code status s db t i h
  Waits-exec code status f fails o s db t i h = denial_before code status s db t i h
  Waits-exec code status f lost o s db t i h = denial_before code status s db t i h

  pub Quiet-exec :
      (code : String) (status : ℕ) (f : Statement)
      → IsRefusal status
      → Quiet Any flow (exec flow code status f)
  unfolding exec
  Quiet-exec code status f i = record {
    at = λ s db t h.
        Waits-exec code status f (flow.fault s.made) s.working (counted s) db t i
          (recount s db t h);
  }

  Waits-query :
      {A : Type 0} {W : Option Database → Type 0} (code : String) (status : ℕ) (f : Database → A)
      (r : Reply) (o : Option Database) (s : Session) (db : Database) (t : List Effect)
      → IsRefusal status
      → Calm W db t s
      → Waits W flow db t (query_reply flow code status f r o s)
  unfolding query_reply refuse
  Waits-query code status f works (some d) s db t i h = h
  Waits-query code status f works none s db t i h = denial_before code status s db t i h
  Waits-query code status f fails o s db t i h = denial_before code status s db t i h
  Waits-query code status f lost o s db t i h = denial_before code status s db t i h

  pub Quiet-query :
      {A : Type 0} {W : Option Database → Type 0} (code : String) (status : ℕ) (f : Database → A)
      → IsRefusal status
      → Quiet W flow (query flow code status f)
  unfolding query
  Quiet-query code status f i = record {
    at = λ s db t h.
        Waits-query code status f (flow.fault s.made) s.working (counted s) db t i
          (recount s db t h);
  }

  pub Quiet-pool_query :
      {A : Type 0} {W : Option Database → Type 0} (code : String) (status : ℕ) (f : Database → A)
      → IsRefusal status
      → Quiet W flow (pool_query flow code status f)
  unfolding pool_query
  Quiet-pool_query code status f i = record {
    at = λ s db t h.
        Waits-query code status f (flow.fault s.made) (some s.committed) (counted s) db t i
          (recount s db t h);
  }

module _ {W : Option Database → Type 0} {flow : Flow} where
  pub Quiet-each :
      (f : String → Tx ℕ) (cs : List String)
      → ((c : String) → Quiet W flow (f c))
      → Quiet W flow (each f cs)
  unfolding each
  Quiet-each f [] k = Quiet-pure tt
  Quiet-each f (c ∷ cs) k = Quiet-bind (f c) (λ _. each f cs) (k c) (λ _. Quiet-each f cs k)

  pub Quiet-when_some :
      {A : Type 0} (o : Option A) (f : A → Tx ℕ)
      → ((a : A) → Quiet W flow (f a))
      → Quiet W flow (when_some o f)
  unfolding when_some
  Quiet-when_some none f k = Quiet-pure 0
  Quiet-when_some (some a) f k = k a

pub ruleset quiet_rules = (
  Quiet-bind, Ends-bind, Quiet-pure, Quiet-refuse, Ends-refuse, Quiet-guard, Quiet-begin,
  Quiet-exec, Quiet-query, Quiet-pool_query, error_400, error_403, error_404, error_409, error_500,
  Quiet-each, Quiet-when_some,
)
