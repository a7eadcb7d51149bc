-- ===== src/Admin/Outcome/Finish.antt =====
-- The last steps of a handler of the admin API: what it commits, and its success.
use telegram_server.Prelude.{
  ℕ, zero, suc, ◌<◌, ◌==◌, not, ◌≡◌, inl, inr, refl, sym, ap, ◌∙◌, String, false, List, ◌∷◌, Option,
  none, some, arith,
}
use mathlib.Core.Path.{subst}
use telegram_server.Audit.Event.{Detail, received, validated, delivered}
use telegram_server.Api.Flow.{
  Effect, wrote, Response, event, write_audit_safe, succeed, note_received,
}
use telegram_server.Database.{Database}
use telegram_server.Admin.Tx.{
  Reply, works, fails, lost, Flow, Session, Tx, continue, ◌>>=◌, refuse, guard, receive, conclude,
  Statement, counted, effect, commit, commit_reply, pool_exec, pool_result, pool_reply,
}
use telegram_server.Admin.Outcome.Steps.{
  IsRefusal, error_500, Calm, Any, Shut, EndsWell, Ends, IsStoring, stored, refusal, denial_before,
  recount,
}

module _ (flow : Flow) (storing : IsStoring flow) where
  -- A success of a session whose transaction is closed.
  conclude-EndsWell :
      (status : ℕ) (details fields : List (String × Detail)) (s : Session) (db : Database)
      (t : List Effect)
      → status < 300
      → s.world.trace ≡ t
      → s.working ≡ none
      → EndsWell flow db t (conclude flow status details fields s)
  unfolding conclude succeed
  conclude-EndsWell status details fields s db t small e w =
      let checked = record (event flow.base validated) { details = details } in
      let after = (write_audit_safe flow.env s.world checked).0 in
      record {
        details = details;
        trail =
            ap (λ v. v.trace) (stored flow storing after (event flow.base delivered))
            ∙ ap (λ v. wrote (event flow.base delivered) ∷ v.trace)
                (stored flow storing s.world checked)
            ∙ ap (λ l. wrote (event flow.base delivered) ∷ wrote checked ∷ l) e;
        succeeds = small;
        closed = w;
      }

  EndsWell-commit :
      (status : ℕ) (details fields : List (String × Detail)) (r : Reply) (o : Option Database)
      (s : Session) (db : Database) (t : List Effect) (n : ℕ)
      → status < 300
      → flow.fault n ≡ r
      → Calm Any db t s
      → EndsWell flow db t
          (continue (commit_reply flow r o s) (λ _. conclude flow status details fields))
  unfolding commit_reply refuse
  EndsWell-commit status details fields works (some d) s db t n small e h =
      conclude-EndsWell status details fields (record s { committed = d; working = none }) db t
        small h.trail refl
  EndsWell-commit status details fields works none s db t n small e h =
      refusal flow storing "db_error" 500 s db t error_500 h.trail (inl h.kept)
  EndsWell-commit status details fields fails (some d) s db t n small e h =
      refusal flow storing "db_error" 500 (record s { working = none }) db t error_500 h.trail
        (inl h.kept)
  EndsWell-commit status details fields fails none s db t n small e h =
      refusal flow storing "db_error" 500 s db t error_500 h.trail (inl h.kept)
  EndsWell-commit status details fields lost (some d) s db t n small e h =
      refusal flow storing "db_error" 500 (record s { committed = d; working = none }) db t
        error_500 h.trail (inr (n, e))
  EndsWell-commit status details fields lost none s db t n small e h =
      refusal flow storing "db_error" 500 s db t error_500 h.trail (inl h.kept)

  -- The end of a handler with a transaction.
  pub Ends-commit :
      (status : ℕ) (details fields : List (String × Detail))
      → status < 300
      → Ends Any flow (commit flow >>= λ _. conclude flow status details fields)
  unfolding commit ◌>>=◌
  Ends-commit status details fields small = record {
    at = λ s db t h.
        EndsWell-commit status details fields (flow.fault s.made) s.working (counted s) db t s.made
          small refl (recount flow storing s db t h);
  }

  pub Ends-conclude :
      (status : ℕ) (details fields : List (String × Detail))
      → status < 300
      → Ends Shut flow (conclude flow status details fields)
  Ends-conclude status details fields small = record {
    at = λ s db t h. conclude-EndsWell status details fields s db t small h.trail h.working;
  }

  -- A statement on the pool, by what follows when it is carried out.
  EndsWell-pool_result :
      (code : String) (status : ℕ) (g : ℕ → Tx Response) (o : Option (Database × ℕ)) (s : Session)
      (db : Database) (t : List Effect)
      → IsRefusal status
      → Calm Shut db t s
      → ((d : Database) (k : ℕ) (s' : Session)
          → o ≡ some (d, k)
          → Calm Shut d t s'
          → EndsWell flow db t (g k s'))
      → EndsWell flow db t (continue (pool_result flow code status o s) g)
  unfolding pool_result refuse
  EndsWell-pool_result code status g none s db t i h next =
      denial_before flow storing code status s db t i h
  EndsWell-pool_result code status g (some (d, k)) s db t i h next =
      next d k (record s { committed = d }) refl
        (record { kept = refl; trail = h.trail; working = h.working })

  EndsWell-pool :
      (code : String) (status : ℕ) (f : Statement) (g : ℕ → Tx Response) (r : Reply) (n : ℕ)
      (s : Session) (db : Database) (t : List Effect)
      → IsRefusal status
      → flow.fault n ≡ r
      → Calm Shut db t s
      → ((d : Database) (k : ℕ) (s' : Session)
          → f s.committed ≡ some (d, k)
          → Calm Shut d t s'
          → EndsWell flow db t (g k s'))
      → EndsWell flow db t (continue (pool_reply flow code status f r s) g)
  unfolding pool_reply refuse
  EndsWell-pool code status f g works n s db t i e h next =
      EndsWell-pool_result code status g (f s.committed) s db t i h next
  EndsWell-pool code status f g fails n s db t i e h next =
      denial_before flow storing code status s db t i h
  EndsWell-pool code status f g lost n s db t i e h next =
      refusal flow storing code status (record s { committed = effect (f s.committed) s.committed })
        db t i h.trail (inr (n, e))

  pub Ends-pool_exec :
      (code : String) (status : ℕ) (f : Statement) (g : ℕ → Tx Response)
      → IsRefusal status
      → ((db d : Database) (k : ℕ) (t : List Effect) (s : Session)
          → f db ≡ some (d, k)
          → Calm Shut d t s
          → EndsWell flow db t (g k s))
      → Ends Shut flow (pool_exec flow code status f >>= g)
  unfolding pool_exec ◌>>=◌
  Ends-pool_exec code status f g i next = record {
    at = λ s db t h.
        EndsWell-pool code status f g (flow.fault s.made) s.made (counted s) db t i refl
          (recount flow storing s db t h)
          (λ d k s' e c. next db d k t s' (ap f (sym h.kept) ∙ e) c);
  }

  -- A handler that ends with its only statement.
  pub Ends-last :
      (code : String) (status : ℕ) (f : Statement) (answer : ℕ)
      (details fields : List (String × Detail))
      → IsRefusal status
      → answer < 300
      → Ends Shut flow (pool_exec flow code status f >>= λ _. conclude flow answer details fields)
  Ends-last code status f answer details fields i small =
      Ends-pool_exec code status f (λ _. conclude flow answer details fields) i
        (λ db d k t s e c. conclude-EndsWell answer details fields s db t small c.trail c.working)

  affected-EndsWell :
      (code : String) (status answer : ℕ) (details fields : List (String × Detail)) (k : ℕ)
      (db d : Database) (t : List Effect) (s : Session)
      → IsRefusal status
      → answer < 300
      → (k ≡ 0 → d ≡ db)
      → Calm Shut d t s
      → EndsWell flow db t
          ((guard flow (not (k == 0)) code status >>= λ _. conclude flow answer details fields) s)
  unfolding guard refuse ◌>>=◌
  affected-EndsWell code status answer details fields zero db d t s i small same c =
      refusal flow storing code status s db t i c.trail (inl (c.kept ∙ same refl))
  affected-EndsWell code status answer details fields (suc k) db d t s i small same c =
      let some_rows : (suc k == 0) ≡ false = ground arith in
      subst
        (λ b.
          EndsWell flow db t
            ((guard flow (not b) code status >>= λ _. conclude flow answer details fields) s))
        (sym some_rows) (conclude-EndsWell answer details fields s db t small c.trail c.working)

  -- A handler whose only statement must affect a row; one that affects none changes nothing.
  pub Ends-affected :
      (code : String) (status : ℕ) (f : Statement) (code' : String) (status' answer : ℕ)
      (details fields : List (String × Detail))
      → IsRefusal status
      → IsRefusal status'
      → answer < 300
      → ((db d : Database) → f db ≡ some (d, 0) → d ≡ db)
      → Ends Shut flow (
          pool_exec flow code status f >>= λ n.
          guard flow (not (n == 0)) code' status' >>= λ _. conclude flow answer details fields)
  Ends-affected code status f code' status' answer details fields i i' small same =
      Ends-pool_exec code status f
        (λ n. guard flow (not (n == 0)) code' status' >>= λ _. conclude flow answer details fields)
        i
        (λ db d k t s e c.
          affected-EndsWell code' status' answer details fields k db d t s i' small
            (λ z. same db d (e ∙ ap (λ n. some (d, n)) z)) c)

-- The received event comes before the rest of a handler.
pub receive-EndsWell :
    (W : Option Database → Type 0) (flow : Flow) (rest : Tx Response) (s : Session) (db : Database)
    (t : List Effect)
    → IsStoring flow
    → Ends W flow rest
    → Calm W db t s
    → EndsWell flow db (wrote (event flow.base received) ∷ t) ((receive flow >>= λ _. rest) s)
unfolding receive note_received ◌>>=◌
receive-EndsWell W flow rest s db t storing ends h =
    ends.at _ db (wrote (event flow.base received) ∷ t) (record {
      kept = h.kept;
      trail =
          ap (λ v. v.trace) (stored flow storing s.world (event flow.base received))
          ∙ ap (λ l. wrote (event flow.base received) ∷ l) h.trail;
      working = h.working;
    })
