-- ===== src/Audit/Writer.antt =====
-- internal/audit/writer.go and migrations/0007_audit_hash_chain.up.sql: the audit_log table as its
-- rows in order of insertion, and the statement that links a new row to the newest one. The hash
-- and the serialization `audit_chain_payload` of the stored columns are parameters. A write runs
-- alone, under the advisory lock; `outcome` says which of its database calls fails. A transaction
-- that does not commit leaves no row but may use up an id; where Commit itself reports an error, as
-- when the connection breaks, the outcome also says whether the database committed the row.
pub mod Linkage
use telegram_server.Prelude.{
  ℕ, suc, String, Bool, true, false, List, [], ◌∷◌, ◌++◌, map, Option, none, some, Bytes, ltb, ◌==◌,
  str_eq, if◌then◌else◌,
}
use telegram_server.Audit.Event.{
  Stage, received, validated, dispatched, delivered, denied, retried, deferred, intrusion_kick,
  intrusion_unmitigated, bot_not_admin, telegram_auth_failed, key_issued, key_revoked, Detail,
  Event,
}
use telegram_server.Audit.Chain.{ChainRow, Fetch, row, genesis_hash, compute_row_hash}

abbrev pub stage_name : Stage → String
stage_name received = "received"
stage_name validated = "validated"
stage_name dispatched = "dispatched"
stage_name delivered = "delivered"
stage_name denied = "denied"
stage_name retried = "retried"
stage_name deferred = "deferred"
stage_name intrusion_kick = "intrusion_kick"
stage_name intrusion_unmitigated = "intrusion_unmitigated"
stage_name bot_not_admin = "bot_not_admin"
stage_name telegram_auth_failed = "telegram_auth_failed"
stage_name key_issued = "key_issued"
stage_name key_revoked = "key_revoked"

-- The columns of an audit_log row that its payload covers; `none` is NULL.
pub record Columns : Type 0 where
  pub at : ℕ
  pub trace_id : Option String
  pub message_id : Option String
  pub stage : String
  pub app_id : Option String
  pub capability : Option String
  pub capability_set_ver : Option ℕ
  pub endpoint : Option String
  pub route_strategy : Option String
  pub delivery_channel : Option String
  pub recipient_user_id : Option ℕ
  pub recipient_chat_id : Option ℕ
  pub error_code : Option String
  pub details_json : List (String × Detail)

pub record AuditRow : Type 0 where
  pub id : ℕ
  pub columns : Columns
  pub prev_hash : Bytes
  pub row_hash : Bytes

pub record AuditTable : Type 0 where
  pub rows : List AuditRow
  pub next_id : ℕ

pub data Outcome : Type 0 where
  commits marshal_fails begin_fails lock_fails insert_fails : Outcome
  commit_fails : (landed : Bool) → Outcome

-- `NULLIF($n::text, '')` and `NULLIF($n::bigint, 0)`.
pub nullif_text : String → Option String
nullif_text s = if str_eq s "" then none else some s

pub nullif_num : ℕ → Option ℕ
nullif_num n = if n == 0 then none else some n

-- The `v` rows of the statement; `COALESCE($1, now())` for a zero time.
pub columns_of : ℕ → Event → Columns
unfolding nullif_text nullif_num
columns_of now e = record {
  at = if e.at == 0 then now else e.at;
  trace_id = nullif_text e.trace_id;
  message_id = nullif_text e.message_id;
  stage = stage_name e.stage;
  app_id = nullif_text e.app_id;
  capability = nullif_text e.capability;
  capability_set_ver = nullif_num e.capability_set_ver;
  endpoint = nullif_text e.endpoint;
  route_strategy = nullif_text e.route_strategy;
  delivery_channel = nullif_text e.delivery_channel;
  recipient_user_id = nullif_num e.recipient_user_id;
  recipient_chat_id = nullif_num e.recipient_chat_id;
  error_code = nullif_text e.error_code;
  details_json = e.details;
}

-- `ORDER BY id DESC LIMIT 1`.
unfoldable pub newest : List AuditRow → Option AuditRow
newest [] = none
newest (r ∷ rs) = elim (newest rs) [
  | none ↦ some r
  | some q ↦ if ltb q.id r.id then some r else some q
]

module _ (sha256 : Bytes → Bytes) (audit_chain_payload : Columns → Bytes) where
  -- `COALESCE((SELECT row_hash ...), genesis)`.
  pub prev_of : List AuditRow → Bytes
  prev_of rows = elim (newest rows) [ none ↦ genesis_hash sha256 | some r ↦ r.row_hash ]

  pub chained_row : List AuditRow → ℕ → Columns → AuditRow
  unfolding prev_of
  chained_row rows id c = record {
    id = id;
    columns = c;
    prev_hash = prev_of rows;
    row_hash = compute_row_hash sha256 (prev_of rows) (audit_chain_payload c);
  }

  -- `PgWriter.Write` at the database time `now`: the table after it, and its error.
  unfoldable pub write : ℕ → Outcome → AuditTable → Event → AuditTable × Option String
  unfolding chained_row columns_of
  write now marshal_fails t e = (t, some "audit: marshal details")
  write now begin_fails t e = (t, some "audit: begin")
  write now lock_fails t e = (t, some "audit: chain lock")
  write now insert_fails t e = (t, some "audit: insert")
  write now (commit_fails false) t e = (record t { next_id = suc t.next_id }, some "audit: commit")
  write now (commit_fails true) t e = (
    record {
      rows = t.rows ++ chained_row t.rows t.next_id (columns_of now e) ∷ [];
      next_id = suc t.next_id;
    },
    some "audit: commit",
  )
  write now commits t e = (
    record {
      rows = t.rows ++ chained_row t.rows t.next_id (columns_of now e) ∷ [];
      next_id = suc t.next_id;
    },
    none,
  )

  -- A history of writes, each with its database time and outcome.
  unfoldable pub write_all : AuditTable → List (ℕ × Outcome × Event) → AuditTable
  write_all t [] = t
  write_all t ((now, o, e) ∷ more) = write_all (write now o t e).0 more

  -- A row as the verifier reads it: its payload is computed anew from the stored columns.
  unfoldable pub chain_row : AuditRow → ChainRow
  chain_row r = record {
    id = r.id;
    at = r.columns.at;
    stage = r.columns.stage;
    prev_hash = r.prev_hash;
    row_hash = r.row_hash;
    payload = audit_chain_payload r.columns;
  }

abbrev pub empty_table : AuditTable
empty_table = record { rows = []; next_id = 1 }
