-- ===== src/Audit/Chain.antt =====
-- internal/audit/chain.go. SHA-256 is a parameter; the iterator `next` is the list of what it
-- returns, call by call, and reports ok=false at the list's end. Row ids and times are numbers.
pub mod Verdict
use telegram_server.Prelude.{
  ℕ, suc, ◌+◌, String, Bool, true, false, not, List, [], ◌∷◌, ◌++◌, Option, none, some, Bytes,
  codes, bytes_eq, if◌then◌else◌,
}

pub record ChainRow : Type 0 where
  pub id : ℕ
  pub at : ℕ
  pub stage : String
  pub prev_hash : Bytes
  pub row_hash : Bytes
  pub payload : Bytes

pub record VerifyBreak : Type 0 where
  pub id : ℕ
  pub at : ℕ
  pub stage : String
  pub column : String
  pub expected : Bytes
  pub stored : Bytes

pub record VerifyResult : Type 0 where
  pub ok : Bool
  pub rows : ℕ
  pub break : Option VerifyBreak

-- What one call of `next` returns.
pub data Fetch : Type 0 where
  row : ChainRow → Fetch
  failed : String → Fetch

abbrev pub genesis_seed : Bytes
genesis_seed = codes "telegram_server-audit-genesis-v1"

-- Where the row differs from what the chain demands; `running` is the hash before it.
pub break_at : ChainRow → String → Bytes → Bytes → VerifyBreak
break_at r column expected stored = record {
  id = r.id;
  at = r.at;
  stage = r.stage;
  column = column;
  expected = expected;
  stored = stored;
}

module _ (sha256 : Bytes → Bytes) where
  unfoldable pub genesis_hash : Bytes
  genesis_hash = sha256 genesis_seed

  unfoldable pub compute_row_hash : Bytes → Bytes → Bytes
  compute_row_hash prev payload = sha256 (prev ++ payload)

  -- The loop of `VerifyChain`, from the running hash and the rows counted so far. The second
  -- component is the Go error.
  unfoldable pub verify_from : Bytes → ℕ → List Fetch → VerifyResult × Option String
  verify_from running n [] = (record { ok = true; rows = n; break = none }, none)
  verify_from running n (failed e ∷ more) = (record { ok = false; rows = n; break = none }, some e)
  verify_from running n (row r ∷ more) =
      let want = compute_row_hash running r.payload in
      let prev_break = break_at r "prev_hash" running r.prev_hash in
      let row_break = break_at r "row_hash" want r.row_hash in
      let rest = verify_from r.row_hash (n + 1) more in
      if not (bytes_eq r.prev_hash running)
      then (record { ok = false; rows = n; break = some prev_break }, none)
      else if not (bytes_eq r.row_hash want)
      then (record { ok = false; rows = n; break = some row_break }, none)
      else rest

  unfoldable pub verify_chain : List Fetch → VerifyResult × Option String
  verify_chain next = verify_from genesis_hash 0 next
