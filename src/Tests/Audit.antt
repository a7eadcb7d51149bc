-- ===== src/Tests/Audit.antt =====
-- The audit chain on a short trail, with a one-byte checksum in the place of the hash
-- (internal/audit).
use telegram_server.Prelude.{
  ℕ, ◌+◌, ◌%◌, ◌≡◌, ◌↔◌, ◌⊎◌, refl, true, false, List, [], ◌∷◌, ◌++◌, map, none, some, Bytes, codes,
  bytes_eq, length,
}
use telegram_server.Audit.Event.{Event, received, denied}
use telegram_server.Audit.Chain.{
  ChainRow, VerifyBreak, VerifyResult, row, failed, break_at, genesis_hash, compute_row_hash,
  verify_from, verify_chain,
}
use telegram_server.Audit.Chain.Verdict.{
  Linked, BrokenAt, verify_chain-ok_iff, verify_chain-break, verify_chain_failed,
}
use telegram_server.Audit.Writer.{
  Columns, Outcome, commits, commit_fails, write_all, chain_row, empty_table,
}
use telegram_server.Audit.Writer.Linkage.{verify_chain-write_all}
use telegram_server.Audit.Evidence.{Collision, same_head_same_payloads}

abbrev sum : Bytes → ℕ
sum [] = 0
sum (b ∷ bs) = b + sum bs

abbrev checksum : Bytes → Bytes
checksum b = (sum b % 256) ∷ []

abbrev payload : Columns → Bytes
payload c = codes c.stage

abbrev sample : Event
sample = record {
  at = 0;
  trace_id = "trace";
  message_id = "message";
  stage = received;
  app_id = "app";
  capability = "";
  capability_set_ver = 1;
  endpoint = "/v1/messages/direct";
  route_strategy = "";
  delivery_channel = "";
  recipient_user_id = 0;
  recipient_chat_id = 0;
  error_code = "";
  details = [];
}

abbrev history : List (ℕ × Outcome × Event)
history =
    (10, commits, sample)
    ∷ (11, commit_fails false, sample)
    ∷ (11, commit_fails true, sample)
    ∷ (12, commits, record sample { stage = denied })
    ∷ []

verify_chain-write_all_example :
    let t = write_all checksum payload empty_table history in
    verify_chain checksum (map row (map (chain_row checksum payload) t.rows))
    ≡ (record { ok = true; rows = length t.rows; break = none }, none)
verify_chain-write_all_example = verify_chain-write_all checksum payload history

abbrev genesis : Bytes
genesis = checksum (codes "telegram_server-audit-genesis-v1")

abbrev first : ChainRow
first = record {
  id = 1;
  at = 10;
  stage = "received";
  prev_hash = genesis;
  row_hash = checksum (genesis ++ codes "received");
  payload = codes "received";
}

-- A row whose payload was changed after it was written.
abbrev forged : ChainRow
forged = record first { payload = codes "rejected" }

first-Linked : Linked checksum (genesis_hash checksum) (first ∷ [])
unfolding genesis_hash compute_row_hash
first-Linked = (refl, refl, tt)

verify_chain-ok_iff_example :
    (verify_chain checksum (map row (first ∷ []))
      ≡ (record { ok = true; rows = 1; break = none }, none))
    ↔ Linked checksum (genesis_hash checksum) (first ∷ [])
verify_chain-ok_iff_example = verify_chain-ok_iff checksum (first ∷ [])

abbrev blame : VerifyBreak
blame = break_at forged "row_hash" (checksum (genesis ++ codes "rejected")) forged.row_hash

abbrev verdict : VerifyResult
verdict = record { ok = false; rows = 0; break = some blame }

forged_found : verify_chain checksum (map row (forged ∷ [])) ≡ (verdict, none)
unfolding verify_chain verify_from genesis_hash compute_row_hash bytes_eq
forged_found = refl

verify_chain-break_example :
    BrokenAt checksum (genesis_hash checksum) 0 (forged ∷ []) blame 0 × (false ≡ false)
verify_chain-break_example =
    verify_chain-break checksum (forged ∷ []) blame verdict forged_found refl

verify_chain_failed_example :
    verify_chain checksum (map row (first ∷ []) ++ failed "timeout" ∷ row forged ∷ [])
    ≡ (record { ok = false; rows = 1; break = none }, some "timeout")
verify_chain_failed_example =
    verify_chain_failed checksum (first ∷ []) "timeout" (row forged ∷ []) first-Linked

first_clean :
    verify_chain checksum (map row (first ∷ []))
    ≡ (record { ok = true; rows = 1; break = none }, none)
unfolding verify_chain verify_from genesis_hash compute_row_hash bytes_eq
first_clean = refl

same_head_same_payloads_example :
    Collision checksum ⊎ ((codes "received" ∷ []) ≡ (codes "received" ∷ []))
same_head_same_payloads_example =
    same_head_same_payloads checksum 1 (λ m. refl) (first ∷ []) (first ∷ []) first_clean first_clean
      refl refl
