-- ===== src/Audit/Writer/Linkage.antt =====
-- The table that a history of writes of internal/audit/writer.go leaves.
use mathlib.Core.List.{map-append}
use telegram_server.Prelude.{
  ℕ, suc, ◌≤◌, ◌≡◌, refl, sym, ap, ◌∙◌, true, false, List, [], ◌∷◌, ◌++◌, map, none, some, Bytes,
  length, length-map, arith,
}
use telegram_server.Audit.Event.{Event}
use telegram_server.Audit.Chain.{ChainRow, row, genesis_hash, compute_row_hash, verify_chain}
use telegram_server.Audit.Chain.Verdict.{Linked, last_hash, verify_chain-ok_iff}
use telegram_server.Audit.Writer.{
  Columns, AuditRow, AuditTable, Outcome, commits, marshal_fails, begin_fails, lock_fails,
  insert_fails, commit_fails, newest, prev_of, chained_row, write, write_all, chain_row,
  empty_table,
}

-- Ids rise along the rows, from `lo` on and below `hi`.
abbrev pub Ascends : ℕ → List AuditRow → ℕ → Type 0
Ascends lo [] hi = lo ≤ hi
Ascends lo (r ∷ rs) hi = (lo ≤ r.id) × Ascends (suc r.id) rs hi

Ascends-append :
    (lo hi : ℕ) (rs : List AuditRow) (r : AuditRow)
    → Ascends lo rs hi
    → r.id ≡ hi
    → Ascends lo (rs ++ r ∷ []) (suc hi)
Ascends-append lo hi [] r h e = (omega arith, omega arith)
Ascends-append lo hi (q ∷ rs) r h e = (h.0, Ascends-append (suc q.id) hi rs r h.1 e)

Ascends-grow : (lo hi : ℕ) (rs : List AuditRow) → Ascends lo rs hi → Ascends lo rs (suc hi)
Ascends-grow lo hi [] h = omega arith
Ascends-grow lo hi (r ∷ rs) h = (h.0, Ascends-grow (suc r.id) hi rs h.1)

-- The last row of a list that begins with `r`.
abbrev last_row : AuditRow → List AuditRow → AuditRow
last_row r [] = r
last_row r (q ∷ rs) = last_row q rs

last_row-id :
    (lo hi : ℕ) (r : AuditRow) (rs : List AuditRow)
    → Ascends lo (r ∷ rs) hi
    → lo ≤ (last_row r rs).id
last_row-id lo hi r [] h = h.0
last_row-id lo hi r (q ∷ rs) h = omega (arith, last_row-id (suc r.id) hi q rs h.1, h.0)

-- Where ids rise, the newest row is the last.
newest-last :
    (lo hi : ℕ) (r : AuditRow) (rs : List AuditRow)
    → Ascends lo (r ∷ rs) hi
    → newest (r ∷ rs) ≡ some (last_row r rs)
unfolding newest
newest-last lo hi r [] h = refl
newest-last lo hi r (q ∷ rs) h =
    ground (arith, newest-last (suc r.id) hi q rs h.1, last_row-id (suc r.id) hi q rs h.1)

module _ (sha256 : Bytes → Bytes) (audit_chain_payload : Columns → Bytes) where
  abbrev chain : List AuditRow → List ChainRow
  chain = map (chain_row sha256 audit_chain_payload)

  last_hash-chain :
      (prev : Bytes) (r : AuditRow) (rs : List AuditRow)
      → last_hash sha256 prev (chain (r ∷ rs)) ≡ (last_row r rs).row_hash
  unfolding chain_row
  last_hash-chain prev r [] = refl
  last_hash-chain prev r (q ∷ rs) = last_hash-chain r.row_hash q rs

  prev_of-last_hash :
      (lo hi : ℕ) (rs : List AuditRow)
      → Ascends lo rs hi
      → prev_of sha256 audit_chain_payload rs ≡ last_hash sha256 (genesis_hash sha256) (chain rs)
  unfolding prev_of newest
  prev_of-last_hash lo hi [] h = refl
  prev_of-last_hash lo hi (r ∷ rs) h =
      rw (newest-last lo hi r rs h, prev_of) (sym (last_hash-chain (genesis_hash sha256) r rs))

  Linked-append :
      (prev : Bytes) (rs : List ChainRow) (r : ChainRow)
      → Linked sha256 prev rs
      → r.prev_hash ≡ last_hash sha256 prev rs
      → r.row_hash ≡ compute_row_hash sha256 (last_hash sha256 prev rs) r.payload
      → Linked sha256 prev (rs ++ r ∷ [])
  Linked-append prev [] r l p h = (p, h, tt)
  Linked-append prev (q ∷ rs) r (a, b, l) p h = (a, b, Linked-append q.row_hash rs r l p h)

  -- What holds of the table between two writes.
  pub record IsChained (t : AuditTable) : Type 0 where
    pub ascends : Ascends 0 t.rows t.next_id
    pub linked : Linked sha256 (genesis_hash sha256) (chain t.rows)

  commit-IsChained :
      (t : AuditTable) (c : Columns)
      → IsChained t
      → IsChained (record {
        rows = t.rows ++ chained_row sha256 audit_chain_payload t.rows t.next_id c ∷ [];
        next_id = suc t.next_id;
      })
  unfolding chained_row chain_row
  commit-IsChained t c v = record {
    ascends = Ascends-append 0 t.next_id t.rows _ v.ascends refl;
    linked = rw (map-append (chain_row sha256 audit_chain_payload) t.rows _) (
        Linked-append (genesis_hash sha256) (chain t.rows) _ v.linked
          (prev_of-last_hash 0 t.next_id t.rows v.ascends)
          (ap (λ h. compute_row_hash sha256 h (audit_chain_payload c))
            (prev_of-last_hash 0 t.next_id t.rows v.ascends)));
  }

  -- A write keeps the table chained, whichever of its database calls fails.
  write-IsChained :
      (now : ℕ) (o : Outcome) (t : AuditTable) (e : Event)
      → IsChained t
      → IsChained (write sha256 audit_chain_payload now o t e).0
  unfolding write
  write-IsChained now commits t e v = commit-IsChained t _ v
  write-IsChained now (commit_fails true) t e v = commit-IsChained t _ v
  write-IsChained now (commit_fails false) t e v = record {
    ascends = Ascends-grow 0 t.next_id t.rows v.ascends;
    linked = v.linked;
  }
  write-IsChained now marshal_fails t e v = v
  write-IsChained now begin_fails t e v = v
  write-IsChained now lock_fails t e v = v
  write-IsChained now insert_fails t e v = v

  write_all-IsChained :
      (t : AuditTable) (ws : List (ℕ × Outcome × Event))
      → IsChained t
      → IsChained (write_all sha256 audit_chain_payload t ws)
  unfolding write_all
  write_all-IsChained t [] v = v
  write_all-IsChained t ((now, o, e) ∷ ws) v =
      write_all-IsChained (write sha256 audit_chain_payload now o t e).0 ws
        (write-IsChained now o t e v)

  -- After any history of writes to the empty table, failed ones among them, the verifier reads the
  -- table as clean and counts all of its rows.
  pub verify_chain-write_all :
      (ws : List (ℕ × Outcome × Event))
      → let t = write_all sha256 audit_chain_payload empty_table ws in
        verify_chain sha256 (map row (map (chain_row sha256 audit_chain_payload) t.rows))
        ≡ (record { ok = true; rows = length t.rows; break = none }, none)
  verify_chain-write_all ws =
      let t = write_all sha256 audit_chain_payload empty_table ws in
      let v = write_all-IsChained empty_table ws (record { ascends = omega arith; linked = tt }) in
      (verify_chain-ok_iff sha256 (chain t.rows)).1 v.linked
      ∙ ap (λ n. (record { ok = true; rows = n; break = none }, none))
          (length-map (chain_row sha256 audit_chain_payload) t.rows)
