-- ===== src/Audit/Chain/Verdict.antt =====
-- What a verdict of the verifier means: the rows link up, or the reported row is the first that
-- does not.
use telegram_server.Prelude.{
  ℕ, ◌+◌, ◌≡◌, ◌≢◌, ◌⊎◌, ◌↔◌, refl, sym, ap, ◌∙◌, inl, inr, true, false, String, List, [], ◌∷◌,
  ◌++◌, map, Option, none, some, Bytes, bytes_eq, bytes_eq_iff, bytes_eq_sound, length, Bool-cases,
  arith,
}
use mathlib.Core.List.{append-nil}
use mathlib.Core.Option.{none-ne-some}
use mathlib.Core.Path.{subst}
use telegram_server.Audit.Chain.{
  ChainRow, VerifyBreak, VerifyResult, Fetch, row, failed, break_at, genesis_hash, compute_row_hash,
  verify_from, verify_chain,
}

module _ (sha256 : Bytes → Bytes) where
  -- Every row links to the hash before it and carries its own hash.
  abbrev pub Linked : Bytes → List ChainRow → Type 0
  Linked prev [] = Unit {0}
  Linked prev (r ∷ rs) =
      (r.prev_hash ≡ prev)
      × (r.row_hash ≡ compute_row_hash sha256 prev r.payload)
      × Linked r.row_hash rs

  -- The hash at the end of a chain.
  abbrev pub last_hash : Bytes → List ChainRow → Bytes
  last_hash prev [] = prev
  last_hash prev (r ∷ rs) = last_hash r.row_hash rs

  -- The first broken row: a clean prefix, then a row whose named column differs from what the
  -- chain demands.
  pub record BrokenAt (prev : Bytes) (n : ℕ) (rs : List ChainRow) (b : VerifyBreak) (rows : ℕ)
      : Type 0 where
    pub clean : List ChainRow
    pub bad : ChainRow
    pub rest : List ChainRow
    pub splits : rs ≡ clean ++ bad ∷ rest
    pub linked : Linked prev clean
    pub counted : rows ≡ n + length clean
    pub blames :
        ((b ≡ break_at bad "prev_hash" (last_hash prev clean) bad.prev_hash)
          × (bad.prev_hash ≢ last_hash prev clean))
        ⊎ ((b
              ≡ break_at bad "row_hash"
                  (compute_row_hash sha256 (last_hash prev clean) bad.payload)
                  bad.row_hash)
            × (bad.row_hash ≢ compute_row_hash sha256 (last_hash prev clean) bad.payload))

  abbrev clean_result : ℕ → VerifyResult × Option String
  clean_result n = (record { ok = true; rows = n; break = none }, none)

  abbrev broken_result : ℕ → VerifyBreak → VerifyResult × Option String
  broken_result n b = (record { ok = false; rows = n; break = some b }, none)

  verify_from_good :
      (prev : Bytes) (n : ℕ) (r : ChainRow) (more : List Fetch)
      → bytes_eq r.prev_hash prev ≡ true
      → bytes_eq r.row_hash (compute_row_hash sha256 prev r.payload) ≡ true
      → verify_from sha256 prev n (row r ∷ more) ≡ verify_from sha256 r.row_hash (n + 1) more
  unfolding verify_from
  verify_from_good prev n r more p h = rw (p, h)

  -- The walk over a linked prefix reaches its end, and counts it.
  pub verify_from-Linked :
      (prev : Bytes) (n : ℕ) (rs : List ChainRow) (more : List Fetch)
      → Linked prev rs
      → verify_from sha256 prev n (map row rs ++ more)
        ≡ verify_from sha256 (last_hash prev rs) (n + length rs) more
  verify_from-Linked prev n [] more l = ap (λ k. verify_from sha256 prev k more) (omega arith)
  verify_from-Linked prev n (r ∷ rs) more (p, h, l) =
      verify_from_good prev n r (map row rs ++ more) ((bytes_eq_iff _ _).1 p)
        ((bytes_eq_iff _ _).1 h)
      ∙ verify_from-Linked r.row_hash (n + 1) rs more l
      ∙ ap (λ k. verify_from sha256 (last_hash r.row_hash rs) k more) (omega arith)

  -- Either the rows link up and the walk ends clean, or it stops at the first broken row.
  abbrev Verdict : Bytes → ℕ → List ChainRow → Type 0
  Verdict prev n rs =
      (Linked prev rs × (verify_from sha256 prev n (map row rs) ≡ clean_result (n + length rs)))
      ⊎ ((b : VerifyBreak) × (rows : ℕ) × (verify_from sha256 prev n (map row rs)
            ≡ broken_result rows b)
          × BrokenAt prev n rs b rows)

  verdict_prev :
      (prev : Bytes) (n : ℕ) (r : ChainRow) (rs : List ChainRow)
      → bytes_eq r.prev_hash prev ≡ false
      → Verdict prev n (r ∷ rs)
  unfolding verify_from
  verdict_prev prev n r rs e = inr (
    break_at r "prev_hash" prev r.prev_hash,
    n,
    rw e,
    record {
      clean = [];
      bad = r;
      rest = rs;
      splits = refl;
      linked = tt;
      counted = omega arith;
      blames = inl (refl, λ same. cc ((bytes_eq_iff r.prev_hash prev).1 same));
    },
  )

  verdict_row :
      (prev : Bytes) (n : ℕ) (r : ChainRow) (rs : List ChainRow)
      → bytes_eq r.prev_hash prev ≡ true
      → bytes_eq r.row_hash (compute_row_hash sha256 prev r.payload) ≡ false
      → Verdict prev n (r ∷ rs)
  unfolding verify_from
  verdict_row prev n r rs p e = inr (
    break_at r "row_hash" (compute_row_hash sha256 prev r.payload) r.row_hash,
    n,
    rw (p, e),
    record {
      clean = [];
      bad = r;
      rest = rs;
      splits = refl;
      linked = tt;
      counted = omega arith;
      blames = inr (refl, λ same. cc ((bytes_eq_iff r.row_hash _).1 same));
    },
  )

  verdict_later :
      (prev : Bytes) (n : ℕ) (r : ChainRow) (rs : List ChainRow)
      → bytes_eq r.prev_hash prev ≡ true
      → bytes_eq r.row_hash (compute_row_hash sha256 prev r.payload) ≡ true
      → Verdict r.row_hash (n + 1) rs
      → Verdict prev n (r ∷ rs)
  verdict_later prev n r rs p h (inl (l, e)) = inl (
    (bytes_eq_sound _ _ p, bytes_eq_sound _ _ h, l),
    verify_from_good prev n r (map row rs) p h ∙ e ∙ ap clean_result (omega arith),
  )
  verdict_later prev n r rs p h (inr (b, rows, e, k)) = inr (
    b,
    rows,
    verify_from_good prev n r (map row rs) p h ∙ e,
    record {
      clean = r ∷ k.clean;
      bad = k.bad;
      rest = k.rest;
      splits = ap (◌∷◌ r) k.splits;
      linked = (bytes_eq_sound _ _ p, bytes_eq_sound _ _ h, k.linked);
      counted = omega (arith, k.counted);
      blames = k.blames;
    },
  )

  verdict : (prev : Bytes) (n : ℕ) (rs : List ChainRow) → Verdict prev n rs
  unfolding verify_from
  verdict prev n [] = inl (tt, ap clean_result (omega arith))
  verdict prev n (r ∷ rs) =
      let later = verdict r.row_hash (n + 1) rs in
      elim (Bool-cases (bytes_eq r.prev_hash prev)) [
        | inr e ↦ verdict_prev prev n r rs e
        | inl p ↦ elim (Bool-cases (bytes_eq r.row_hash (compute_row_hash sha256 prev r.payload))) [
          | inr e ↦ verdict_row prev n r rs p e
          | inl h ↦ verdict_later prev n r rs p h later
        ]
      ]

  ending : (h : Bytes) (n : ℕ) → verify_from sha256 h (0 + n) [] ≡ clean_result n
  unfolding verify_from
  ending h n = ap clean_result (omega arith)

  clean-ne-broken : (m n : ℕ) (b : VerifyBreak) → clean_result m ≢ broken_result n b
  clean-ne-broken m n b e = cc (ap (λ p. p.0.ok) e)

  -- What a break in the result says, from the verdict.
  verdict-break :
      {prev : Bytes} {n : ℕ} {rs : List ChainRow} (b : VerifyBreak) (res : VerifyResult)
      → Verdict prev n rs
      → verify_from sha256 prev n (map row rs) ≡ (res, none)
      → res.break ≡ some b
      → BrokenAt prev n rs b res.rows × (res.ok ≡ false)
  verdict-break b res (inl (l, e)) same h =
      let found : none ≡ some b = ap (λ p. p.0.break) (sym e ∙ same) ∙ h in
      absurd (none-ne-some b found)
  verdict-break {prev} {n} {rs} b res (inr (c, rows, e, k)) same h =
      let both = sym e ∙ same in
      let found : some c ≡ some b = ap (λ p. p.0.break) both ∙ h in
      let broke : c ≡ b = cc in
      let counted : rows ≡ res.rows = ap (λ p. p.0.rows) both in
      (
        subst (λ m. BrokenAt prev n rs b m) counted
            (subst (λ d. BrokenAt prev n rs d rows) broke k),
        sym (ap (λ p. p.0.ok) both),
      )

  -- The verifier accepts a table, counting all of its rows, exactly when every row links to the
  -- one before it and carries its own hash, from the genesis hash on.
  pub verify_chain-ok_iff :
      (rs : List ChainRow)
      → (verify_chain sha256 (map row rs)
          ≡ (record { ok = true; rows = length rs; break = none }, none))
        ↔ Linked (genesis_hash sha256) rs
  unfolding verify_chain
  verify_chain-ok_iff rs = elim (verdict (genesis_hash sha256) 0 rs) [
    | inl (l, e) ↦ (λ _. l, λ _. e ∙ ap clean_result (omega arith))
    | inr (b, rows, e, k) ↦ (
      λ ok. absurd (clean-ne-broken _ rows b (sym ok ∙ e)),
      λ l.
          ap (verify_from sha256 (genesis_hash sha256) 0) (sym (append-nil (map row rs)))
          ∙ verify_from-Linked (genesis_hash sha256) 0 rs [] l
          ∙ ending (last_hash (genesis_hash sha256) rs) (length rs),
    )
  ]

  -- A break reported by the verifier names the first row that is broken: the rows before it, as
  -- many as were counted, link up, and its named column differs from the value the chain demands.
  pub verify_chain-break :
      (rs : List ChainRow) (b : VerifyBreak) (res : VerifyResult)
      → verify_chain sha256 (map row rs) ≡ (res, none)
      → res.break ≡ some b
      → BrokenAt (genesis_hash sha256) 0 rs b res.rows × (res.ok ≡ false)
  unfolding verify_chain
  verify_chain-break rs b res e h = verdict-break b res (verdict (genesis_hash sha256) 0 rs) e h

  -- When `next` fails after rows that link up, the result counts them, is not OK, reports no
  -- break, and the error is passed on; nothing after the failure is read.
  pub verify_chain_failed :
      (rs : List ChainRow) (e : String) (more : List Fetch)
      → Linked (genesis_hash sha256) rs
      → verify_chain sha256 (map row rs ++ failed e ∷ more)
        ≡ (record { ok = false; rows = length rs; break = none }, some e)
  unfolding verify_chain verify_from
  verify_chain_failed rs e more l =
      verify_from-Linked _ 0 rs (failed e ∷ more) l
      ∙ ap (λ n. (record { ok = false; rows = n; break = none }, some e)) (omega arith)
