-- ===== src/Audit/Evidence.antt =====
-- Tamper evidence of the hash chain: what two tables that verify and end in the same hash have in
-- common.
use telegram_server.Prelude.{
  ℕ, ◌≡◌, ◌≢◌, ◌⊎◌, refl, sym, ap, ◌∙◌, inl, inr, true, List, [], ◌∷◌, ◌++◌, map, none, Bytes,
  bytes_eq, bytes_eq_sound, bytes_eq_iff, length, Bool-cases, arith,
}
use telegram_server.Audit.Chain.{ChainRow, row, genesis_hash, compute_row_hash, verify_chain}
use telegram_server.Audit.Chain.Verdict.{Linked, last_hash, verify_chain-ok_iff}

abbrev pub payloads : List ChainRow → List Bytes
payloads = map (λ r. r.payload)

append_split : (a b x y : Bytes) → length a ≡ length b → a ++ x ≡ b ++ y → (a ≡ b) × (x ≡ y)
append_split [] [] x y n e = (refl, e)
append_split [] (d ∷ b) x y n e = absurd (omega arith)
append_split (c ∷ a) [] x y n e = absurd (omega arith)
append_split (c ∷ a) (d ∷ b) x y n e =
    let tails : a ++ x ≡ b ++ y = cc in
    let heads : c ≡ d = cc in let (p, q) = append_split a b x y (omega arith) tails in (cc, q)

module _ (sha256 : Bytes → Bytes) where
  -- Two different texts with one hash.
  pub record Collision : Type 0 where
    pub left : Bytes
    pub right : Bytes
    pub differ : left ≢ right
    pub same : sha256 left ≡ sha256 right

  module _ (width : ℕ) (sized : (m : Bytes) → length (sha256 m) ≡ width) where
    link_inj :
        (p q x y : Bytes)
        → length p ≡ width
        → length q ≡ width
        → compute_row_hash sha256 p x ≡ compute_row_hash sha256 q y
        → Collision ⊎ ((p ≡ q) × (x ≡ y))
    unfolding compute_row_hash
    link_inj p q x y lp lq e = elim (Bool-cases (bytes_eq (p ++ x) (q ++ y))) [
      | inl same ↦ inr (append_split p q x y (lp ∙ sym lq) (bytes_eq_sound _ _ same))
      | inr other ↦ inl (record {
        left = p ++ x;
        right = q ++ y;
        differ = λ s. cc ((bytes_eq_iff (p ++ x) (q ++ y)).1 s);
        same = e;
      })
    ]

    row_hash_sized :
        (p : Bytes) (r : ChainRow)
        → r.row_hash ≡ compute_row_hash sha256 p r.payload
        → length r.row_hash ≡ width
    unfolding compute_row_hash
    row_hash_sized p r e = ap length e ∙ sized (p ++ r.payload)

    chain_inj :
        (p q : Bytes) (rs ss : List ChainRow)
        → length p ≡ width
        → length q ≡ width
        → length rs ≡ length ss
        → Linked sha256 p rs
        → Linked sha256 q ss
        → last_hash sha256 p rs ≡ last_hash sha256 q ss
        → Collision ⊎ ((p ≡ q) × (payloads rs ≡ payloads ss))
    chain_inj p q [] [] lp lq n l k e = inr (e, refl)
    chain_inj p q [] (s ∷ ss) lp lq n l k e = absurd (omega arith)
    chain_inj p q (r ∷ rs) [] lp lq n l k e = absurd (omega arith)
    chain_inj p q (r ∷ rs) (s ∷ ss) lp lq n (a, b, l) (c, d, k) e =
        elim (chain_inj r.row_hash s.row_hash rs ss (row_hash_sized p r b) (row_hash_sized q s d)
          (omega arith) l k e) [
            | inl x ↦ inl x
            | inr (h, t) ↦ elim (link_inj p q r.payload s.payload lp lq (sym b ∙ h ∙ d)) [
              | inl x ↦ inl x
              | inr (u, v) ↦ inr (u, cc)
            ]
          ]

    -- Two tables that the verifier accepts, with equally many rows and the same newest hash, hold
    -- the same payloads row by row; otherwise the tables exhibit two texts with one hash.
    pub same_head_same_payloads :
        (rs ss : List ChainRow)
        → verify_chain sha256 (map row rs)
          ≡ (record { ok = true; rows = length rs; break = none }, none)
        → verify_chain sha256 (map row ss)
          ≡ (record { ok = true; rows = length ss; break = none }, none)
        → length rs ≡ length ss
        → last_hash sha256 (genesis_hash sha256) rs ≡ last_hash sha256 (genesis_hash sha256) ss
        → Collision ⊎ (payloads rs ≡ payloads ss)
    unfolding genesis_hash
    same_head_same_payloads rs ss v w n e =
        let l = (verify_chain-ok_iff sha256 rs).0 v in
        let k = (verify_chain-ok_iff sha256 ss).0 w in
        elim (chain_inj (genesis_hash sha256) (genesis_hash sha256) rs ss (sized _) (sized _) n l k
          e) [ inl x ↦ inl x | inr (_, t) ↦ inr t ]
