-- ===== src/Auth/KeyStore/Live.antt =====
-- Which keys internal/auth/store.go resolves a bearer token to.
use telegram_server.Prelude.{
  ℕ, zero, suc, ◌≡◌, ◌↔◌, String, str_eq, eq_iff, inl, inr, refl, sym, ap, ◌∙◌, Bool, true, false,
  List, [], ◌∷◌, Option, none, some, Bytes, bytes_eq, bytes_eq_iff, Bool-cases, Option-cases,
  get_elem?, if◌then◌else◌, arith,
}
use mathlib.Core.List.{Mem, Mem-prop, not-mem-nil, mem-cons, mem-cons_of_mem, eq-or-mem_of_mem-cons}
use mathlib.Core.Logic.Or
use mathlib.Core.Path.{subst}
use mathlib.Core.Option.{none-ne-some}
use telegram_server.Auth.Bearer.{parse_bearer}
use telegram_server.Auth.Secret.{verify_api_key}
use telegram_server.Auth.KeyStore.{
  AppKey, AppRow, Store, RequesterIdentity, identified, app_row, KeyRow, key_row, add_row, key_rows,
  load_capabilities, matches, match_row, answer_of, resolve_prefix, resolve,
}

key_row_facts :
    (prefix : Bytes) (k : AppKey) (o : Option AppRow) (r : KeyRow)
    → key_row prefix k o ≡ some r
    → (a : AppRow) × (o ≡ some a)
      × (k.key_prefix ≡ prefix)
      × (k.revoked ≡ false)
      × (a.active ≡ true)
      × (r.app_id ≡ k.app_id)
      × (r.key_hash ≡ k.key_hash)
      × (r.cap_ver ≡ a.capability_set_version)
unfolding key_row
key_row_facts prefix k none r h = absurd (none-ne-some r h)
key_row_facts prefix k (some a) r h =
    let (p, v, t, i, x, c) : (k.key_prefix ≡ prefix)
        × (k.revoked ≡ false)
        × (a.active ≡ true)
        × (r.app_id ≡ k.app_id)
        × (r.key_hash ≡ k.key_hash)
        × (r.cap_ver ≡ a.capability_set_version) =
      ground (arith, bytes_eq_iff k.key_prefix prefix) in
    (a, refl, p, v, t, i, x, c)

-- The capabilities that are loaded for an app are those of its rows.
load_capabilities_iff :
    (app : String) (rows : List (String × String)) (c : String)
    → Mem c (load_capabilities app rows) ↔ Mem (app, c) rows
unfolding load_capabilities
load_capabilities_iff app [] c =
    (λ m. absurd (not-mem-nil {a = c} m), λ m. absurd (not-mem-nil {a = (app, c)} m))
load_capabilities_iff app ((a, d) ∷ rows) c =
    let rest = load_capabilities_iff app rows c in
    let loaded = load_capabilities app rows in
    elim (Bool-cases (str_eq a app)) [
      | inl e ↦
          let same : a ≡ app = (eq_iff a app).0 e in
          rw e (
            λ m.
                Or.elim Mem-prop (eq-or-mem_of_mem-cons {a = c} {b = d} {l = loaded} m)
                  (λ q.
                    let row : (app, c) ≡ (a, d) = cc in
                    (mem-cons {a = (app, c)} {b = (a, d)} {l = rows}).1 ∣ inl row ∣₁)
                  (λ n. mem-cons_of_mem (a, d) (rest.0 n)),
            λ m.
                Or.elim Mem-prop (eq-or-mem_of_mem-cons {a = (app, c)} {b = (a, d)} {l = rows} m)
                  (λ (q : (app, c) ≡ (a, d)).
                    let own : c ≡ d = ap (λ x. x.1) q in
                    (mem-cons {a = c} {b = d} {l = loaded}).1 ∣ inl own ∣₁)
                  (λ n. mem-cons_of_mem d (rest.1 n)),
          )
      | inr e ↦ rw e (
        λ m. mem-cons_of_mem (a, d) (rest.0 m),
        λ m.
            Or.elim Mem-prop (eq-or-mem_of_mem-cons {a = (app, c)} {b = (a, d)} {l = rows} m)
              (λ (q : (app, c) ≡ (a, d)).
                let own : a ≡ app = sym (ap (λ x. x.0) q) in absurd (cc ((eq_iff a app).1 own, e)))
              rest.1,
      )
    ]

module _ (encode : Bytes → Bytes) (decode : Bytes → Option Bytes)
    (scan_params : Bytes → Option (ℕ × ℕ × ℕ))
    (id_key : Bytes → Bytes → ℕ → ℕ → ℕ → ℕ → Bytes) where
  -- A stored key that a bearer token opens: it has the token's prefix, is not revoked, belongs to
  -- an active app, and its hash verifies the token.
  pub record IsLive (bearer prefix : Bytes) (s : Store) (i : ℕ) (k : AppKey) (a : AppRow)
      : Type 0 where
    pub stored : get_elem? s.app_keys i ≡ some k
    pub prefixed : k.key_prefix ≡ prefix
    pub kept : k.revoked ≡ false
    pub owned : app_row k.app_id s.apps ≡ some a
    pub active : a.active ≡ true
    pub verifies :
        matches (verify_api_key encode decode scan_params id_key bearer k.key_hash) ≡ true

  abbrev opens : Bytes → Bytes → Bool
  opens bearer hash = matches (verify_api_key encode decode scan_params id_key bearer hash)

  abbrev matched : Bytes → Bytes → List AppRow → List AppKey → Option KeyRow
  matched bearer prefix apps ks =
      match_row encode decode scan_params id_key bearer (key_rows prefix apps ks)

  matched_skip :
      (bearer prefix : Bytes) (apps : List AppRow) (k : AppKey) (ks : List AppKey)
      → key_row prefix k (app_row k.app_id apps) ≡ none
      → matched bearer prefix apps (k ∷ ks) ≡ matched bearer prefix apps ks
  unfolding key_rows add_row
  matched_skip bearer prefix apps k ks h =
      ap
        (λ o.
          match_row encode decode scan_params id_key bearer (add_row o (key_rows prefix apps ks)))
        h

  matched_row :
      (bearer prefix : Bytes) (apps : List AppRow) (k : AppKey) (ks : List AppKey) (r : KeyRow)
      → key_row prefix k (app_row k.app_id apps) ≡ some r
      → matched bearer prefix apps (k ∷ ks)
        ≡ (if opens bearer r.key_hash then some r else matched bearer prefix apps ks)
  unfolding key_rows match_row add_row
  matched_row bearer prefix apps k ks r h =
      ap
        (λ o.
          match_row encode decode scan_params id_key bearer (add_row o (key_rows prefix apps ks)))
        h

  -- The row that the loop stops at comes from a live key.
  abbrev Comes : Bytes → Bytes → List AppRow → List AppKey → KeyRow → Type 0
  Comes bearer prefix apps ks r =
      (i : ℕ) × (k : AppKey) × (a : AppRow) × (get_elem? ks i ≡ some k)
      × (k.key_prefix ≡ prefix)
      × (k.revoked ≡ false)
      × (app_row k.app_id apps ≡ some a)
      × (a.active ≡ true)
      × (opens bearer k.key_hash ≡ true)
      × (r.app_id ≡ k.app_id)
      × (r.cap_ver ≡ a.capability_set_version)

  matched_later :
      (bearer prefix : Bytes) (apps : List AppRow) (k : AppKey) (ks : List AppKey) (r : KeyRow)
      → Comes bearer prefix apps ks r
      → Comes bearer prefix apps (k ∷ ks) r
  matched_later bearer prefix apps k ks r (i, j, a, g, p, v, o, t, m, x, c) =
      (suc i, j, a, g, p, v, o, t, m, x, c)

  matched_key :
      (bearer prefix : Bytes) (apps : List AppRow) (ks : List AppKey) (r : KeyRow)
      → matched bearer prefix apps ks ≡ some r
      → Comes bearer prefix apps ks r
  unfolding match_row key_rows
  matched_key bearer prefix apps [] r h = absurd (none-ne-some r h)
  matched_key bearer prefix apps (k ∷ ks) r h =
      elim (Option-cases (key_row prefix k (app_row k.app_id apps))) [
        | inl e ↦
            matched_later bearer prefix apps k ks r (
              matched_key bearer prefix apps ks r
                (sym (matched_skip bearer prefix apps k ks e) ∙ h))
        | inr (row, e) ↦
            let step = sym (matched_row bearer prefix apps k ks row e) ∙ h in
            elim (Bool-cases (opens bearer row.key_hash)) [
              | inl m ↦
                  let same : row ≡ r = ground arith in
                  let (a, o, p, v, t, x, y, c) =
                    key_row_facts prefix k (app_row k.app_id apps) row e in
                  (
                    0,
                    k,
                    a,
                    refl,
                    p,
                    v,
                    o,
                    t,
                    sym (ap (opens bearer) y) ∙ m,
                    sym (ap (λ q. q.app_id) same) ∙ x,
                    sym (ap (λ q. q.cap_ver) same) ∙ c,
                  )
              | inr m ↦
                  matched_later bearer prefix apps k ks r
                    (matched_key bearer prefix apps ks r (ground arith))
            ]
      ]

  live_row :
      (prefix : Bytes) (k : AppKey) (a : AppRow)
      → k.key_prefix ≡ prefix
      → k.revoked ≡ false
      → a.active ≡ true
      → (r : KeyRow) × (key_row prefix k (some a) ≡ some r) × (r.key_hash ≡ k.key_hash)
  unfolding key_row
  live_row prefix k a p v t =
      let e : bytes_eq k.key_prefix prefix ≡ true = (bytes_eq_iff k.key_prefix prefix).1 p in
      rw (e, v, t) (_, refl, refl)

  matched_live :
      (bearer prefix : Bytes) (apps : List AppRow) (ks : List AppKey) (k : AppKey) (a : AppRow)
      → k.key_prefix ≡ prefix
      → k.revoked ≡ false
      → app_row k.app_id apps ≡ some a
      → a.active ≡ true
      → opens bearer k.key_hash ≡ true
      → (r : KeyRow) × (matched bearer prefix apps (k ∷ ks) ≡ some r)
  matched_live bearer prefix apps ks k a p v o t m =
      let (r, e, same) = live_row prefix k a p v t in
      let row = matched_row bearer prefix apps k ks r (ap (key_row prefix k) o ∙ e) in
      let hit : opens bearer r.key_hash ≡ true = ap (opens bearer) same ∙ m in
      (r, row ∙ ap (λ b. if b then some r else matched bearer prefix apps ks) hit)

  found_key :
      (bearer prefix : Bytes) (apps : List AppRow) (ks : List AppKey) (i : ℕ) (k : AppKey)
      (a : AppRow)
      → get_elem? ks i ≡ some k
      → k.key_prefix ≡ prefix
      → k.revoked ≡ false
      → app_row k.app_id apps ≡ some a
      → a.active ≡ true
      → opens bearer k.key_hash ≡ true
      → (r : KeyRow) × (matched bearer prefix apps ks ≡ some r)
  found_key bearer prefix apps [] i k a g p v o t m = absurd (none-ne-some k g)
  found_key bearer prefix apps (j ∷ ks) zero k a g p v o t m =
      let same : j ≡ k = ground arith in rw same (matched_live bearer prefix apps ks k a p v o t m)
  found_key bearer prefix apps (j ∷ ks) (suc i) k a g p v o t m =
      let (r, later) = found_key bearer prefix apps ks i k a g p v o t m in
      elim (Option-cases (key_row prefix j (app_row j.app_id apps))) [
        | inl e ↦ (r, matched_skip bearer prefix apps j ks e ∙ later)
        | inr (row, e) ↦
            let step = matched_row bearer prefix apps j ks row e in
            elim (Bool-cases (opens bearer row.key_hash)) [
              | inl b ↦
                  (row, step ∙ ap (λ b. if b then some row else matched bearer prefix apps ks) b)
              | inr b ↦ (
                r,
                step ∙ ap (λ b. if b then some row else matched bearer prefix apps ks) b ∙ later,
              )
            ]
      ]

  abbrev identity : Bytes → Store → KeyRow → RequesterIdentity
  identity prefix s r = record {
    app_id = r.app_id;
    capabilities = load_capabilities r.app_id s.app_capabilities;
    capability_set_ver = r.cap_ver;
    key_prefix = prefix;
  }

  malformed_clash :
      (bearer : Bytes) (s : Store) (id : RequesterIdentity)
      → resolve_prefix encode decode scan_params id_key bearer s none ≡ identified id
      → ⊥
  unfolding resolve_prefix
  malformed_clash bearer s id h = cc

  not_found_clash :
      (prefix : Bytes) (s : Store) (id : RequesterIdentity)
      → answer_of encode decode scan_params id_key prefix s none ≡ identified id
      → ⊥
  unfolding answer_of
  not_found_clash prefix s id h = cc

  answer_facts :
      (prefix : Bytes) (s : Store) (r : KeyRow) (id : RequesterIdentity)
      → answer_of encode decode scan_params id_key prefix s (some r) ≡ identified id
      → identity prefix s r ≡ id
  unfolding answer_of
  answer_facts prefix s r id h = cc

  prefix_identified :
      (bearer prefix : Bytes) (s : Store) (id : RequesterIdentity)
      → parse_bearer bearer ≡ some prefix
      → resolve_prefix encode decode scan_params id_key bearer s (some prefix) ≡ identified id
      → (i : ℕ) × (k : AppKey) × (a : AppRow) × (parse_bearer bearer ≡ some id.key_prefix)
        × IsLive bearer id.key_prefix s i k a
        × (id.app_id ≡ k.app_id)
        × ((c : String) → Mem c id.capabilities ↔ Mem (k.app_id, c) s.app_capabilities)
        × (id.capability_set_ver ≡ a.capability_set_version)
  unfolding resolve_prefix
  prefix_identified bearer prefix s id parsed h =
      let answered = answer_of encode decode scan_params id_key prefix s in
      elim (Option-cases (matched bearer prefix s.apps s.app_keys)) [
        | inl e ↦ absurd (not_found_clash prefix s id (sym (ap answered e) ∙ h))
        | inr (r, e) ↦
            let same = answer_facts prefix s r id (sym (ap answered e) ∙ h) in
            let (i, k, a, g, p, v, o, t, m, x, c) =
              matched_key bearer prefix s.apps s.app_keys r e in
            let own : prefix ≡ id.key_prefix = ap (λ q. q.key_prefix) same in
            (
              i,
              k,
              a,
              parsed ∙ ap some own,
              record {
                stored = g;
                prefixed = p ∙ own;
                kept = v;
                owned = o;
                active = t;
                verifies = m;
              },
              sym (ap (λ q. q.app_id) same) ∙ x,
              λ c.
                  subst (λ l. Mem c l ↔ Mem (k.app_id, c) s.app_capabilities)
                    (sym (
                      sym (ap (λ q. q.capabilities) same)
                      ∙ ap (λ app. load_capabilities app s.app_capabilities) x))
                    (load_capabilities_iff k.app_id s.app_capabilities c),
              sym (ap (λ q. q.capability_set_ver) same) ∙ c,
            )
      ]

  -- An identity is given only for a well-formed token and a live key that the token opens, and it
  -- is that key's app with the app's version; a capability is among its capabilities exactly when
  -- the table has a row that gives it to that app.
  pub identified-IsLive :
      (bearer : Bytes) (s : Store) (id : RequesterIdentity)
      → resolve encode decode scan_params id_key bearer s ≡ identified id
      → (i : ℕ) × (k : AppKey) × (a : AppRow) × (parse_bearer bearer ≡ some id.key_prefix)
        × IsLive bearer id.key_prefix s i k a
        × (id.app_id ≡ k.app_id)
        × ((c : String) → Mem c id.capabilities ↔ Mem (k.app_id, c) s.app_capabilities)
        × (id.capability_set_ver ≡ a.capability_set_version)
  unfolding resolve
  identified-IsLive bearer s id h = elim (Option-cases (parse_bearer bearer)) [
    | inl e ↦ absurd (
        malformed_clash bearer s id
          (sym (ap (resolve_prefix encode decode scan_params id_key bearer s) e) ∙ h))
    | inr (prefix, e) ↦
        prefix_identified bearer prefix s id e
          (sym (ap (resolve_prefix encode decode scan_params id_key bearer s) e) ∙ h)
  ]

  -- A well-formed token that opens some live key gets an identity, whatever other keys are stored.
  pub live-identified :
      (bearer prefix : Bytes) (s : Store) (i : ℕ) (k : AppKey) (a : AppRow)
      → parse_bearer bearer ≡ some prefix
      → IsLive bearer prefix s i k a
      → (id : RequesterIdentity) × (resolve encode decode scan_params id_key bearer s
          ≡ identified id)
  unfolding resolve resolve_prefix answer_of
  live-identified bearer prefix s i k a parsed live =
      let (r, found) =
        found_key bearer prefix s.apps s.app_keys i k a live.stored live.prefixed live.kept
          live.owned live.active live.verifies in
      rw parsed (rw found (_, refl))
