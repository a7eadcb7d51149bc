-- ===== src/Adminui/Session/Revocation.antt =====
-- Cookies of sessions that the operator ended: internal/adminui/session.go.
use telegram_server.Prelude.{
  ℕ, ◌+◌, ◌≤◌, ◌<◌, ◌≡◌, ◌≢◌, ap, ◌∙◌, Bool, true, false, not, ◌&&◌, ◌||◌, List, [], ◌∷◌, Option,
  none, some, Bytes, bytes_eq, bytes_eq_refl, bytes_eq_iff, bytes_eq_sound, ltb→lt, ltb→ge,
  Bool-cases, inl, inr, All, ltb, if◌then◌else◌, arith,
}
use telegram_server.Adminui.Session.{
  second, session_ttl, unix, Revoked, is_revoked, sweep, set_revoked, revoke, issue, verify,
}
use telegram_server.Adminui.Session.Cookie.{verify-sign}

-- The nonce is revoked until some time not before `t`.
unfoldable holds : Bytes → ℕ → Revoked → Bool
holds nonce t [] = false
holds nonce t ((n, u) ∷ more) = (bytes_eq n nonce && not (ltb u t)) || holds nonce t more

holds-is_revoked :
    (nonce : Bytes) (t : ℕ) (m : Revoked) → holds nonce t m ≡ true → is_revoked nonce m ≡ true
unfolding holds is_revoked
holds-is_revoked nonce t [] h = cc
holds-is_revoked nonce t ((n, u) ∷ more) h = ground (arith, holds-is_revoked nonce t more)

holds-sweep :
    (nonce : Bytes) (t now : ℕ) (m : Revoked)
    → now ≤ t
    → holds nonce t m ≡ true
    → holds nonce t (sweep now m) ≡ true
unfolding holds sweep
holds-sweep nonce t now [] le h = cc
holds-sweep nonce t now ((n, u) ∷ more) le h = ground (arith, holds-sweep nonce t now more le)

holds-set_self :
    (nonce : Bytes) (t : ℕ) (m : Revoked) → holds nonce t (set_revoked nonce t m) ≡ true
unfolding holds set_revoked
holds-set_self nonce t [] = ground (arith, bytes_eq_refl nonce)
holds-set_self nonce t ((n, u) ∷ more) =
    ground (arith, bytes_eq_refl nonce, holds-set_self nonce t more)

holds-set_later :
    (nonce other : Bytes) (t u : ℕ) (m : Revoked)
    → t ≤ u
    → holds nonce t m ≡ true
    → holds nonce t (set_revoked other u m) ≡ true
unfolding holds set_revoked
holds-set_later nonce other t u [] le h = cc
holds-set_later nonce other t u ((n, v) ∷ more) le h =
    ground (arith, holds-set_later nonce other t u more le, bytes_eq_iff n other)

-- Later calls of `Revoke`, the first one first.
unfoldable pub revoke_all : List (Bytes × ℕ) → Revoked → Revoked
revoke_all [] m = m
revoke_all ((n, t) ∷ more) m = revoke_all more (revoke n t m)

holds-revoke :
    (nonce other : Bytes) (t now : ℕ) (m : Revoked)
    → now ≤ t
    → t ≤ now + session_ttl
    → holds nonce t m ≡ true
    → holds nonce t (revoke other now m) ≡ true
unfolding revoke
holds-revoke nonce other t now m a b h = elim (Bool-cases (bytes_eq other [])) [
  | inl e ↦ rw e h
  | inr e ↦ rw e (
      holds-set_later nonce other t (now + session_ttl) (sweep now m) b
        (holds-sweep nonce t now m a h))
]

holds-revoke_all :
    (nonce : Bytes) (t : ℕ) (later : List (Bytes × ℕ)) (m : Revoked)
    → All (λ c. (c.1 ≤ t) × (t ≤ c.1 + session_ttl)) later
    → holds nonce t m ≡ true
    → holds nonce t (revoke_all later m) ≡ true
unfolding revoke_all
holds-revoke_all nonce t [] m a h = h
holds-revoke_all nonce t ((n, u) ∷ more) m ((x, y), a) h =
    holds-revoke_all nonce t more (revoke n u m) a (holds-revoke nonce n t u m x y h)

holds-revoke_self :
    (nonce : Bytes) (now : ℕ) (m : Revoked)
    → nonce ≢ []
    → holds nonce (now + session_ttl) (revoke nonce now m) ≡ true
unfolding revoke
holds-revoke_self nonce now m some_nonce = elim (Bool-cases (bytes_eq nonce [])) [
  | inl e ↦ absurd (some_nonce (bytes_eq_sound nonce [] e))
  | inr e ↦ rw e (holds-set_self nonce (now + session_ttl) (sweep now m))
]

early :
    (t1 now : ℕ) (later : List (Bytes × ℕ))
    → now ≤ t1 + session_ttl
    → All (λ c. (t1 ≤ c.1) × (c.1 ≤ now)) later
    → All (λ c. (c.1 ≤ t1 + session_ttl) × (t1 + session_ttl ≤ c.1 + session_ttl)) later
early t1 now [] le a = tt
early t1 now ((n, u) ∷ more) le ((x, y), a) = ((omega arith, omega arith), early t1 now more le a)

lt→ltb : (a b : ℕ) → a < b → ltb a b ≡ true
lt→ltb a b h = ground arith

or_true : (o : Option (Bytes × ℕ)) (a b : Bool) → b ≡ true → (if a || b then none else o) ≡ none
or_true o a b h = ground arith

expired_by :
    (t0 t1 now : ℕ) → t0 + second ≤ t1 → t1 + session_ttl < now → unix (t0 + session_ttl) < unix now
expired_by t0 t1 now a b = omega arith

module _ (format_int : ℕ → Bytes) (parse_int : Bytes → Option ℕ) (hmac : Bytes → Bytes → Bytes)
    (hex : Bytes → Bytes) (secret : Bytes) where
  -- A session that was issued at `t0` and revoked at `t1`, at least a second later, is not accepted
  -- at any time from then on, whatever sessions are revoked in between, each sweeping the set. The
  -- nonce is not empty; it and the printed expiry hold no bar, and the expiry reads back.
  pub revoked_stays_out :
      (t0 t1 now : ℕ) (nonce : Bytes) (later : List (Bytes × ℕ)) (m : Revoked)
      → parse_int (format_int (unix (t0 + session_ttl))) ≡ some (unix (t0 + session_ttl))
      → All (λ c. c ≢ b'|') (format_int (unix (t0 + session_ttl)))
      → All (λ c. c ≢ b'|') nonce
      → nonce ≢ []
      → t0 + second ≤ t1
      → All (λ c. (t1 ≤ c.1) × (c.1 ≤ now)) later
      → verify format_int parse_int hmac hex secret now
          (revoke_all later (revoke nonce t1 m))
          (issue format_int parse_int hmac hex secret t0 nonce)
        ≡ none
  unfolding issue
  revoked_stays_out t0 t1 now nonce later m parsed plain free some_nonce gap times =
      let set = revoke_all later (revoke nonce t1 m) in
      let expiry = unix (t0 + session_ttl) in
      let read =
        verify-sign format_int parse_int hmac hex secret now expiry nonce set parsed plain free in
      elim (Bool-cases (ltb (t1 + session_ttl) now)) [
        | inl e ↦
            let late = expired_by t0 t1 now gap (ltb→lt (t1 + session_ttl) now e) in
            let gone : ltb expiry (unix now) ≡ true = lt→ltb expiry (unix now) late in
            read ∙ ap (λ b. if b || is_revoked nonce set then none else some (nonce, expiry)) gone
        | inr e ↦
            let soon = early t1 now later (ltb→ge (t1 + session_ttl) now e) times in
            let held = holds-is_revoked nonce (t1 + session_ttl) set (
              holds-revoke_all nonce (t1 + session_ttl) later (revoke nonce t1 m) soon
                (holds-revoke_self nonce t1 m some_nonce)) in
            read
            ∙ or_true (some (nonce, expiry)) (ltb expiry (unix now)) (is_revoked nonce set) held
      ]
