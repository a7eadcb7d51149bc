-- ===== src/Adminui/Session/Cookie.antt =====
-- Which cookies internal/adminui/session.go accepts.
use telegram_server.Prelude.{
  ℕ, ◌≤◌, ◌≡◌, ◌≢◌, refl, sym, ap, ◌∙◌, false, ◌||◌, [], ◌∷◌, ◌++◌, Option, none, some, Bytes,
  bytes_eq_refl, bytes_eq_iff, Option-cases, inl, inr, All, ltb, if◌then◌else◌, arith,
}
use mathlib.Core.Option.{none-ne-some}
use telegram_server.Adminui.Session.{
  unix, Revoked, is_revoked, cut, split_rest, split_first, signature, sign, verify_expiry,
  verify_parts, verify,
}

pub cut-append : (d : ℕ) (p s : Bytes) → All (λ c. c ≢ d) p → cut d (p ++ d ∷ s) ≡ some (p, s)
unfolding cut
cut-append d [] s h = ground arith
cut-append d (c ∷ p) s (n, h) = ground (arith, cut-append d p s h)

cut-some : (d : ℕ) (s a b : Bytes) → cut d s ≡ some (a, b) → s ≡ a ++ d ∷ b
unfolding cut
cut-some d [] a b h = cc
cut-some d (c ∷ s) a b h = elim (Option-cases (cut d s)) [
  | inl e ↦ grind (arith, e)
  | inr ((x, y), e) ↦ let l = cut-some d s x y e in grind (arith, e, l)
]

module _ (format_int : ℕ → Bytes) (parse_int : Bytes → Option ℕ) (hmac : Bytes → Bytes → Bytes)
    (hex : Bytes → Bytes) (secret : Bytes) where
  -- A signed cookie is accepted, with its nonce and expiry, unless it has expired or its nonce is
  -- revoked. Printed numbers are assumed to read back and to hold no bar, and the nonce holds none.
  pub verify-sign :
      (now expiry : ℕ) (nonce : Bytes) (revoked : Revoked)
      → parse_int (format_int expiry) ≡ some expiry
      → All (λ c. c ≢ b'|') (format_int expiry)
      → All (λ c. c ≢ b'|') nonce
      → verify format_int parse_int hmac hex secret now revoked
          (sign format_int parse_int hmac hex secret expiry nonce)
        ≡ (if ltb expiry (unix now) || is_revoked nonce revoked then none else some (nonce, expiry))
  unfolding verify split_first split_rest verify_parts verify_expiry sign
  verify-sign now expiry nonce revoked parsed plain free =
      let sig = signature format_int parse_int hmac hex secret (format_int expiry) nonce in
      rw (cut-append b'|' (format_int expiry) (nonce ++ b'|' ∷ sig) plain)
        (rw (cut-append b'|' nonce sig free) (rw parsed (rw (bytes_eq_refl sig) (ground arith))))

  abbrev Accepted : ℕ → ℕ → Bytes → Bytes → Revoked → Type 0
  Accepted now expiry nonce value revoked =
      (printed : Bytes) × (value
        ≡ printed
          ++ b'|' ∷ (nonce ++ b'|' ∷ signature format_int parse_int hmac hex secret printed nonce))
      × (parse_int printed ≡ some expiry)
      × (unix now ≤ expiry)
      × (is_revoked nonce revoked ≡ false)

  expiry_facts :
      (now expiry : ℕ) (printed nonce nonce' sig : Bytes) (revoked : Revoked) (o : Option ℕ)
      → verify_expiry format_int parse_int hmac hex secret now revoked (printed, nonce', sig) o
        ≡ some (nonce, expiry)
      → (nonce' ≡ nonce)
        × (sig ≡ signature format_int parse_int hmac hex secret printed nonce')
        × (o ≡ some expiry)
        × (unix now ≤ expiry)
        × (is_revoked nonce' revoked ≡ false)
  unfolding verify_expiry
  expiry_facts now expiry printed nonce nonce' sig revoked none h = cc
  expiry_facts now expiry printed nonce nonce' sig revoked (some e) h =
      ground
        (arith, bytes_eq_iff sig (signature format_int parse_int hmac hex secret printed nonce'))

  rest_facts :
      (now expiry : ℕ) (printed nonce value rest : Bytes) (revoked : Revoked)
      (o : Option (Bytes × Bytes))
      → value ≡ printed ++ b'|' ∷ rest
      → cut b'|' rest ≡ o
      → verify_parts format_int parse_int hmac hex secret now revoked (split_rest printed o)
        ≡ some (nonce, expiry)
      → Accepted now expiry nonce value revoked
  unfolding verify_parts split_rest
  rest_facts now expiry printed nonce value rest revoked none v c h =
      absurd (none-ne-some (nonce, expiry) h)
  rest_facts now expiry printed nonce value rest revoked (some (nonce', sig)) v c h =
      let (same, signed, parsed, live, kept) =
        expiry_facts now expiry printed nonce nonce' sig revoked (parse_int printed) h in
      let shape = cut-some b'|' rest nonce' sig c in
      (
        printed,
        v
            ∙ ap (λ l. printed ++ b'|' ∷ l)
                (shape
                  ∙ ap (λ l. nonce' ++ b'|' ∷ l) signed
                  ∙ ap (λ n. n ++ b'|' ∷ signature format_int parse_int hmac hex secret printed n)
                      same),
        parsed,
        live,
        sym (ap (λ n. is_revoked n revoked) same) ∙ kept,
      )

  parts_facts :
      (now expiry : ℕ) (nonce value : Bytes) (revoked : Revoked) (o : Option (Bytes × Bytes))
      → cut b'|' value ≡ o
      → verify_parts format_int parse_int hmac hex secret now revoked (split_first o)
        ≡ some (nonce, expiry)
      → Accepted now expiry nonce value revoked
  unfolding verify_parts split_first
  parts_facts now expiry nonce value revoked none c h = absurd (none-ne-some (nonce, expiry) h)
  parts_facts now expiry nonce value revoked (some (printed, rest)) c h =
      rest_facts now expiry printed nonce value rest revoked (cut b'|' rest)
        (cut-some b'|' value printed rest c) refl h

  -- An accepted value is an expiry, a nonce and the signature of the two under the secret; the
  -- expiry has not passed and the nonce is not revoked.
  pub accepted_signed :
      (now expiry : ℕ) (nonce value : Bytes) (revoked : Revoked)
      → verify format_int parse_int hmac hex secret now revoked value ≡ some (nonce, expiry)
      → (printed : Bytes) × (value
          ≡ printed
            ++ b'|'
              ∷ (nonce ++ b'|' ∷ signature format_int parse_int hmac hex secret printed nonce))
        × (parse_int printed ≡ some expiry)
        × (unix now ≤ expiry)
        × (is_revoked nonce revoked ≡ false)
  unfolding verify
  accepted_signed now expiry nonce value revoked h =
      parts_facts now expiry nonce value revoked (cut b'|' value) refl h
