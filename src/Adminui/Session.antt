-- ===== src/Adminui/Session.antt =====
-- The session cookies of internal/adminui/session.go. Times are in nanoseconds. HMAC-SHA256, hex
-- and the decimal format are the libraries' and are parameters.
pub mod Cookie
pub mod Revocation
use telegram_server.Prelude.{
  ℕ, ◌+◌, ◌/◌, Bool, true, false, not, ◌&&◌, ◌||◌, List, [], ◌∷◌, ◌++◌, Option, none, some, Bytes,
  bytes_eq, ltb, ◌==◌, if◌then◌else◌,
}

abbrev pub second : ℕ
second = 1000000000

abbrev pub session_ttl : ℕ
session_ttl = 43200000000000

-- `Time.Unix`.
abbrev pub unix : ℕ → ℕ
unix t = t / second

abbrev pub Revoked : Type 0
Revoked = List (Bytes × ℕ)

unfoldable pub is_revoked : Bytes → Revoked → Bool
unfolding bytes_eq
is_revoked nonce [] = false
is_revoked nonce ((n, t) ∷ more) = bytes_eq n nonce || is_revoked nonce more

-- The loop of `Revoke` that drops the entries whose time has passed.
unfoldable pub sweep : ℕ → Revoked → Revoked
sweep now [] = []
sweep now ((n, sweep_after) ∷ more) =
    let rest = sweep now more in if ltb sweep_after now then rest else (n, sweep_after) ∷ rest

unfoldable pub set_revoked : Bytes → ℕ → Revoked → Revoked
unfolding bytes_eq
set_revoked nonce t [] = (nonce, t) ∷ []
set_revoked nonce t ((n, u) ∷ more) =
    let rest = set_revoked nonce t more in
    if bytes_eq n nonce then (nonce, t) ∷ more else (n, u) ∷ rest

-- `SessionManager.Revoke`.
unfoldable pub revoke : Bytes → ℕ → Revoked → Revoked
unfolding sweep set_revoked bytes_eq
revoke nonce now m =
    if bytes_eq nonce [] then m else set_revoked nonce (now + session_ttl) (sweep now m)

-- `strings.Cut` on a byte.
unfoldable pub cut : ℕ → Bytes → Option (Bytes × Bytes)
cut d [] = none
cut d (c ∷ s) =
    if c == d then some ([], s) else elim (cut d s) [ none ↦ none | some (a, b) ↦ some (c ∷ a, b) ]

-- `strings.SplitN(value, "|", 3)`, when it has three parts.
unfoldable pub split_rest : Bytes → Option (Bytes × Bytes) → Option (Bytes × Bytes × Bytes)
split_rest a none = none
split_rest a (some (b, c)) = some (a, b, c)

unfoldable pub split_first : Option (Bytes × Bytes) → Option (Bytes × Bytes × Bytes)
unfolding split_rest cut
split_first none = none
split_first (some (a, rest)) = split_rest a (cut b'|' rest)

module _ (format_int : ℕ → Bytes) (parse_int : Bytes → Option ℕ) (hmac : Bytes → Bytes → Bytes)
    (hex : Bytes → Bytes) (secret : Bytes) where
  -- The signature of an expiry, as it is printed, and a nonce.
  abbrev pub signature : Bytes → Bytes → Bytes
  signature expiry nonce = hex (hmac secret (expiry ++ b'|' ∷ nonce))

  unfoldable pub sign : ℕ → Bytes → Bytes
  sign expiry nonce =
      format_int expiry ++ b'|' ∷ (nonce ++ b'|' ∷ signature (format_int expiry) nonce)

  -- `Issue`: the cookie's value, for the nonce that it drew.
  unfoldable pub issue : ℕ → Bytes → Bytes
  unfolding sign
  issue now nonce = sign (unix (now + session_ttl)) nonce

  unfoldable pub verify_expiry : ℕ → Revoked → Bytes × Bytes × Bytes → Option ℕ → Option (Bytes × ℕ)
  unfolding bytes_eq is_revoked
  verify_expiry now revoked parts none = none
  verify_expiry now revoked (expiry_str, nonce, sig) (some expiry) =
      if not (bytes_eq sig (signature expiry_str nonce))
      then none
      else if ltb expiry (unix now)
      then none
      else if is_revoked nonce revoked
      then none
      else some (nonce, expiry)

  unfoldable pub verify_parts : ℕ → Revoked → Option (Bytes × Bytes × Bytes) → Option (Bytes × ℕ)
  unfolding verify_expiry
  verify_parts now revoked none = none
  verify_parts now revoked (some (expiry_str, nonce, sig)) =
      verify_expiry now revoked (expiry_str, nonce, sig) (parse_int expiry_str)

  unfoldable pub verify : ℕ → Revoked → Bytes → Option (Bytes × ℕ)
  unfolding verify_parts split_first cut
  verify now revoked value = verify_parts now revoked (split_first (cut b'|' value))
