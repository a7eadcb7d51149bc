-- ===== src/Auth/Secret/RoundTrip.antt =====
-- Hashes that internal/auth/argon2.go makes, under its own verification.
use telegram_server.Prelude.{
  ℕ, ◌≡◌, ◌≢◌, refl, [], ◌∷◌, ◌++◌, Option, some, Bytes, codes, bytes_eq, length, All, arith,
}
use telegram_server.Auth.Secret.{
  argon2_memory, argon2_iterations, argon2_parallelism, argon2_key_len, verified, cons_first, split,
  encode_argon2id, verify_key, verify_params, verify_parts, verify_api_key,
}

split_free : (d : ℕ) (p : Bytes) → All (λ c. c ≢ d) p → split d p ≡ p ∷ []
unfolding split cons_first
split_free d [] h = refl
split_free d (c ∷ p) (n, h) = ground (arith, split_free d p h)

split-append : (d : ℕ) (p s : Bytes) → All (λ c. c ≢ d) p → split d (p ++ d ∷ s) ≡ p ∷ split d s
unfolding split cons_first
split-append d [] s h = ground arith
split-append d (c ∷ p) s (n, h) = ground (arith, split-append d p s h)

module _ (encode : Bytes → Bytes) (decode : Bytes → Option Bytes)
    (scan_params : Bytes → Option (ℕ × ℕ × ℕ)) (id_key : Bytes → Bytes → ℕ → ℕ → ℕ → ℕ → Bytes)
    (plain : (b : Bytes) → All (λ c. c ≢ b'$') (encode b))
    (decoded : (b : Bytes) → decode (encode b) ≡ some b)
    (scanned : scan_params (codes "m=65536,t=3,p=1")
      ≡ some (argon2_memory, argon2_iterations, argon2_parallelism))
    (sized : (text salt : Bytes)
      → length (id_key text salt argon2_iterations argon2_memory argon2_parallelism argon2_key_len)
        ≡ argon2_key_len) where
  abbrev derived : Bytes → Bytes → Bytes
  derived text salt =
      id_key text salt argon2_iterations argon2_memory argon2_parallelism argon2_key_len

  split_encoded :
      (text salt : Bytes)
      → split b'$' (encode_argon2id encode decode scan_params id_key text salt)
        ≡ []
          ∷ codes "argon2id"
          ∷ codes "v=19"
          ∷ codes "m=65536,t=3,p=1"
          ∷ encode salt
          ∷ encode (derived text salt)
          ∷ []
  unfolding encode_argon2id split cons_first
  split_encoded text salt =
      rw (split-append b'$' (encode salt) (encode (derived text salt)) (plain salt))
        (rw (split_free b'$' (encode (derived text salt)) (plain (derived text salt))) refl)

  -- Verifying a key against the hash of a key compares the two keys' derivations under the hash's
  -- salt: it accepts exactly a key with the same derivation, and so the hashed key itself. It is
  -- assumed that base64 decodes what it encoded and never yields a dollar sign, that the parameter
  -- field is scanned as it was printed, and that derivations have the length asked for.
  pub verify_encoded :
      (other text salt : Bytes)
      → verify_api_key encode decode scan_params id_key other
          (encode_argon2id encode decode scan_params id_key text salt)
        ≡ verified (bytes_eq (derived other salt) (derived text salt))
  unfolding verify_api_key verify_parts verify_params verify_key
  verify_encoded other text salt = rw (split_encoded text salt) (
      rw scanned (rw (decoded salt) (rw (decoded (derived text salt)) (rw (sized text salt) refl))))
