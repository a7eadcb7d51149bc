-- ===== src/Auth/Secret.antt =====
-- internal/auth/argon2.go. Base64, the key derivation and `fmt.Sscanf` on the parameter field are
-- the libraries' and are parameters.
pub mod RoundTrip
use telegram_server.Prelude.{
  ℕ, ◌*◌, ◌≡◌, Bool, true, false, not, ◌&&◌, ◌||◌, List, [], ◌∷◌, ◌++◌, Option, none, some, Bytes,
  codes, bytes_eq, length, ◌==◌, if◌then◌else◌,
}

abbrev pub argon2_memory : ℕ
argon2_memory = 65536

abbrev pub argon2_iterations : ℕ
argon2_iterations = 3

abbrev pub argon2_parallelism : ℕ
argon2_parallelism = 1

abbrev pub argon2_key_len : ℕ
argon2_key_len = 32

pub data Verdict : Type 0 where
  invalid_hash_format unsupported_params : Verdict
  verified : Bool → Verdict

unfoldable pub cons_first : ℕ → List Bytes → List Bytes
cons_first c [] = (c ∷ []) ∷ []
cons_first c (p ∷ ps) = (c ∷ p) ∷ ps

-- `strings.Split` on a byte.
unfoldable pub split : ℕ → Bytes → List Bytes
unfolding cons_first
split d [] = [] ∷ []
split d (c ∷ s) = let rest = split d s in if c == d then [] ∷ rest else cons_first c rest

-- `idKey` has `argon2.IDKey`'s arguments: text, salt, iterations, memory, parallelism, length.
module _ (encode : Bytes → Bytes) (decode : Bytes → Option Bytes)
    (scan_params : Bytes → Option (ℕ × ℕ × ℕ))
    (id_key : Bytes → Bytes → ℕ → ℕ → ℕ → ℕ → Bytes) where
  -- The format's header, with the pinned parameters written out.
  unfoldable pub encode_argon2id : Bytes → Bytes → Bytes
  encode_argon2id cleartext salt =
      let key =
        id_key cleartext salt argon2_iterations argon2_memory argon2_parallelism argon2_key_len in
      codes "$argon2id$v=19$m=65536,t=3,p=1$" ++ encode salt ++ b'$' ∷ encode key

  -- From the decoding of the salt and the hash on.
  unfoldable pub verify_key : Bytes → ℕ × ℕ × ℕ → Option Bytes → Option Bytes → Verdict
  unfolding bytes_eq
  verify_key cleartext params none want = invalid_hash_format
  verify_key cleartext params (some salt) none = invalid_hash_format
  verify_key cleartext (mem, iter, par) (some salt) (some want) =
      verified (bytes_eq (id_key cleartext salt iter mem par (length want)) want)

  unfoldable pub verify_params : Bytes → Option (ℕ × ℕ × ℕ) → Bytes → Bytes → Verdict
  unfolding verify_key
  verify_params cleartext none salt key = invalid_hash_format
  verify_params cleartext (some (mem, iter, par)) salt key =
      if not (mem == argon2_memory)
        || not (iter == argon2_iterations)
        || not (par == argon2_parallelism)
      then unsupported_params
      else verify_key cleartext (mem, iter, par) (decode salt) (decode key)

  unfoldable pub verify_parts : Bytes → List Bytes → Verdict
  unfolding verify_params bytes_eq
  verify_parts cleartext (p0 ∷ p1 ∷ p2 ∷ p3 ∷ p4 ∷ p5 ∷ []) =
      if not (bytes_eq p0 []) || not (bytes_eq p1 (codes "argon2id"))
      then invalid_hash_format
      else if not (bytes_eq p2 (codes "v=19"))
      then invalid_hash_format
      else verify_params cleartext (scan_params p3) p4 p5
  verify_parts cleartext _ = invalid_hash_format

  -- `VerifyAPIKey`.
  unfoldable pub verify_api_key : Bytes → Bytes → Verdict
  unfolding split verify_parts
  verify_api_key cleartext encoded = verify_parts cleartext (split b'$' encoded)
