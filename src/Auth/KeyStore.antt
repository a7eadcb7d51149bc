-- ===== src/Auth/KeyStore.antt =====
-- `KeyStore.Resolve` of internal/auth/store.go, over the rows of app_keys, apps and
-- app_capabilities in the order in which the database returns them; queries here do not fail. The
-- library functions that the key hashes stand on are parameters, as in Auth/Secret.antt.
pub mod Live
use telegram_server.Prelude.{
  ℕ, String, Bool, true, false, not, ◌&&◌, List, [], ◌∷◌, Option, none, some, Bytes, bytes_eq,
  str_eq, if◌then◌else◌,
}
use telegram_server.Auth.Bearer.{parse_bearer}
use telegram_server.Auth.Secret.{Verdict, verified, verify_api_key}

pub record AppKey : Type 0 where
  pub app_id : String
  pub key_prefix : Bytes
  pub key_hash : Bytes
  pub label : String
  pub revoked : Bool

pub record AppRow : Type 0 where
  pub id : String
  pub active : Bool
  pub capability_set_version : ℕ

pub record Store : Type 0 where
  pub app_keys : List AppKey
  pub apps : List AppRow
  pub app_capabilities : List (String × String)

pub record RequesterIdentity : Type 0 where
  pub app_id : String
  pub capabilities : List String
  pub capability_set_ver : ℕ
  pub key_prefix : Bytes

-- The answers of `Resolver.Resolve` that its caller tells apart.
pub data Answer : Type 0 where
  identified : RequesterIdentity → Answer
  bearer_malformed key_not_found lookup_failed : Answer

-- The join of a key with its app: the first, as `apps.id` is the primary key.
unfoldable pub app_row : String → List AppRow → Option AppRow
app_row id [] = none
app_row id (a ∷ more) = if str_eq a.id id then some a else app_row id more

-- A row of the key query: app id, hash and version.
pub record KeyRow : Type 0 where
  pub app_id : String
  pub key_hash : Bytes
  pub cap_ver : ℕ

unfoldable pub key_row : Bytes → AppKey → Option AppRow → Option KeyRow
key_row prefix k none = none
key_row prefix k (some a) =
    if bytes_eq k.key_prefix prefix && not k.revoked && a.active
    then some
        (record { app_id = k.app_id; key_hash = k.key_hash; cap_ver = a.capability_set_version })
    else none

unfoldable pub add_row : Option KeyRow → List KeyRow → List KeyRow
add_row none rows = rows
add_row (some r) rows = r ∷ rows

unfoldable pub key_rows : Bytes → List AppRow → List AppKey → List KeyRow
unfolding key_row app_row add_row
key_rows prefix apps [] = []
key_rows prefix apps (k ∷ ks) =
    add_row (key_row prefix k (app_row k.app_id apps)) (key_rows prefix apps ks)

-- `loadCapabilitiesTx`.
unfoldable pub load_capabilities : String → List (String × String) → List String
load_capabilities app [] = []
load_capabilities app ((a, c) ∷ more) =
    let rest = load_capabilities app more in if str_eq a app then c ∷ rest else rest

unfoldable pub has_capability : String → List String → Bool
has_capability c [] = false
has_capability c (d ∷ ds) = if str_eq d c then true else has_capability c ds

-- Whether a row is the one that the loop stops at; a hash that does not parse is passed over.
unfoldable pub matches : Verdict → Bool
matches (verified b) = b
matches _ = false

module _ (encode : Bytes → Bytes) (decode : Bytes → Option Bytes)
    (scan_params : Bytes → Option (ℕ × ℕ × ℕ))
    (id_key : Bytes → Bytes → ℕ → ℕ → ℕ → ℕ → Bytes) where
  unfoldable pub match_row : Bytes → List KeyRow → Option KeyRow
  unfolding matches
  match_row bearer [] = none
  match_row bearer (r ∷ rs) =
      let rest = match_row bearer rs in
      if matches (verify_api_key encode decode scan_params id_key bearer r.key_hash)
      then some r
      else rest

  unfoldable pub answer_of : Bytes → Store → Option KeyRow → Answer
  unfolding load_capabilities
  answer_of prefix s none = key_not_found
  answer_of prefix s (some r) = identified (record {
    app_id = r.app_id;
    capabilities = load_capabilities r.app_id s.app_capabilities;
    capability_set_ver = r.cap_ver;
    key_prefix = prefix;
  })

  unfoldable pub resolve_prefix : Bytes → Store → Option Bytes → Answer
  unfolding match_row key_rows answer_of
  resolve_prefix bearer s none = bearer_malformed
  resolve_prefix bearer s (some prefix) =
      answer_of prefix s (match_row bearer (key_rows prefix s.apps s.app_keys))

  -- `KeyStore.Resolve`.
  unfoldable pub resolve : Bytes → Store → Answer
  unfolding resolve_prefix parse_bearer
  resolve bearer s = resolve_prefix bearer s (parse_bearer bearer)
