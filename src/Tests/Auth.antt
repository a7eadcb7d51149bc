-- ===== src/Tests/Auth.antt =====
-- Tokens, keys and routes at concrete inputs (internal/auth and internal/api/middleware). The key
-- derivation here puts the first 32 bytes of the text and of the salt after one another.
use telegram_server.Prelude.{
  ℕ, zero, suc, ◌≤◌, Bool, List, ◌+◌, ◌-◌, ◌≡◌, ◌≢◌, ◌↔◌, ◌⊎◌, refl, ap, String, true, false, [],
  ◌∷◌, ◌++◌, Option, some, Bytes, codes, bytes_eq, bytes_eq_refl, length, All, arith,
}
use telegram_server.Ratelimit.Bucket.{Policy}
use telegram_server.Tests.Ratelimit.{whole}
use telegram_server.Auth.Bearer.{
  after_prefix, index_byte, key_prefix_of, parse_rest, parse_bearer, parse_bearer-some_iff,
}
use telegram_server.Auth.Secret.{
  verified, split, cons_first, encode_argon2id, verify_key, verify_params, verify_parts,
  verify_api_key,
}
use telegram_server.Auth.Secret.RoundTrip.{verify_encoded}
use telegram_server.Auth.KeyStore.{
  AppKey, AppRow, Store, RequesterIdentity, Answer, identified, load_capabilities, matches, resolve,
  resolve_prefix, match_row, answer_of, key_rows, key_row, add_row, app_row,
}
use telegram_server.Auth.KeyStore.Live.{IsLive, identified-IsLive, live-identified}
use telegram_server.Database.{AppRecord, Database, store_of, count, find_record}
use telegram_server.Adminui.Keys.{
  succeeded, has_prefix, is_taken, admit, insert_key, insert_unless_taken, issue_key, update_key,
  revoke_key, KeyOperation, issue, apply_all,
}
use telegram_server.Adminui.Keys.Pages.{Page, issued_page, check_issue, handle_key_issue}
use telegram_server.Adminui.Keys.Shown.{Opens, Verifies, shown_key-Opens}
use telegram_server.Bot.Text.{trim}
use telegram_server.Bot.{blank}
use telegram_server.Audit.Event.{key_issued}
use mathlib.Core.List.{Mem}
use mathlib.Core.Path.{subst}
use mathlib.Core.Option.{some-injective}
use telegram_server.Adminui.Keys.Revoked.{revoked_identifies_nobody}
use telegram_server.Api.Flow.{Env, World, sent_as, error_body}
use telegram_server.Auth.Gate.{HttpRequest, Site, Handler, route}
use telegram_server.Auth.Gate.Admission.{IsAdmitted, IsRefused, route_outcome}

parse_bearer-some_iff_example : (parse_bearer (codes "tg_ab_secret") ≡ some (codes "ab")) ↔ (
    (secret : Bytes) × (codes "tg_ab_secret" ≡ codes "tg_" ++ codes "ab" ++ b'_' ∷ secret)
    × (codes "ab" ≢ [])
    × (secret ≢ [])
    × All (λ c. c ≢ b'_') (codes "ab"))
parse_bearer-some_iff_example = parse_bearer-some_iff (codes "tg_ab_secret") (codes "ab")

-- Base64 and the scan, in a form that keeps off the dollar sign.
abbrev encode : Bytes → Bytes
encode [] = []
encode (b ∷ bs) = (b + 64) ∷ encode bs

abbrev decode_one : Bytes → Bytes
decode_one [] = []
decode_one (b ∷ bs) = (b - 64) ∷ decode_one bs

abbrev decode : Bytes → Option Bytes
decode b = some (decode_one b)

abbrev scan_params : Bytes → Option (ℕ × ℕ × ℕ)
scan_params b = some (65536, 3, 1)

abbrev pad : ℕ → Bytes → Bytes
pad zero b = []
pad (suc n) [] = 0 ∷ pad n []
pad (suc n) (c ∷ b) = c ∷ pad n b

abbrev id_key : Bytes → Bytes → ℕ → ℕ → ℕ → ℕ → Bytes
id_key text salt iterations memory parallelism size = pad size text

plain : (b : Bytes) → All (λ c. c ≢ b'$') (encode b)
plain [] = tt
plain (c ∷ b) = (λ e. omega arith, plain b)

decoded_one : (b : Bytes) → decode_one (encode b) ≡ b
decoded_one [] = refl
decoded_one (c ∷ b) = grind (arith, decoded_one b)

decoded : (b : Bytes) → decode (encode b) ≡ some b
decoded b = ap some (decoded_one b)

length-pad : (n : ℕ) (b : Bytes) → length (pad n b) ≡ n
length-pad zero b = refl
length-pad (suc n) [] = ap suc (length-pad n [])
length-pad (suc n) (c ∷ b) = ap suc (length-pad n b)

abbrev token : Bytes
token = codes "tg_ab_secret"

verify_encoded_example :
    verify_api_key encode decode scan_params id_key
      (codes "tg_ab_other")
      (encode_argon2id encode decode scan_params id_key token (codes "salt"))
    ≡ verified (bytes_eq (pad 32 (codes "tg_ab_other")) (pad 32 token))
verify_encoded_example =
    verify_encoded encode decode scan_params id_key plain decoded refl
      (λ text salt. length-pad 32 text) (codes "tg_ab_other") token (codes "salt")

abbrev hash : Bytes
hash =
    codes "$argon2id$v=19$m=65536,t=3,p=1$" ++ encode (codes "salt") ++ b'$' ∷ encode (pad 32 token)

abbrev key : AppKey
key = record {
  app_id = "app";
  key_prefix = codes "ab";
  key_hash = hash;
  label = "";
  revoked = false;
}

abbrev app : AppRow
app = record { id = "app"; active = true; capability_set_version = 4 }

-- The first key has the same prefix and a hash that does not parse.
abbrev store : Store
store = record {
  app_keys = record key { key_hash = codes "broken" } ∷ key ∷ [];
  apps = app ∷ [];
  app_capabilities = ("app", "audit.search") ∷ ("other", "noop.invoke") ∷ [];
}

parsed : parse_bearer token ≡ some (codes "ab")
unfolding parse_bearer parse_rest after_prefix index_byte key_prefix_of
parsed = refl

opened : matches (verify_api_key encode decode scan_params id_key token hash) ≡ true
unfolding matches verify_api_key verify_parts verify_params verify_key split cons_first bytes_eq
opened = refl

key-IsLive : IsLive encode decode scan_params id_key token (codes "ab") store 1 key app
unfolding app_row
key-IsLive = record {
  stored = refl;
  prefixed = refl;
  kept = refl;
  owned = refl;
  active = refl;
  verifies = opened;
}

live-identified_example :
    (id : RequesterIdentity) × (resolve encode decode scan_params id_key token store
      ≡ identified id)
live-identified_example =
    live-identified encode decode scan_params id_key token (codes "ab") store 1 key app parsed
      key-IsLive

abbrev found_id : RequesterIdentity
found_id = record {
  app_id = "app";
  capabilities = "audit.search" ∷ [];
  capability_set_ver = 4;
  key_prefix = codes "ab";
}

resolved : resolve encode decode scan_params id_key token store ≡ identified found_id
unfolding resolve resolve_prefix match_row answer_of load_capabilities key_rows key_row add_row
    app_row parse_bearer parse_rest after_prefix index_byte key_prefix_of matches verify_api_key
    verify_parts verify_params verify_key split cons_first bytes_eq
resolved = refl

identified-IsLive_example :
    (i : ℕ) × (k : AppKey) × (a : AppRow) × (parse_bearer token ≡ some (codes "ab"))
    × IsLive encode decode scan_params id_key token (codes "ab") store i k a
    × ("app" ≡ k.app_id)
    × ((c : String) → Mem c found_id.capabilities ↔ Mem (k.app_id, c) store.app_capabilities)
    × (4 ≡ a.capability_set_version)
identified-IsLive_example =
    identified-IsLive encode decode scan_params id_key token store found_id resolved

abbrev env : Env
env = record { audit = some (λ n. true); send = λ n h e. sent_as 1 }

abbrev request : HttpRequest
request = record {
  trace_id = "trace";
  path = "/admin/audit/search";
  remote_addr = "10.0.0.1";
  authorization = codes "Bearer tg_ab_secret";
}

abbrev handler : Handler
handler id s = (s, record { status = 200; body = error_body id.app_id })

abbrev resolver : Bytes → Answer
resolver bearer = resolve encode decode scan_params id_key bearer store

abbrev site : Site
site = record { world = record { trace = []; writes = 0; sends = 0 }; buckets = [] }

abbrev ten_each : String → Policy
ten_each k = record { rate_per_sec = whole.constant 10; burst = whole.constant 20 }

route_outcome_example :
    ((id : RequesterIdentity) × (s' : Site) × IsAdmitted whole resolver
        (some ten_each)
        5
        "audit.search"
        request
        site
        id
        s'
      × (route env whole resolver (some ten_each) 5 "audit.search" request handler site
          ≡ handler id s'))
    ⊎ IsRefused env request site
        (route env whole resolver (some ten_each) 5 "audit.search" request handler site)
route_outcome_example =
    route_outcome env whole resolver 5 "audit.search" request handler site (some ten_each)

abbrev registered : AppRecord
registered = record {
  id = "app";
  name = "App";
  description = "";
  min_grade = "user";
  active = true;
  capability_set_version = 4;
  created_by = "";
}

abbrev tables : Database
tables = record {
  users = record { users = []; next_id = 1 };
  apps = registered ∷ [];
  app_capabilities = [];
  app_keys = record key { key_prefix = codes "cd" } ∷ [];
  user_subscriptions = [];
  user_topics = [];
  pending_supergroup_tokens = [];
}

abbrev never : ℕ → Bool
never n = false

issues : (issue_key never "app" (codes "ab") hash "first" tables).1 ≡ succeeded
unfolding issue_key admit insert_unless_taken is_taken count find_record bytes_eq
issues = refl

-- A hash with a fixed salt.
abbrev hash_api_key : Bytes → Option Bytes
hash_api_key plaintext =
    some (encode_argon2id encode decode scan_params id_key plaintext (codes "salt"))

hash_verifies :
    (plaintext : Bytes)
    → matches (
        verify_api_key encode decode scan_params id_key plaintext
          (encode_argon2id encode decode scan_params id_key plaintext (codes "salt")))
      ≡ true
unfolding matches
hash_verifies plaintext =
    rw
      (verify_encoded encode decode scan_params id_key plain decoded refl
        (λ text salt. length-pad 32 text) plaintext plaintext (codes "salt"))
      (bytes_eq_refl (pad 32 plaintext))

hash_api_key-Verifies : Verifies encode decode scan_params id_key hash_api_key
hash_api_key-Verifies = record {
  verifies = λ plaintext hashed h.
      subst (λ x. matches (verify_api_key encode decode scan_params id_key plaintext x) ≡ true)
        (some-injective _ _ h) (hash_verifies plaintext);
}

abbrev issuing : Database × World × Page
issuing =
    handle_key_issue env never (blank key_issued) hash_api_key (some (codes "secret")) true " app"
      "abcd " "first" tables (record { trace = []; writes = 0; sends = 0 })

issues_page : issuing.2 ≡ issued_page (codes "tg_abcd_secret")
unfolding handle_key_issue check_issue issue_key admit insert_unless_taken is_taken count
    find_record bytes_eq
issues_page = refl

shown_key-Opens_example :
    Opens encode decode scan_params id_key (codes "tg_abcd_secret") (trim " app") issuing.0
shown_key-Opens_example =
    shown_key-Opens encode decode scan_params id_key env never (blank key_issued) hash_api_key
      (some (codes "secret")) true " app" "abcd " "first" tables
      (record { trace = []; writes = 0; sends = 0 }) (codes "tg_abcd_secret") hash_api_key-Verifies
      (λ e. cc) issues_page

abbrev issued_tables : Database
issued_tables = (issue_key never "app" (codes "ab") hash "first" tables).0

one_key : count (has_prefix (codes "ab")) issued_tables.app_keys ≤ 1
unfolding issue_key admit insert_unless_taken is_taken count find_record bytes_eq insert_key
one_key = omega arith

revokes : (revoke_key never "app" (codes "ab") issued_tables).1 ≡ succeeded
unfolding issue_key admit insert_unless_taken is_taken count find_record bytes_eq insert_key
    revoke_key update_key
revokes = refl

abbrev reissue : List (KeyOperation × (ℕ → Bool))
reissue = (issue "app" (codes "ab") hash "again", never) ∷ []

revoked_identifies_nobody_example :
    resolve encode decode scan_params id_key token
      (store_of (apply_all reissue (revoke_key never "app" (codes "ab") issued_tables).0))
    ≢ identified found_id
revoked_identifies_nobody_example =
    revoked_identifies_nobody encode decode scan_params id_key never "app" (codes "ab")
      issued_tables reissue token found_id one_key revokes refl
