-- ===== src/Adminui/Keys/Issued.antt =====
-- A key that the operator issues opens the API for its app.
use telegram_server.Prelude.{
  ℕ, zero, suc, String, Bool, true, false, ◌||◌, List, [], ◌∷◌, ◌++◌, map, Option, none, some,
  Bytes, str_eq, ◌≡◌, refl, sym, ap, ◌∙◌, get_elem?, length, arith, bytes_eq_iff, Bool-cases, inl,
  inr,
}
use telegram_server.Auth.Bearer.{parse_bearer}
use telegram_server.Auth.Secret.{verify_api_key}
use telegram_server.Auth.KeyStore.{
  AppKey, AppRow, app_row, RequesterIdentity, identified, matches, resolve,
}
use telegram_server.Auth.KeyStore.Live.{IsLive, identified-IsLive, live-identified}
use telegram_server.Database.{Database, AppRecord, key_app_view, store_of, count, find_record}
use telegram_server.Adminui.Keys.{
  succeeded, app_inactive, failed, is_taken, require_app, insert_key, insert_unless_taken, admit,
  issue_key,
}

-- What a success of `issue_key` tells.
record IsIssued (app : String) (prefix hash : Bytes) (label : String) (db after : Database)
    : Type 0 where
  owner : AppRecord
  found : find_record app db.apps ≡ some owner
  active : owner.active ≡ true
  fresh : is_taken prefix db.app_keys ≡ false
  inserted : after ≡ insert_key app prefix hash label db

insert_unless_taken-succeeded :
    (fault : ℕ → Bool) (app : String) (prefix hash : Bytes) (label : String) (db : Database)
    → (insert_unless_taken fault app prefix hash label db).1 ≡ succeeded
    → (is_taken prefix db.app_keys ≡ false)
      × ((insert_unless_taken fault app prefix hash label db).0
          ≡ insert_key app prefix hash label db)
unfolding insert_unless_taken
insert_unless_taken-succeeded fault app prefix hash label db h = ground arith

admit-IsIssued :
    (fault : ℕ → Bool) (app : String) (prefix hash : Bytes) (label : String) (db : Database)
    (o : Option AppRecord)
    → find_record app db.apps ≡ o
    → (admit fault app prefix hash label db (require_app o)).1 ≡ succeeded
    → IsIssued app prefix hash label db (admit fault app prefix hash label db (require_app o)).0
unfolding admit
admit-IsIssued fault app prefix hash label db none f h = cc
admit-IsIssued fault app prefix hash label db (some a) f h = elim (Bool-cases a.active) [
  | inl e ↦ rw e (record {
    owner = a;
    found = f;
    active = e;
    fresh = (insert_unless_taken-succeeded fault app prefix hash label db (rw e at h)).0;
    inserted = (insert_unless_taken-succeeded fault app prefix hash label db (rw e at h)).1;
  })
  | inr e ↦ let k : app_inactive ≡ succeeded = (rw e at h) in cc
]

issue_key-IsIssued :
    (fault : ℕ → Bool) (app : String) (prefix hash : Bytes) (label : String) (db : Database)
    → (issue_key fault app prefix hash label db).1 ≡ succeeded
    → IsIssued app prefix hash label db (issue_key fault app prefix hash label db).0
unfolding issue_key
issue_key-IsIssued fault app prefix hash label db h = elim (Bool-cases (fault 0 || fault 1)) [
  | inl e ↦ let k : failed ≡ succeeded = (rw e at h) in cc
  | inr e ↦
      rw (e, issue_key)
        (admit-IsIssued fault app prefix hash label db (find_record app db.apps) refl (rw e at h))
]

map_row : Option AppRecord → Option AppRow
map_row none = none
map_row (some a) = some (key_app_view a)

app_row-view :
    (id : String) (apps : List AppRecord) (a : AppRecord)
    → find_record id apps ≡ some a
    → app_row id (map key_app_view apps) ≡ some (key_app_view a)
unfolding find_record app_row map_row
app_row-view id [] a h = cc
app_row-view id (b ∷ apps) a h = elim (Bool-cases (str_eq b.id id)) [
  | inl e ↦ let k : some b ≡ some a = (rw e at h) in rw e (ap (map_row) k)
  | inr e ↦ rw e (app_row-view id apps a (rw e at h))
]

get_elem?-last : (ks : List AppKey) (k : AppKey) → get_elem? (ks ++ k ∷ []) (length ks) ≡ some k
get_elem?-last [] k = refl
get_elem?-last (x ∷ ks) k = get_elem?-last ks k

app_of : String → Option AppKey → String
app_of other none = other
app_of other (some k) = k.app_id

prefix_of : Bytes → Option AppKey → Bytes
prefix_of other none = other
prefix_of other (some k) = k.key_prefix

prefix_is : Bytes → Option Bytes → Bytes
prefix_is other none = other
prefix_is other (some p) = p

-- A key with a prefix that no stored key has is the one that was added.
only_key :
    (prefix : Bytes) (ks : List AppKey) (new k : AppKey) (i : ℕ)
    → is_taken prefix ks ≡ false
    → get_elem? (ks ++ new ∷ []) i ≡ some k
    → k.key_prefix ≡ prefix
    → k.app_id ≡ new.app_id
unfolding is_taken count
only_key prefix [] new k zero t h p = sym (unfold app_of in ap (app_of new.app_id) h)
only_key prefix [] new k (suc i) t h p = cc
only_key prefix (x ∷ ks) new k zero t h p =
    let e : x.key_prefix ≡ k.key_prefix = unfold prefix_of in ap (prefix_of prefix) h in
    ground (arith, bytes_eq_iff x.key_prefix prefix, e)
only_key prefix (x ∷ ks) new k (suc i) t h p = only_key prefix ks new k i (ground arith) h p

module _ (encode : Bytes → Bytes) (decode : Bytes → Option Bytes)
    (scan_params : Bytes → Option (ℕ × ℕ × ℕ))
    (id_key : Bytes → Bytes → ℕ → ℕ → ℕ → ℕ → Bytes) where
  inserted-IsLive :
      (app : String) (prefix hash bearer : Bytes) (label : String) (db : Database) (a : AppRecord)
      → find_record app db.apps ≡ some a
      → a.active ≡ true
      → matches (verify_api_key encode decode scan_params id_key bearer hash) ≡ true
      → IsLive encode decode scan_params id_key bearer prefix
          (store_of (insert_key app prefix hash label db))
          (length db.app_keys)
          (record {
            app_id = app;
            key_prefix = prefix;
            key_hash = hash;
            label = label;
            revoked = false;
          })
          (key_app_view a)
  unfolding insert_key
  inserted-IsLive app prefix hash bearer label db a f e v = record {
    stored = get_elem?-last db.app_keys _;
    prefixed = refl;
    kept = refl;
    owned = app_row-view app db.apps a f;
    active = e;
    verifies = v;
  }

  identified-owner :
      (app : String) (prefix hash bearer : Bytes) (label : String) (db : Database)
      (id : RequesterIdentity)
      → is_taken prefix db.app_keys ≡ false
      → parse_bearer bearer ≡ some prefix
      → resolve encode decode scan_params id_key bearer
          (store_of (insert_key app prefix hash label db))
        ≡ identified id
      → id.app_id ≡ app
  unfolding insert_key prefix_is
  identified-owner app prefix hash bearer label db id t parsed h =
      let (i, k, a, parsed', live, same, caps, ver) =
        identified-IsLive encode decode scan_params id_key bearer
          (store_of (insert_key app prefix hash label db)) id h in
      let p : id.key_prefix ≡ prefix = ap (prefix_is prefix) (sym parsed' ∙ parsed) in
      same ∙ only_key prefix db.app_keys _ k i t live.stored (live.prefixed ∙ p)

  -- When the operator issues a key with success, a well-formed token with its prefix that its hash
  -- verifies is resolved to an identity of the key's app, whatever other keys there are.
  pub issued_identifies :
      (fault : ℕ → Bool) (app : String) (prefix hash bearer : Bytes) (label : String)
      (db : Database)
      → (issue_key fault app prefix hash label db).1 ≡ succeeded
      → parse_bearer bearer ≡ some prefix
      → matches (verify_api_key encode decode scan_params id_key bearer hash) ≡ true
      → (id : RequesterIdentity) × (resolve encode decode scan_params id_key bearer
            (store_of (issue_key fault app prefix hash label db).0)
          ≡ identified id)
        × (id.app_id ≡ app)
  issued_identifies fault app prefix hash bearer label db done parsed verifies =
      let i = issue_key-IsIssued fault app prefix hash label db done in
      let (id, known) =
        live-identified encode decode scan_params id_key bearer prefix
          (store_of (insert_key app prefix hash label db)) (length db.app_keys) _ _ parsed
          (inserted-IsLive app prefix hash bearer label db i.owner i.found i.active verifies) in
      (
        id,
        ap (λ (d : Database). resolve encode decode scan_params id_key bearer (store_of d))
              i.inserted
            ∙ known,
        identified-owner app prefix hash bearer label db id i.fresh parsed known,
      )
