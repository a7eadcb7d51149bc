-- ===== src/Adminui/Keys/Revoked.antt =====
-- A key that the operator revokes opens nothing any more, whatever keys are issued later.
use telegram_server.Prelude.{ℕ, ◌≤◌, String, Bool, List, Option, Bytes, ◌≡◌, ◌≢◌, ◌∙◌, arith}
use telegram_server.Auth.KeyStore.{RequesterIdentity, identified, resolve}
use telegram_server.Auth.KeyStore.Live.{identified-IsLive}
use telegram_server.Database.{Database, store_of, count}
use telegram_server.Adminui.Keys.{succeeded, has_prefix, revoke_key, KeyOperation, apply_all}
use telegram_server.Adminui.Keys.Dead.{IsDead, apply_all-IsDead, revoke_key-IsDead, opened}

module _ (encode : Bytes → Bytes) (decode : Bytes → Option Bytes)
    (scan_params : Bytes → Option (ℕ × ℕ × ℕ))
    (id_key : Bytes → Bytes → ℕ → ℕ → ℕ → ℕ → Bytes) where
  -- A dead prefix identifies nobody.
  IsDead-unidentified :
      (db : Database) (prefix bearer : Bytes) (id : RequesterIdentity)
      → IsDead prefix db.app_keys
      → id.key_prefix ≡ prefix
      → resolve encode decode scan_params id_key bearer (store_of db) ≢ identified id
  IsDead-unidentified db prefix bearer id d p h =
      let (i, k, a, parsed, live, app, caps, ver) =
        identified-IsLive encode decode scan_params id_key bearer (store_of db) id h in
      let l = opened prefix db.app_keys i k live.stored (live.prefixed ∙ p) live.kept in
      omega (arith, l, d.none_live)

  -- Once the operator has revoked a key, with success and on tables in which its prefix is that of
  -- one key at most, no bearer token is resolved to an identity with that key's prefix, whatever
  -- keys are issued, revoked and relabelled later and whichever of their statements fail.
  pub revoked_identifies_nobody :
      (fault : ℕ → Bool) (app : String) (prefix : Bytes) (db : Database)
      (ops : List (KeyOperation × (ℕ → Bool))) (bearer : Bytes) (id : RequesterIdentity)
      → count (has_prefix prefix) db.app_keys ≤ 1
      → (revoke_key fault app prefix db).1 ≡ succeeded
      → id.key_prefix ≡ prefix
      → resolve encode decode scan_params id_key bearer
          (store_of (apply_all ops (revoke_key fault app prefix db).0))
        ≢ identified id
  revoked_identifies_nobody fault app prefix db ops bearer id unique done p =
      IsDead-unidentified (apply_all ops (revoke_key fault app prefix db).0) prefix bearer id
        (apply_all-IsDead ops prefix (revoke_key fault app prefix db).0
          (revoke_key-IsDead fault app prefix db unique done))
        p
