-- ===== src/Adminui/Keys/Dead.antt =====
-- Prefixes of revoked keys, through the operations of the operator's key store.
use telegram_server.Prelude.{
  ℕ, zero, suc, ◌+◌, ◌≤◌, String, Bool, true, false, not, ◌&&◌, ◌||◌, List, [], ◌∷◌, ◌++◌, some,
  Bytes, bytes_eq, bytes_eq_iff, ◌==◌, if◌then◌else◌, ◌≡◌, refl, ap, get_elem?, arith, Bool-cases,
  inl, inr,
}
use telegram_server.Auth.KeyStore.{AppKey}
use telegram_server.Database.{Database, count, find_record}
use telegram_server.Adminui.Keys.{
  KeyResult, succeeded, app_not_found, app_inactive, prefix_taken, key_not_found, failed,
  has_prefix, is_taken, require_app, insert_key, insert_unless_taken, admit, issue_key, is_live,
  update_live, update_key, revoke, revoke_key, relabel, update_key_label, KeyOperation, issue,
  revoked, relabelled, apply, apply_all,
}

abbrev pub opens : Bytes → AppKey → Bool
opens prefix k = bytes_eq k.key_prefix prefix && not k.revoked

-- No key with the prefix is live, and there is one.
pub record IsDead (prefix : Bytes) (keys : List AppKey) : Type 0 where
  pub none_live : count (opens prefix) keys ≡ 0
  pub taken : 1 ≤ count (has_prefix prefix) keys

count-update_revoke :
    (app : String) (prefix : Bytes) (ks : List AppKey)
    → count (opens prefix) (update_live app prefix revoke ks) + count (is_live app prefix) ks
      ≡ count (opens prefix) ks
unfolding count update_live
count-update_revoke app prefix [] = refl
count-update_revoke app prefix (k ∷ ks) = ground (arith, count-update_revoke app prefix ks)

opens-le :
    (prefix : Bytes) (ks : List AppKey) → count (opens prefix) ks ≤ count (has_prefix prefix) ks
unfolding count
opens-le prefix [] = omega arith
opens-le prefix (k ∷ ks) = ground (arith, opens-le prefix ks)

-- An update that keeps prefixes and opens no key.
count-update :
    (app : String) (p prefix : Bytes) (set : AppKey → AppKey) (ks : List AppKey)
    → ((k : AppKey) → (set k).key_prefix ≡ k.key_prefix)
    → ((k : AppKey) → k.revoked ≡ true → (set k).revoked ≡ true)
    → (count (has_prefix p) (update_live app prefix set ks) ≡ count (has_prefix p) ks)
      × (count (opens p) (update_live app prefix set ks) ≤ count (opens p) ks)
unfolding count update_live
count-update app p prefix set [] same shut = (refl, omega arith)
count-update app p prefix set (k ∷ ks) same shut =
    ground (arith, same k, shut k, count-update app p prefix set ks same shut)

count-append :
    (f : AppKey → Bool) (ks : List AppKey) (k : AppKey)
    → count f (ks ++ k ∷ []) ≡ count f ks + (if f k then 1 else 0)
unfolding count
count-append f [] k = ground arith
count-append f (x ∷ ks) k = ground (arith, count-append f ks k)

update_key-IsDead :
    (fault : ℕ → Bool) (app : String) (p prefix : Bytes) (set : AppKey → AppKey) (db : Database)
    → ((k : AppKey) → (set k).key_prefix ≡ k.key_prefix)
    → ((k : AppKey) → k.revoked ≡ true → (set k).revoked ≡ true)
    → IsDead p db.app_keys
    → IsDead p (update_key fault app prefix set db).0.app_keys
unfolding update_key
update_key-IsDead fault app p prefix set db same shut d = elim (Bool-cases (fault 0)) [
  | inl e ↦ rw (e, update_key) d
  | inr e ↦ elim (Bool-cases (count (is_live app prefix) db.app_keys == 0)) [
    | inl f ↦ rw (e, f, update_key) d
    | inr f ↦
        let c = count-update app p prefix set db.app_keys same shut in
        rw (e, f, update_key)
          (record {
            none_live = omega (arith, c.1, d.none_live);
            taken = omega (arith, c.0, d.taken);
          })
  ]
]

insert_key-IsDead :
    (app : String) (p prefix hash : Bytes) (label : String) (db : Database)
    → is_taken prefix db.app_keys ≡ false
    → IsDead p db.app_keys
    → IsDead p (insert_key app prefix hash label db).app_keys
unfolding insert_key is_taken
insert_key-IsDead app p prefix hash label db t d =
    let k : AppKey = record {
      app_id = app;
      key_prefix = prefix;
      key_hash = hash;
      label = label;
      revoked = false;
    } in
    elim (Bool-cases (bytes_eq prefix p)) [
      | inl e ↦ absurd (clash ((bytes_eq_iff prefix p).0 e))
      | inr e ↦ record {
        none_live = ground (arith, count-append (opens p) db.app_keys k, d.none_live);
        taken = ground (arith, count-append (has_prefix p) db.app_keys k, d.taken);
      }
    ]
  where
    clash : prefix ≡ p → ⊥
    clash e =
        let f : count (has_prefix prefix) db.app_keys ≡ count (has_prefix p) db.app_keys =
          ap (λ (q : Bytes). count (has_prefix q) db.app_keys) e in
        ground (arith, d.taken)

insert_unless_taken-IsDead :
    (fault : ℕ → Bool) (app : String) (p prefix hash : Bytes) (label : String) (db : Database)
    → IsDead p db.app_keys
    → IsDead p (insert_unless_taken fault app prefix hash label db).0.app_keys
unfolding insert_unless_taken
insert_unless_taken-IsDead fault app p prefix hash label db d =
    elim (Bool-cases (is_taken prefix db.app_keys)) [
      | inl t ↦ elim (Bool-cases (fault 2)) [
        | inl e ↦ rw (e, insert_unless_taken) d
        | inr e ↦ rw (e, t, insert_unless_taken) d
      ]
      | inr t ↦ elim (Bool-cases (fault 2)) [
        | inl e ↦ rw (e, insert_unless_taken) d
        | inr e ↦ elim (Bool-cases (fault 3 || fault 4)) [
          | inl f ↦ rw (e, t, f, insert_unless_taken) d
          | inr f ↦
              rw (e, t, f, insert_unless_taken) (insert_key-IsDead app p prefix hash label db t d)
        ]
      ]
    ]

admit-IsDead :
    (fault : ℕ → Bool) (app : String) (p prefix hash : Bytes) (label : String) (db : Database)
    (r : KeyResult)
    → IsDead p db.app_keys
    → IsDead p (admit fault app prefix hash label db r).0.app_keys
unfolding admit
admit-IsDead fault app p prefix hash label db succeeded d =
    insert_unless_taken-IsDead fault app p prefix hash label db d
admit-IsDead fault app p prefix hash label db app_not_found d = d
admit-IsDead fault app p prefix hash label db app_inactive d = d
admit-IsDead fault app p prefix hash label db prefix_taken d = d
admit-IsDead fault app p prefix hash label db key_not_found d = d
admit-IsDead fault app p prefix hash label db failed d = d

issue_key-IsDead :
    (fault : ℕ → Bool) (app : String) (p prefix hash : Bytes) (label : String) (db : Database)
    → IsDead p db.app_keys
    → IsDead p (issue_key fault app prefix hash label db).0.app_keys
unfolding issue_key
issue_key-IsDead fault app p prefix hash label db d = elim (Bool-cases (fault 0 || fault 1)) [
  | inl e ↦ rw (e, issue_key) d
  | inr e ↦
      rw (e, issue_key)
        (admit-IsDead fault app p prefix hash label db (require_app (find_record app db.apps)) d)
]

apply-IsDead :
    (o : KeyOperation) (fault : ℕ → Bool) (p : Bytes) (db : Database)
    → IsDead p db.app_keys
    → IsDead p (apply o fault db).app_keys
unfolding apply revoke_key update_key_label
apply-IsDead (issue app prefix hash label) fault p db d =
    issue_key-IsDead fault app p prefix hash label db d
apply-IsDead (revoked app prefix) fault p db d =
    update_key-IsDead fault app p prefix revoke db (λ k. refl) (λ k h. refl) d
apply-IsDead (relabelled app prefix label) fault p db d =
    update_key-IsDead fault app p prefix (relabel label) db (λ k. refl) (λ k h. h) d

pub apply_all-IsDead :
    (ops : List (KeyOperation × (ℕ → Bool))) (p : Bytes) (db : Database)
    → IsDead p db.app_keys
    → IsDead p (apply_all ops db).app_keys
unfolding apply_all
apply_all-IsDead [] p db d = d
apply_all-IsDead ((o, fault) ∷ more) p db d =
    apply_all-IsDead more p (apply o fault db) (apply-IsDead o fault p db d)

live-le :
    (app : String) (prefix : Bytes) (ks : List AppKey)
    → count (is_live app prefix) ks ≤ count (has_prefix prefix) ks
unfolding count
live-le app prefix [] = omega arith
live-le app prefix (k ∷ ks) = ground (arith, live-le app prefix ks)

pub revoke_key-IsDead :
    (fault : ℕ → Bool) (app : String) (prefix : Bytes) (db : Database)
    → count (has_prefix prefix) db.app_keys ≤ 1
    → (revoke_key fault app prefix db).1 ≡ succeeded
    → IsDead prefix (revoke_key fault app prefix db).0.app_keys
unfolding revoke_key update_key
revoke_key-IsDead fault app prefix db unique h = elim (Bool-cases (fault 0)) [
  | inl e ↦ ground arith
  | inr e ↦ elim (Bool-cases (count (is_live app prefix) db.app_keys == 0)) [
    | inl f ↦ ground arith
    | inr f ↦
        let c = count-update app prefix prefix revoke db.app_keys (λ k. refl) (λ k z. refl) in
        rw (e, f, update_key)
          (record {
            none_live =
                ground
                  (arith, count-update_revoke app prefix db.app_keys, opens-le prefix db.app_keys);
            taken = ground (arith, c.0, live-le app prefix db.app_keys);
          })
  ]
]

pub opened :
    (prefix : Bytes) (ks : List AppKey) (i : ℕ) (k : AppKey)
    → get_elem? ks i ≡ some k
    → k.key_prefix ≡ prefix
    → k.revoked ≡ false
    → 1 ≤ count (opens prefix) ks
unfolding count
opened prefix [] i k h p r = cc
opened prefix (x ∷ ks) zero k h p r = ground (arith, bytes_eq_iff x.key_prefix prefix)
opened prefix (x ∷ ks) (suc i) k h p r = omega (arith, opened prefix ks i k h p r)
