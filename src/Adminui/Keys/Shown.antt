-- ===== src/Adminui/Keys/Shown.antt =====
-- The key that the operator is shown opens the API for the app that it was issued for.
use telegram_server.Prelude.{
  ℕ, String, Bool, true, [], ◌∷◌, ◌++◌, All, Option, none, some, Bytes, codes, ◌≡◌, ◌≢◌, refl, sym,
  ap, ◌∙◌, arith,
}
use telegram_server.Audit.Event.{Event}
use telegram_server.Api.Flow.{Env, World}
use telegram_server.Auth.Bearer.{parse_bearer, parse_bearer-some_iff}
use telegram_server.Auth.Secret.{verify_api_key}
use telegram_server.Auth.KeyStore.{RequesterIdentity, identified, matches, resolve}
use telegram_server.Bot.Text.{trim}
use telegram_server.Database.{Database, store_of}
use telegram_server.Admin.Apps.{is_slug}
use telegram_server.Adminui.Keys.{
  KeyResult, succeeded, app_not_found, app_inactive, prefix_taken, key_not_found, failed, issue_key,
}
use telegram_server.Adminui.Keys.Issued.{issued_identifies}
use telegram_server.Adminui.Keys.Pages.{
  Page, issued_page, all_slug, is_key_prefix, issue_error, token_text, check_issue, show_issued,
  store_issued, draw_issued, issue_checked, handle_key_issue,
}

all_slug-free : (s : Bytes) → all_slug s ≡ true → All (λ c. c ≢ b'_') s
unfolding all_slug is_slug
all_slug-free [] h = tt
all_slug-free (c ∷ s) h = ((λ e. ground arith), all_slug-free s (ground arith))

is_key_prefix-some : (s : Bytes) → is_key_prefix s ≡ true → s ≢ []
unfolding is_key_prefix
is_key_prefix-some [] h e = ground arith
is_key_prefix-some (c ∷ s) h e = cc

token_text-parsed :
    (prefix secret : Bytes)
    → is_key_prefix prefix ≡ true
    → secret ≢ []
    → parse_bearer (token_text prefix secret) ≡ some prefix
unfolding token_text
token_text-parsed prefix secret h s =
    (parse_bearer-some_iff (codes "tg_" ++ prefix ++ b'_' ∷ secret) prefix).1 (
      secret,
      refl,
      is_key_prefix-some prefix h,
      s,
      all_slug-free prefix (unfold is_key_prefix in ground arith),
    )

show_issued-shown :
    (env : Env) (base : Event) (app prefix : String) (plaintext shown : Bytes) (w : World)
    (r : Database × KeyResult)
    → (show_issued env base app prefix plaintext w r).2 ≡ issued_page shown
    → (plaintext ≡ shown)
      × ((r.1 ≡ succeeded) × ((show_issued env base app prefix plaintext w r).0 ≡ r.0))
unfolding show_issued issue_error
show_issued-shown env base app prefix plaintext shown w (db, succeeded) h = (cc, (refl, refl))
show_issued-shown env base app prefix plaintext shown w (db, app_not_found) h = cc
show_issued-shown env base app prefix plaintext shown w (db, app_inactive) h = cc
show_issued-shown env base app prefix plaintext shown w (db, prefix_taken) h = cc
show_issued-shown env base app prefix plaintext shown w (db, key_not_found) h = cc
show_issued-shown env base app prefix plaintext shown w (db, failed) h = cc

check_issue-shown :
    (has_db : Bool) (app prefix label : String) (shown : Bytes)
    → check_issue has_db app prefix label ≢ some (issued_page shown)
unfolding check_issue
check_issue-shown has_db app prefix label shown h = ground arith

check_issue-prefix :
    (has_db : Bool) (app prefix label : String)
    → check_issue has_db app prefix label ≡ none
    → is_key_prefix (codes prefix) ≡ true
unfolding check_issue
check_issue-prefix has_db app prefix label h = ground arith

module _ (encode : Bytes → Bytes) (decode : Bytes → Option Bytes)
    (scan_params : Bytes → Option (ℕ × ℕ × ℕ))
    (id_key : Bytes → Bytes → ℕ → ℕ → ℕ → ℕ → Bytes) where
  -- The token is resolved to an identity of the app.
  pub record Opens (bearer : Bytes) (app : String) (db : Database) : Type 0 where
    pub identity : RequesterIdentity
    pub resolved :
        resolve encode decode scan_params id_key bearer (store_of db) ≡ identified identity
    pub same_app : identity.app_id ≡ app

  -- The hash that is stored for a key verifies the key.
  pub record Verifies (hash_api_key : Bytes → Option Bytes) : Type 0 where
    pub verifies :
        (plaintext hash : Bytes)
        → hash_api_key plaintext ≡ some hash
        → matches (verify_api_key encode decode scan_params id_key plaintext hash) ≡ true

  module _ (env : Env) (fault : ℕ → Bool) (base : Event) (hash_api_key : Bytes → Option Bytes)
      (sound : Verifies hash_api_key) (app prefix label : String) (db : Database) (w : World)
      (shown : Bytes) where
    store_issued-Opens :
        (secret : Bytes) (o : Option Bytes)
        → is_key_prefix (codes prefix) ≡ true
        → secret ≢ []
        → hash_api_key (token_text (codes prefix) secret) ≡ o
        → (store_issued env fault base app prefix label (token_text (codes prefix) secret) db w o).2
          ≡ issued_page shown
        → Opens shown app
            (store_issued env fault base app prefix label
              (token_text (codes prefix) secret)
              db
              w
              o).0
    unfolding store_issued
    store_issued-Opens secret none p s e h = cc
    store_issued-Opens secret (some hash) p s e h =
        let plaintext = token_text (codes prefix) secret in
        let r = issue_key fault app (codes prefix) hash label db in
        let (same, (done, left)) = show_issued-shown env base app prefix plaintext shown w r h in
        let (id, known, owner) =
          issued_identifies encode decode scan_params id_key fault app (codes prefix) hash plaintext
            label db done (token_text-parsed (codes prefix) secret p s)
            (sound.verifies plaintext hash e) in
        record {
          identity = id;
          resolved =
              ap
                (λ (b : Bytes).
                  resolve encode decode scan_params id_key b
                    (store_of (show_issued env base app prefix plaintext w r).0))
                (sym same)
              ∙ ap
                  (λ (d : Database).
                    resolve encode decode scan_params id_key plaintext (store_of d))
                  left
              ∙ known;
          same_app = owner;
        }

    draw_issued-Opens :
        (secret : Option Bytes)
        → is_key_prefix (codes prefix) ≡ true
        → secret ≢ some []
        → (draw_issued env fault base hash_api_key app prefix label db w secret).2
          ≡ issued_page shown
        → Opens shown app (draw_issued env fault base hash_api_key app prefix label db w secret).0
    unfolding draw_issued
    draw_issued-Opens none p s h = cc
    draw_issued-Opens (some secret) p s h =
        store_issued-Opens secret (hash_api_key (token_text (codes prefix) secret)) p
          (λ e. s (ap some e)) refl h

    issue_checked-Opens :
        (secret : Option Bytes) (o : Option Page)
        → (o ≡ none → is_key_prefix (codes prefix) ≡ true)
        → o ≢ some (issued_page shown)
        → secret ≢ some []
        → (issue_checked env fault base hash_api_key secret app prefix label db w o).2
          ≡ issued_page shown
        → Opens shown app
            (issue_checked env fault base hash_api_key secret app prefix label db w o).0
    unfolding issue_checked
    issue_checked-Opens secret (some page) p n s h = absurd (n (ap some h))
    issue_checked-Opens secret none p n s h = draw_issued-Opens secret (p refl) s h

  -- The key that the operator is shown after issuing it is resolved to an identity of the app that it
  -- was issued for, whatever other keys are stored. It is assumed that the secret which is drawn is
  -- not empty and that the hash of a key verifies this key.
  pub shown_key-Opens :
      (env : Env) (fault : ℕ → Bool) (base : Event) (hash_api_key : Bytes → Option Bytes)
      (secret : Option Bytes) (has_db : Bool) (app prefix label : String) (db : Database)
      (w : World) (shown : Bytes)
      → Verifies hash_api_key
      → secret ≢ some []
      → (handle_key_issue env fault base hash_api_key secret has_db app prefix label db w).2
        ≡ issued_page shown
      → Opens shown
          (trim app)
          (handle_key_issue env fault base hash_api_key secret has_db app prefix label db w).0
  unfolding handle_key_issue
  shown_key-Opens env fault base hash_api_key secret has_db app prefix label db w shown sound
        some_secret h =
      issue_checked-Opens env fault base hash_api_key sound (trim app) (trim prefix) (trim label) db
        w shown secret (check_issue has_db (trim app) (trim prefix) (trim label))
        (check_issue-prefix has_db (trim app) (trim prefix) (trim label))
        (check_issue-shown has_db (trim app) (trim prefix) (trim label) shown) some_secret h
