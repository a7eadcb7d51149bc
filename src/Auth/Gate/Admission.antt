-- ===== src/Auth/Gate/Admission.antt =====
-- Who reaches a handler behind the middleware, and what a refused request leaves behind.
use telegram_server.Prelude.{
  ℕ, ◌≡◌, ◌⊎◌, inl, inr, refl, ap, String, Bool, true, false, [], Option, none, some, Bytes, codes,
  bytes_eq, Bool-cases,
}
use Prim.Native.String.{◌++◌ as str_append}
use telegram_server.Dispatch.Grade.{trim_space}
use telegram_server.Ratelimit.Bucket.{Float64, Policy}
use telegram_server.Ratelimit.Limiter.{Buckets, allow}
use telegram_server.Auth.Bearer.{after_prefix}
use telegram_server.Auth.KeyStore.{
  RequesterIdentity, Answer, identified, bearer_malformed, key_not_found, lookup_failed,
  has_capability,
}
use telegram_server.Api.Flow.{Env, Response, write_audit_safe, write_error}
use telegram_server.Auth.Gate.{
  HttpRequest, Site, Handler, denied_event, deny_and_audit, require_capability, rate_limit,
  answered, presented, auth, route,
}

-- The limiter's verdict on an app, with the buckets that it leaves.
abbrev pub verdict : Float64 → Option (String → Policy) → ℕ → String → Buckets → Buckets × Bool
verdict float none now app m = (m, true)
verdict float (some f) now app m =
    let (m', d) = allow float f now (str_append "app:" app) m in (m', d.allowed)

-- A request that may pass: its token resolves to `id`, the limiter lets the app pass, which leaves
-- the site as `s'`, and the app has the route's capability.
pub record IsAdmitted (float : Float64) (resolver : Bytes → Answer)
    (limit : Option (String → Policy)) (now : ℕ) (capability : String) (r : HttpRequest) (s : Site)
    (id : RequesterIdentity) (s' : Site) : Type 0 where
  pub token : Bytes
  pub presents : after_prefix (codes "Bearer ") r.authorization ≡ some token
  pub kept : bytes_eq (trim_space token) [] ≡ false
  pub resolves : resolver (trim_space token) ≡ identified id
  pub within : verdict float limit now id.app_id s.buckets ≡ (s'.buckets, true)
  pub calm : s'.world ≡ s.world
  pub capable : has_capability capability id.capabilities ≡ true

-- A refused request: one denied event is offered to the audit writer and the answer is 401 or 403
-- with its code, or nothing is written and the answer is 429.
pub data IsRefused (env : Env) (r : HttpRequest) (s : Site) : Site × Response → Type 0 where
  audited :
      (app capability code : String) (status : ℕ) (m : Buckets)
      → (status ≡ 401) ⊎ (status ≡ 403)
      → IsRefused env r s (
        record {
          world = (write_audit_safe env s.world (denied_event r app capability code)).0;
          buckets = m;
        },
        write_error status code,
      )
  throttled :
      (m : Buckets)
      → IsRefused env r s (record { world = s.world; buckets = m }, write_error 429 "rate_limited")

site_eq : (x y : Site) → x.world ≡ y.world → x.buckets ≡ y.buckets → x ≡ y
site_eq x y w m = cc

module _ (env : Env) (float : Float64) (resolver : Bytes → Answer) (now : ℕ) (capability : String)
    (r : HttpRequest) (handler : Handler) (s : Site) where
  abbrev Passes : Option (String → Policy) → RequesterIdentity → Site × Response → Type 0
  Passes limit id out =
      ((s' : Site) × (verdict float limit now id.app_id s.buckets ≡ (s'.buckets, true))
        × (s'.world ≡ s.world)
        × (has_capability capability id.capabilities ≡ true)
        × (out ≡ handler id s'))
      ⊎ IsRefused env r s out

  capable_or_refused :
      (limit : Option (String → Policy)) (id : RequesterIdentity) (m : Buckets)
      → verdict float limit now id.app_id s.buckets ≡ (m, true)
      → Passes limit id (require_capability env r capability handler id (record s { buckets = m }))
  unfolding require_capability deny_and_audit
  capable_or_refused limit id m v = elim (Bool-cases (has_capability capability id.capabilities)) [
    | inl e ↦ rw e (inl (record s { buckets = m }, v, refl, refl, refl))
    | inr e ↦ rw e (inr (audited id.app_id capability "forbidden" 403 m (inr refl)))
  ]

  rate_limit-none :
      (next : Handler) (id : RequesterIdentity) → rate_limit float none now next id s ≡ next id s
  unfolding rate_limit
  rate_limit-none next id = refl

  rate_limit_allowed :
      (f : String → Policy) (next : Handler) (id : RequesterIdentity)
      → (allow float f now (str_append "app:" id.app_id) s.buckets).1.allowed ≡ true
      → rate_limit float (some f) now next id s
        ≡ next id
            (record s { buckets = (allow float f now (str_append "app:" id.app_id) s.buckets).0 })
  unfolding rate_limit
  rate_limit_allowed f next id e = rw e refl

  rate_limit_denied :
      (f : String → Policy) (next : Handler) (id : RequesterIdentity)
      → (allow float f now (str_append "app:" id.app_id) s.buckets).1.allowed ≡ false
      → rate_limit float (some f) now next id s ≡ (
        record s { buckets = (allow float f now (str_append "app:" id.app_id) s.buckets).0 },
        write_error 429 "rate_limited",
      )
  unfolding rate_limit
  rate_limit_denied f next id e = rw e refl

  limited_or_refused :
      (limit : Option (String → Policy)) (id : RequesterIdentity)
      → Passes limit id
          (rate_limit float limit now (require_capability env r capability handler) id s)
  limited_or_refused none id =
      rw (rate_limit-none (require_capability env r capability handler) id)
        (capable_or_refused none id s.buckets refl)
  limited_or_refused (some f) id =
      let out = allow float f now (str_append "app:" id.app_id) s.buckets in
      elim (Bool-cases out.1.allowed) [
        | inl e ↦
            rw (rate_limit_allowed f (require_capability env r capability handler) id e)
              (capable_or_refused (some f) id out.0 (ap (λ b. (out.0, b)) e))
        | inr e ↦
            rw (rate_limit_denied f (require_capability env r capability handler) id e)
              (inr (throttled out.0))
      ]

  abbrev Outcome : Option (String → Policy) → Site × Response → Type 0
  Outcome limit out =
      ((id : RequesterIdentity) × (s' : Site) × IsAdmitted float resolver limit now capability r s
          id s'
        × (out ≡ handler id s'))
      ⊎ IsRefused env r s out

  refused :
      (limit : Option (String → Policy)) (code : String)
      → Outcome limit (deny_and_audit env r "" "" code 401 s)
  unfolding deny_and_audit
  refused limit code = inr (audited "" "" code 401 s.buckets (inl refl))

  answered-Outcome :
      (limit : Option (String → Policy)) (token : Bytes) (a : Answer)
      → after_prefix (codes "Bearer ") r.authorization ≡ some token
      → bytes_eq (trim_space token) [] ≡ false
      → resolver (trim_space token) ≡ a
      → Outcome limit (
          answered env r a
            (rate_limit float limit now (require_capability env r capability handler))
            s)
  unfolding answered
  answered-Outcome limit token (identified id) p k f = elim (limited_or_refused limit id) [
    | inl (s', v, w, c, out) ↦ inl (
      id,
      s',
      record {
        token = token;
        presents = p;
        kept = k;
        resolves = f;
        within = v;
        calm = w;
        capable = c;
      },
      out,
    )
    | inr x ↦ inr x
  ]
  answered-Outcome limit token bearer_malformed p k f = refused limit "malformed_bearer"
  answered-Outcome limit token key_not_found p k f = refused limit "unknown_bearer"
  answered-Outcome limit token lookup_failed p k f = refused limit "invalid_bearer"

  presented-Outcome :
      (limit : Option (String → Policy)) (o : Option Bytes)
      → after_prefix (codes "Bearer ") r.authorization ≡ o
      → Outcome limit (
          presented env resolver r o
            (rate_limit float limit now (require_capability env r capability handler))
            s)
  unfolding presented
  presented-Outcome limit none p = refused limit "missing_bearer"
  presented-Outcome limit (some token) p = elim (Bool-cases (bytes_eq (trim_space token) [])) [
    | inl e ↦ rw e (refused limit "empty_bearer")
    | inr e ↦ rw e (answered-Outcome limit token (resolver (trim_space token)) p e refl)
  ]

  -- Whatever the handler behind a route is, a request either is admitted and gets the handler's
  -- result, or it is refused: with a denied event and a 401 or 403 answer, or with a 429 answer
  -- and no event. A request is admitted when its token resolves to an app, the limiter lets the
  -- app pass, and the app has the route's capability.
  pub route_outcome :
      (limit : Option (String → Policy))
      → Outcome limit (route env float resolver limit now capability r handler s)
  unfolding route auth
  route_outcome limit =
      presented-Outcome limit (after_prefix (codes "Bearer ") r.authorization) refl
