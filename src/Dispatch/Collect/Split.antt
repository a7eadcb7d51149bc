-- ===== src/Dispatch/Collect/Split.antt =====
-- Where the loop over different users, `collect_all`, puts each of them.
use telegram_server.Prelude.{ℕ, ◌≡◌, refl, String, List, [], ◌∷◌}
use telegram_server.Dispatch.Collect.{
  RecipientHandle, ResolveError, Judged, unknown, reject, accept, collect_all,
}

-- Users against the two lists of a result, in order: a user outside the audience is in neither,
-- and a user of the audience is one recipient or one skipped entry.
pub data Split {User : Type 0} (Audience : User → Type 0)
    (Reached : User → RecipientHandle → Type 0) (Missed : User → ResolveError → Type 0)
    : List User → List RecipientHandle → List ResolveError → Type 0 where
  done : Split Audience Reached Missed [] [] []
  outside :
      {u : User} {us : List User} {hs : List RecipientHandle} {es : List ResolveError}
      → ¬ Audience u
      → Split Audience Reached Missed us hs es
      → Split Audience Reached Missed (u ∷ us) hs es
  reached :
      {u : User} {us : List User} {h : RecipientHandle} {hs : List RecipientHandle}
      {es : List ResolveError}
      → Audience u
      → Reached u h
      → Split Audience Reached Missed us hs es
      → Split Audience Reached Missed (u ∷ us) (h ∷ hs) es
  missed :
      {u : User} {us : List User} {hs : List RecipientHandle} {e : ResolveError}
      {es : List ResolveError}
      → Audience u
      → Missed u e
      → Split Audience Reached Missed us hs es
      → Split Audience Reached Missed (u ∷ us) hs (e ∷ es)

module _ {User : Type 0} (Audience : User → Type 0) (Reached : User → RecipientHandle → Type 0)
    (Missed : User → ResolveError → Type 0) where
  -- What a row's verdict says of its user.
  abbrev pub Fits : User → Judged → Type 0
  Fits u (unknown r) = ⊥
  Fits u (reject id code) = Missed u (record { user_id = id; code = code })
  Fits u (accept h) = Reached u h

  pub Fits-of :
      (u : User) (j : Judged)
      → ((r : ℕ) → j ≡ unknown r → ⊥)
      → ((id : ℕ) (code : String)
          → j ≡ reject id code
          → Missed u (record { user_id = id; code = code }))
      → ((h : RecipientHandle) → j ≡ accept h → Reached u h)
      → Fits u j
  Fits-of u (unknown r) f g k = f r refl
  Fits-of u (reject id code) f g k = g id code refl
  Fits-of u (accept h) f g k = k h refl

  pub collect_all-Split :
      (u : User) (us : List User) (j : Judged) (js : List Judged)
      → Audience u
      → Fits u j
      → Split Audience Reached Missed us (collect_all js).recipients (collect_all js).skipped
      → Split Audience Reached Missed
          (u ∷ us)
          (collect_all (j ∷ js)).recipients
          (collect_all (j ∷ js)).skipped
  unfolding collect_all
  collect_all-Split u us (unknown r) js a f rest = absurd f
  collect_all-Split u us (reject id code) js a f rest = missed a f rest
  collect_all-Split u us (accept h) js a f rest = reached a f rest
