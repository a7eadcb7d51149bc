-- ===== src/Dispatch/Collect/Laws.antt =====
-- The resolvers' loops: whom they accept, and how often.
use mathlib.Core.List.{map}
use telegram_server.Prelude.{
  ℕ, ◌+◌, ◌≡◌, refl, ap, String, Bool, true, false, not, ◌&&◌, List, [], ◌∷◌, ◌==◌, if◌then◌else◌,
  All, arith, Bool-cases, inl, inr,
}
use telegram_server.Dispatch.Collect.{
  RecipientHandle, Judged, unknown, reject, accept, contains, collect_unique,
}

-- How often a user stands among the recipients.
abbrev pub times : ℕ → List RecipientHandle → ℕ
times id [] = 0
times id (h ∷ hs) = (if h.user_id == id then 1 else 0) + times id hs

abbrev pub accepts : Judged → Bool
accepts (unknown r) = false
accepts (reject id code) = false
accepts (accept h) = true

-- The row's own user is the one that was asked for.
abbrev pub IsOf : ℕ → Judged → Type 0
IsOf id (unknown r) = r ≡ id
IsOf id (reject u code) = u ≡ id
IsOf id (accept h) = h.user_id ≡ id

module _ (judge : ℕ → Judged) (own : (id : ℕ) → IsOf id (judge id)) where
  abbrev Counted : List ℕ → List ℕ → ℕ → Type 0
  Counted seen ids id =
      times id (collect_unique seen (map judge ids)).recipients
      ≡ (if contains ids id && not (contains seen id) && accepts (judge id) then 1 else 0)

  times_unknown :
      (seen ids : List ℕ) (i id r : ℕ)
      → judge i ≡ unknown r
      → Counted seen ids id
      → Counted seen (i ∷ ids) id
  unfolding collect_unique contains
  times_unknown seen ids i id r e ih = ground (arith, ap accepts e)

  times_reject :
      (seen ids : List ℕ) (i id u : ℕ) (code : String)
      → judge i ≡ reject u code
      → u ≡ i
      → Counted seen ids id
      → Counted (u ∷ seen) ids id
      → Counted seen (i ∷ ids) id
  unfolding collect_unique contains
  times_reject seen ids i id u code e same ih ih' = ground (arith, ap accepts e)

  times_accept :
      (seen ids : List ℕ) (i id : ℕ) (h : RecipientHandle)
      → judge i ≡ accept h
      → h.user_id ≡ i
      → Counted seen ids id
      → Counted (h.user_id ∷ seen) ids id
      → Counted seen (i ∷ ids) id
  unfolding collect_unique contains
  times_accept seen ids i id h e same ih ih' = ground (arith, ap accepts e)

  times_cons :
      (seen ids : List ℕ) (i id : ℕ) (j : Judged)
      → judge i ≡ j
      → IsOf i j
      → ((s : List ℕ) → Counted s ids id)
      → Counted seen (i ∷ ids) id
  times_cons seen ids i id (unknown r) e o ih = times_unknown seen ids i id r e (ih seen)
  times_cons seen ids i id (reject u code) e o ih =
      times_reject seen ids i id u code e o (ih seen) (ih (u ∷ seen))
  times_cons seen ids i id (accept h) e o ih =
      times_accept seen ids i id h e o (ih seen) (ih (h.user_id ∷ seen))

  -- A user is a recipient once if it was asked for, was not seen before and is accepted, and
  -- otherwise never.
  pub times-collect_unique : (seen ids : List ℕ) (id : ℕ) → Counted seen ids id
  unfolding collect_unique
  times-collect_unique seen [] id = refl
  times-collect_unique seen (i ∷ ids) id =
      times_cons seen ids i id (judge i) refl (own i) (λ s. times-collect_unique s ids id)

-- What holds of every accepted row holds of every recipient.
abbrev pub Accepted {ℓ} : (RecipientHandle → Type ℓ) → Judged → Type ℓ
Accepted P (unknown r) = Unit
Accepted P (reject id code) = Unit
Accepted P (accept h) = P h

pub Accepted-of {ℓ} :
    (P : RecipientHandle → Type ℓ) (j : Judged)
    → ((h : RecipientHandle) → j ≡ accept h → P h)
    → Accepted P j
Accepted-of P (unknown r) f = tt
Accepted-of P (reject id code) f = tt
Accepted-of P (accept h) f = f h refl

pub IsOf-IsOf :
    (id : ℕ) (j : Judged)
    → ((r : ℕ) → j ≡ unknown r → r ≡ id)
    → ((u : ℕ) (code : String) → j ≡ reject u code → u ≡ id)
    → ((h : RecipientHandle) → j ≡ accept h → h.user_id ≡ id)
    → IsOf id j
IsOf-IsOf id (unknown r) f g k = f r refl
IsOf-IsOf id (reject u code) f g k = g u code refl
IsOf-IsOf id (accept h) f g k = k h refl

module _ (P : RecipientHandle → Type 0) where
  pub collect_unique-All :
      (seen : List ℕ) (js : List Judged)
      → All (Accepted P) js
      → All P (collect_unique seen js).recipients
  unfolding collect_unique
  collect_unique-All seen [] a = tt
  collect_unique-All seen (unknown r ∷ js) a = collect_unique-All seen js a.1
  collect_unique-All seen (reject id code ∷ js) a =
      let passed = collect_unique-All seen js a.1 in
      let kept = collect_unique-All (id ∷ seen) js a.1 in
      elim (Bool-cases (contains seen id)) [ inl e ↦ rw e passed | inr e ↦ rw e kept ]
  collect_unique-All seen (accept h ∷ js) a =
      let passed = collect_unique-All seen js a.1 in
      let kept = collect_unique-All (h.user_id ∷ seen) js a.1 in
      elim (Bool-cases (contains seen h.user_id)) [ inl e ↦ rw e passed | inr e ↦ rw e (a.0, kept) ]
