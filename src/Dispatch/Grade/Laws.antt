-- ===== src/Dispatch/Grade/Laws.antt =====
-- Normalising a grade and taking the higher of two, against their ranks.
use mathlib.Core.List.{map-append, reverse, reverse-cons, reverse-append, reverse-reverse}
use mathlib.Core.Path.{subst}
use telegram_server.Prelude.{
  ℕ, ◌≤◌, ◌≡◌, refl, sym, ap, ◌∙◌, ◌⊎◌, inl, inr, false, [], ◌∷◌, ◌++◌, Bytes, codes, bytes_eq,
  bytes_eq_sound, leb, if◌then◌else◌, Bool-cases, arith, tests, leb→le, leb→gt,
}
use telegram_server.Dispatch.Grade.{
  is_space, lower, to_lower, drop_space, trim_space, canonical, rank_of, grade_rank, normal_of,
  normalize_grade, max_grade,
}

lower-lower : (c : ℕ) → lower (lower c) ≡ lower c
unfolding lower
lower-lower c = ground arith

is_space-lower : (c : ℕ) → is_space (lower c) ≡ is_space c
unfolding is_space lower
is_space-lower c = ground arith

to_lower_idem : (s : Bytes) → to_lower (to_lower s) ≡ to_lower s
unfolding to_lower
to_lower_idem [] = refl
to_lower_idem (c ∷ s) = rw (lower-lower c) (ap (◌∷◌ (lower c)) (to_lower_idem s))

drop_space-to_lower : (s : Bytes) → drop_space (to_lower s) ≡ to_lower (drop_space s)
unfolding drop_space to_lower
drop_space-to_lower [] = refl
drop_space-to_lower (c ∷ s) = ground (arith, is_space-lower c, drop_space-to_lower s)

-- No space in front.
abbrev IsTrimmed : Bytes → Type 0
IsTrimmed [] = Unit {0}
IsTrimmed (c ∷ s) = is_space c ≡ false

drop_space-IsTrimmed : (s : Bytes) → IsTrimmed (drop_space s)
unfolding drop_space
drop_space-IsTrimmed [] = tt
drop_space-IsTrimmed (c ∷ s) = elim (Bool-cases (is_space c)) [
  | inl e ↦ rw e (drop_space-IsTrimmed s)
  | inr e ↦ rw e e
]

drop_space_trimmed : (s : Bytes) → IsTrimmed s → drop_space s ≡ s
unfolding drop_space
drop_space_trimmed [] h = refl
drop_space_trimmed (c ∷ s) h = rw h

drop_space_last :
    (s : Bytes) (c : ℕ) → is_space c ≡ false → drop_space (s ++ c ∷ []) ≡ drop_space s ++ c ∷ []
unfolding drop_space
drop_space_last [] c h = rw h
drop_space_last (d ∷ s) c h = ground (arith, drop_space_last s c h)

abbrev trim_end : Bytes → Bytes
trim_end s = reverse (drop_space (reverse s))

trim_end-IsTrimmed : (s : Bytes) → IsTrimmed s → IsTrimmed (trim_end s)
unfolding drop_space
trim_end-IsTrimmed [] h = tt
trim_end-IsTrimmed (c ∷ s) h =
    let front = reverse-append (drop_space (reverse s)) (c ∷ []) in
    rw (reverse-cons c s, drop_space_last (reverse s) c h) (subst IsTrimmed (sym front) h)

trim_space_idem : (s : Bytes) → trim_space (trim_space s) ≡ trim_space s
unfolding trim_space
trim_space_idem s =
    let u = drop_space s in
    let t = trim_end u in
    let ends : reverse t ≡ drop_space (reverse u) = reverse-reverse (drop_space (reverse u)) in
    ap trim_end (drop_space_trimmed t (trim_end-IsTrimmed u (drop_space-IsTrimmed s)))
    ∙ ap (λ r. reverse (drop_space r)) ends
    ∙ ap reverse (drop_space_trimmed (drop_space (reverse u)) (drop_space-IsTrimmed (reverse u)))

reverse-to_lower : (s : Bytes) → reverse (to_lower s) ≡ to_lower (reverse s)
unfolding to_lower
reverse-to_lower [] = refl
reverse-to_lower (c ∷ s) =
    reverse-cons (lower c) (to_lower s)
    ∙ ap (λ r. r ++ lower c ∷ []) (reverse-to_lower s)
    ∙ sym (ap to_lower (reverse-cons c s) ∙ map-append lower (reverse s) (c ∷ []))

trim_space-to_lower : (s : Bytes) → trim_space (to_lower s) ≡ to_lower (trim_space s)
unfolding trim_space
trim_space-to_lower s =
    ap trim_end (drop_space-to_lower s)
    ∙ ap (λ r. reverse (drop_space r)) (reverse-to_lower (drop_space s))
    ∙ ap reverse (drop_space-to_lower (reverse (drop_space s)))
    ∙ reverse-to_lower (drop_space (reverse (drop_space s)))

canonical_idem : (g : Bytes) → canonical (canonical g) ≡ canonical g
unfolding canonical
canonical_idem g =
    ap to_lower (trim_space-to_lower (trim_space g))
    ∙ to_lower_idem (trim_space (trim_space g))
    ∙ ap to_lower (trim_space_idem g)

-- What normalising does to a canonical text.
abbrev Normalises : Bytes → Type 0
Normalises t =
    (grade_rank (normal_of t) ≡ (if bytes_eq t [] then 1 else rank_of t))
    × (normalize_grade (normal_of t) ≡ normal_of t)

Normalises-dev : Normalises (codes "dev")
unfolding normalize_grade grade_rank
Normalises-dev = (refl, refl)

Normalises-blank : Normalises []
unfolding normalize_grade grade_rank
Normalises-blank = (refl, refl)

normal_of_other :
    (t : Bytes) → bytes_eq t (codes "dev") ≡ false → bytes_eq t [] ≡ false → normal_of t ≡ t
unfolding normal_of
normal_of_other t d b = rw (d, b)

rank_canonical : (t : Bytes) → canonical t ≡ t → grade_rank t ≡ rank_of t
unfolding grade_rank
rank_canonical t c = ap rank_of c

normal_canonical : (t : Bytes) → canonical t ≡ t → normalize_grade t ≡ normal_of t
unfolding normalize_grade
normal_canonical t c = ap normal_of c

normalises : (t : Bytes) → canonical t ≡ t → Normalises t
normalises t c = elim (Bool-cases (bytes_eq t (codes "dev"))) [
  | inl e ↦ subst Normalises (sym (bytes_eq_sound t _ e)) Normalises-dev
  | inr d ↦ elim (Bool-cases (bytes_eq t [])) [
    | inl e ↦ subst Normalises (sym (bytes_eq_sound t [] e)) Normalises-blank
    | inr b ↦
        let same = normal_of_other t d b in
        rw (b, same) (rank_canonical t c, normal_canonical t c ∙ same)
  ]
]

-- Normalising keeps the rank of every grade but the blank one, which it raises from 0 to that of
-- "user"; and normalising again changes nothing.
normalize_grade-rank :
    (g : Bytes)
    → (grade_rank (normalize_grade g) ≡ (if bytes_eq (canonical g) [] then 1 else grade_rank g))
      × (normalize_grade (normalize_grade g) ≡ normalize_grade g)
normalize_grade-rank g =
    unfold normalize_grade grade_rank in normalises (canonical g) (canonical_idem g)

-- The higher of two grades has the larger of the two ranks, so a request can raise the app's own
-- threshold and never lower it.
pub grade_rank-max_grade :
    (a b : Bytes)
    → (grade_rank a ≤ grade_rank (max_grade a b))
      × (grade_rank b ≤ grade_rank (max_grade a b))
      × ((max_grade a b ≡ a) ⊎ (max_grade a b ≡ b))
unfolding max_grade
grade_rank-max_grade a b = elim (Bool-cases (leb (grade_rank b) (grade_rank a))) [
  | inl e ↦ rw e (omega tests, omega (tests, leb→le _ _ e), inl refl)
  | inr e ↦ rw e (omega (tests, leb→gt _ _ e), omega tests, inr refl)
]
