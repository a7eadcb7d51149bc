-- ===== src/Auth/Bearer.antt =====
-- The bearer tokens of internal/auth/store.go.
use telegram_server.Prelude.{
  ℕ, suc, ◌+◌, ◌<◌, ◌≡◌, ◌≢◌, ◌↔◌, refl, ap, ◌∙◌, [], ◌∷◌, ◌++◌, Option, none, some, length, take,
  All, Bytes, codes, leb, ◌==◌, ◌||◌, if◌then◌else◌, Option-cases, Bool-cases, inl, inr, sym,
  length-append, arith,
}
use mathlib.Core.Option.{none-ne-some}

-- `s[len(prefix):]` when `strings.HasPrefix(s, prefix)`.
unfoldable pub after_prefix : Bytes → Bytes → Option Bytes
after_prefix [] s = some s
after_prefix (p ∷ ps) [] = none
after_prefix (p ∷ ps) (c ∷ s) = if p == c then after_prefix ps s else none

-- `strings.IndexByte`.
unfoldable pub index_byte : ℕ → Bytes → Option ℕ
index_byte d [] = none
index_byte d (c ∷ s) =
    if c == d then some 0 else elim (index_byte d s) [ some i ↦ some (suc i) | none ↦ none ]

-- The bound `idx >= len(rest)-1` is tested as `len(rest) <= idx+1`.
unfoldable pub key_prefix_of : Bytes → Option ℕ → Option Bytes
key_prefix_of rest none = none
key_prefix_of rest (some idx) =
    if (idx == 0) || leb (length rest) (idx + 1) then none else some (take idx rest)

unfoldable pub parse_rest : Option Bytes → Option Bytes
unfolding index_byte key_prefix_of
parse_rest none = none
parse_rest (some rest) = key_prefix_of rest (index_byte b'_' rest)

-- `ParseBearer`; `none` is `ErrBearerMalformed`.
unfoldable pub parse_bearer : Bytes → Option Bytes
unfolding after_prefix parse_rest
parse_bearer token = parse_rest (after_prefix (codes "tg_") token)

after_prefix-some : (p s rest : Bytes) → after_prefix p s ≡ some rest → s ≡ p ++ rest
unfolding after_prefix
after_prefix-some [] s rest h = cc
after_prefix-some (p ∷ ps) [] rest h = cc
after_prefix-some (p ∷ ps) (c ∷ s) rest h = grind (arith, after_prefix-some ps s rest)

after_prefix-append : (p rest : Bytes) → after_prefix p (p ++ rest) ≡ some rest
unfolding after_prefix
after_prefix-append [] rest = refl
after_prefix-append (p ∷ ps) rest = ground (arith, after_prefix-append ps rest)

take-append : (p s : Bytes) → take (length p) (p ++ s) ≡ p
take-append [] s = refl
take-append (c ∷ p) s = ap (λ l. c ∷ l) (take-append p s)

-- The first `d` of `s` stands at `i`.
record IsFirst (d : ℕ) (s : Bytes) (i : ℕ) : Type 0 where
  pre : Bytes
  rest : Bytes
  split : s ≡ pre ++ d ∷ rest
  free : All (λ c. c ≢ d) pre
  at : length pre ≡ i

index_byte-some : (d : ℕ) (s : Bytes) (i : ℕ) → index_byte d s ≡ some i → IsFirst d s i
unfolding index_byte
index_byte-some d [] i h = cc
index_byte-some d (c ∷ s) i h = elim (Bool-cases (c == d)) [
  | inl e ↦
      let z : 0 ≡ i = ground arith in
      let f : c ≡ d = ground arith in
      record { pre = []; rest = s; split = ap (λ x. x ∷ s) f; free = tt; at = z }
  | inr e ↦ elim (Option-cases (index_byte d s)) [
    | inl f ↦ absurd (none-ne-some i (ground arith))
    | inr (j, f) ↦
        let z : suc j ≡ i = ground arith in
        let r = index_byte-some d s j f in
        record {
          pre = c ∷ r.pre;
          rest = r.rest;
          split = ap (λ l. c ∷ l) r.split;
          free = (ground arith, r.free);
          at = omega (arith, r.at);
        }
  ]
]

index_byte-append :
    (d : ℕ) (p s : Bytes) → All (λ c. c ≢ d) p → index_byte d (p ++ d ∷ s) ≡ some (length p)
unfolding index_byte
index_byte-append d [] s h = ground arith
index_byte-append d (c ∷ p) s (n, h) = ground (arith, index_byte-append d p s h)

key_prefix_of_facts :
    (rest p : Bytes) (i : ℕ)
    → key_prefix_of rest (some i) ≡ some p
    → (0 < i) × (i + 1 < length rest) × (take i rest ≡ p)
unfolding key_prefix_of
key_prefix_of_facts rest p i h = ground arith

-- What a token without its "tg_" must be.
abbrev IsKeyed : Bytes → Bytes → Type 0
IsKeyed rest p =
    (secret : Bytes) × (rest ≡ p ++ b'_' ∷ secret)
    × (p ≢ [])
    × (secret ≢ [])
    × All (λ c. c ≢ b'_') p

IsKeyed-at :
    (rest p : Bytes) (i : ℕ)
    → IsFirst b'_' rest i
    → key_prefix_of rest (some i) ≡ some p
    → IsKeyed rest p
IsKeyed-at rest p i f h =
    let (positive, room, cut) = key_prefix_of_facts rest p i h in
    let own : f.pre ≡ p =
      sym (take-append f.pre (b'_' ∷ f.rest))
      ∙ ap (λ n. take n (f.pre ++ b'_' ∷ f.rest)) f.at
      ∙ ap (λ l. take i l) (sym f.split)
      ∙ cut in
    let size : length rest ≡ length f.pre + suc (length f.rest) =
      ap length f.split ∙ length-append f.pre (b'_' ∷ f.rest) in
    rw (sym own) (
      f.rest,
      f.split,
      (λ e. let z : length f.pre ≡ 0 = ap length e in omega (arith, z, f.at)),
      (λ e. let z : length f.rest ≡ 0 = ap length e in omega (arith, z, f.at, size)),
      f.free,
    )

key_prefix_of-none : (rest : Bytes) → key_prefix_of rest none ≡ none
unfolding key_prefix_of
key_prefix_of-none rest = refl

parse_rest-none : (p : Bytes) → parse_rest none ≡ some p → none ≡ some p
unfolding parse_rest
parse_rest-none p h = h

parse_rest-some :
    (rest p : Bytes)
    → parse_rest (some rest) ≡ some p
    → key_prefix_of rest (index_byte b'_' rest) ≡ some p
unfolding parse_rest
parse_rest-some rest p h = h

key_prefix_of-parts :
    (p secret : Bytes)
    → p ≢ []
    → secret ≢ []
    → key_prefix_of (p ++ b'_' ∷ secret) (some (length p)) ≡ some p
unfolding key_prefix_of
key_prefix_of-parts [] secret hp hs = absurd (hp refl)
key_prefix_of-parts (c ∷ p) [] hp hs = absurd (hs refl)
key_prefix_of-parts (c ∷ p) (d ∷ s) hp hs =
    ground (arith, length-append p (b'_' ∷ d ∷ s), take-append p (b'_' ∷ d ∷ s))

key_prefix_of-some :
    (rest p : Bytes) → key_prefix_of rest (index_byte b'_' rest) ≡ some p → IsKeyed rest p
key_prefix_of-some rest p h = elim (Option-cases (index_byte b'_' rest)) [
  | inl e ↦
      let none_at : key_prefix_of rest none ≡ none = key_prefix_of-none rest in
      absurd (none-ne-some p (sym none_at ∙ sym (ap (key_prefix_of rest) e) ∙ h))
  | inr (i, e) ↦
      IsKeyed-at rest p i (index_byte-some b'_' rest i e) (sym (ap (key_prefix_of rest) e) ∙ h)
]

parse_bearer-some :
    (token p : Bytes)
    → parse_bearer token ≡ some p
    → (secret : Bytes) × (token ≡ codes "tg_" ++ p ++ b'_' ∷ secret)
      × (p ≢ [])
      × (secret ≢ [])
      × All (λ c. c ≢ b'_') p
unfolding parse_bearer
parse_bearer-some token p h = elim (Option-cases (after_prefix (codes "tg_") token)) [
  | inl e ↦ absurd (none-ne-some p (parse_rest-none p (sym (ap parse_rest e) ∙ h)))
  | inr (rest, e) ↦
      let (secret, shape, named, kept, free) =
        key_prefix_of-some rest p (parse_rest-some rest p (sym (ap parse_rest e) ∙ h)) in
      let whole = after_prefix-some (codes "tg_") token rest e in
      (secret, whole ∙ ap (λ l. codes "tg_" ++ l) shape, named, kept, free)
]

parse_bearer-of :
    (p secret : Bytes)
    → p ≢ []
    → secret ≢ []
    → All (λ c. c ≢ b'_') p
    → parse_bearer (codes "tg_" ++ p ++ b'_' ∷ secret) ≡ some p
unfolding parse_bearer parse_rest after_prefix
parse_bearer-of p secret hp hs free =
    rw (index_byte-append b'_' p secret free) (key_prefix_of-parts p secret hp hs)

-- A token is taken, with key prefix `p`, exactly when it is "tg_", `p`, an underscore and a secret,
-- with `p` and the secret not empty and no underscore in `p`.
pub parse_bearer-some_iff :
    (token p : Bytes)
    → (parse_bearer token ≡ some p) ↔ (
        (secret : Bytes) × (token ≡ codes "tg_" ++ p ++ b'_' ∷ secret)
        × (p ≢ [])
        × (secret ≢ [])
        × All (λ c. c ≢ b'_') p)
parse_bearer-some_iff token p = (
  parse_bearer-some token p,
  λ (secret, shape, some_prefix, some_secret, free).
      rw shape (parse_bearer-of p secret some_prefix some_secret free),
)
