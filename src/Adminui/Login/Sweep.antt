-- ===== src/Adminui/Login/Sweep.antt =====
-- The login limiter of internal/adminui/session.go with and without its sweep.
use telegram_server.Prelude.{
  ℕ, ◌≤◌, ◌≡◌, inl, inr, refl, ap, String, Bool, List, [], ◌∷◌, Option, none, some, str_eq,
  Bool-cases, leb, leb→le, arith,
}
use telegram_server.Adminui.Login.{
  login_limit, LoginBucket, Buckets, refilled, sweep_bucket, sweep_buckets, current, spend, put,
  allow_unswept, allow_login, no_buckets,
}

-- The decisions on a sequence of calls, the first one first.
unfoldable pub decisions :
    (ℕ → String → Buckets → Buckets × Bool) → List (ℕ × String) → Buckets → List Bool
decisions allow [] m = []
decisions allow ((now, key) ∷ calls) m =
    let (m', ok) = allow now key m in ok ∷ decisions allow calls m'

-- No call comes before the one before it.
unfoldable pub IsTimed : ℕ → List (ℕ × String) → Type 0
IsTimed t [] = Unit
IsTimed t ((now, key) ∷ calls) = (t ≤ now) × IsTimed now calls

-- A swept bucket stands for the same one, or for one that is full by `t`.
data Stands (t : ℕ) : Option LoginBucket → Option LoginBucket → Type 0 where
  same : (o : Option LoginBucket) → Stands t o o
  dropped : (b : LoginBucket) → login_limit ≤ refilled t b → Stands t none (some b)

Stands-later : (t u : ℕ) (o p : Option LoginBucket) → t ≤ u → Stands t o p → Stands u o p
Stands-later t u o p le (same q) = same q
Stands-later t u o p le (dropped b h) = dropped b (omega arith)

current-Stands : (t : ℕ) (o p : Option LoginBucket) → Stands t o p → current t o ≡ current t p
unfolding current
current-Stands t o p (same q) = refl
current-Stands t o p (dropped b h) = ground arith

sweep-Stands : (t : ℕ) (o p : Option LoginBucket) → Stands t o p → Stands t (sweep_bucket t o) p
unfolding sweep_bucket
sweep-Stands t o p (same none) = same none
sweep-Stands t o p (same (some b)) = elim (Bool-cases (leb login_limit (refilled t b))) [
  | inl e ↦ rw e (dropped b (leb→le login_limit (refilled t b) e))
  | inr e ↦ rw e (same (some b))
]
sweep-Stands t o p (dropped b h) = dropped b h

abbrev Agrees : ℕ → Buckets → Buckets → Type 0
Agrees t m m' = (k : String) → Stands t (m k) (m' k)

swept-Stands :
    (t : ℕ) (key k : String) (m m' : Buckets)
    → Agrees t m m'
    → Stands t (sweep_buckets t key m k) (m' k)
unfolding sweep_buckets
swept-Stands t key k m m' a = elim (Bool-cases (str_eq k key)) [
  | inl e ↦ rw e (a k)
  | inr e ↦ rw e (sweep-Stands t (m k) (m' k) (a k))
]

put-Stands :
    (t : ℕ) (key k : String) (b : LoginBucket) (m m' : Buckets)
    → Agrees t m m'
    → Stands t (put key b m k) (put key b m' k)
unfolding put
put-Stands t key k b m m' a = elim (Bool-cases (str_eq k key)) [
  | inl e ↦ rw e (same (some b))
  | inr e ↦ rw e (a k)
]

spent_same :
    (now : ℕ) (key : String) (m m' : Buckets)
    → Agrees now m m'
    → spend (current now (sweep_buckets now key m key)) ≡ spend (current now (m' key))
spent_same now key m m' a = ap spend (current-Stands now _ _ (swept-Stands now key key m m' a))

swept_decisions :
    (t : ℕ) (calls : List (ℕ × String)) (m m' : Buckets)
    → IsTimed t calls
    → Agrees t m m'
    → decisions allow_login calls m ≡ decisions allow_unswept calls m'
unfolding decisions IsTimed allow_login allow_unswept
swept_decisions t [] m m' h a = refl
swept_decisions t ((now, key) ∷ calls) m m' (le, h) a =
    let agrees : Agrees now m m' = λ k. Stands-later t now (m k) (m' k) le (a k) in
    let swept = sweep_buckets now key m in
    let out = spend (current now (m' key)) in
    let rest =
      swept_decisions now calls (put key out.0 swept) (put key out.0 m') h
        (λ k. put-Stands now key k out.0 swept m' (λ j. swept-Stands now key j m m' agrees)) in
    rw (spent_same now key m m' agrees) (ap (λ l. out.1 ∷ l) rest)

-- From no buckets, on calls of which none comes before the one before it, the limiter decides each
-- call as the one that never drops a bucket does.
pub sweep_unseen :
    (t : ℕ) (calls : List (ℕ × String))
    → IsTimed t calls
    → decisions allow_login calls no_buckets ≡ decisions allow_unswept calls no_buckets
sweep_unseen t calls h = swept_decisions t calls no_buckets no_buckets h (λ k. same none)
