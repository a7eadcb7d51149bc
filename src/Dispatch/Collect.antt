-- ===== src/Dispatch/Collect.antt =====
-- internal/dispatch/strategy/strategy.go, and the loop that the resolvers of the package share: each row of
-- the query is judged, and a user that was seen before is passed over. Identifiers are numbers that
-- stand for the int64 values of the source, 0 for 0; the code only compares them.
pub mod Laws
pub mod Split
use telegram_server.Prelude.{ℕ, String, Bool, true, false, ◌||◌, List, [], ◌∷◌, ◌==◌, if◌then◌else◌}

pub record RecipientHandle : Type 0 where
  pub user_id : ℕ
  pub chat_id : ℕ
  pub topic_id : ℕ
  pub channel : String

pub record ResolveError : Type 0 where
  pub user_id : ℕ
  pub code : String

pub record ResolveResult : Type 0 where
  pub recipients : List RecipientHandle
  pub skipped : List ResolveError

-- What the tests of a loop's body say of a row.
pub data Judged : Type 0 where
  unknown : (requested : ℕ) → Judged
  reject : (user_id : ℕ) → String → Judged
  accept : RecipientHandle → Judged

abbrev pub nothing : ResolveResult
nothing = record { recipients = []; skipped = [] }

abbrev pub recipient : RecipientHandle → ResolveResult → ResolveResult
recipient h r = record r { recipients = h ∷ r.recipients }

abbrev pub skip : ℕ → String → ResolveResult → ResolveResult
skip user_id code r = record r { skipped = record { user_id = user_id; code = code } ∷ r.skipped }

-- The map `seen`.
unfoldable pub contains : List ℕ → ℕ → Bool
contains [] a = false
contains (x ∷ xs) a = (a == x) || contains xs a

-- The loop of `ResolveDirect` and `ResolveDirectDM`, with the users seen so far.
unfoldable pub collect_unique : List ℕ → List Judged → ResolveResult
unfolding contains
collect_unique seen [] = nothing
collect_unique seen (unknown requested ∷ js) =
    skip requested "unknown_recipient" (collect_unique seen js)
collect_unique seen (reject id code ∷ js) =
    let passed = collect_unique seen js in
    let kept = skip id code (collect_unique (id ∷ seen) js) in
    if contains seen id then passed else kept
collect_unique seen (accept h ∷ js) =
    let passed = collect_unique seen js in
    let kept = recipient h (collect_unique (h.user_id ∷ seen) js) in
    if contains seen h.user_id then passed else kept

-- The loop of `ResolveTopic` and `ResolveBroadcast`, whose rows are of different users.
unfoldable pub collect_all : List Judged → ResolveResult
collect_all [] = nothing
collect_all (unknown requested ∷ js) = skip requested "unknown_recipient" (collect_all js)
collect_all (reject id code ∷ js) = skip id code (collect_all js)
collect_all (accept h ∷ js) = recipient h (collect_all js)
