-- ===== src/Dispatch/Grade.antt =====
-- The grades of internal/dispatch/strategy/topic.go. Grades are ASCII texts here: `strings.ToLower` and
-- `strings.TrimSpace` are modelled on bytes below 128.
pub mod Laws
use mathlib.Core.List.{reverse}
use telegram_server.Prelude.{
  ℕ, ◌+◌, Bool, ◌&&◌, ◌||◌, List, [], ◌∷◌, map, Bytes, codes, bytes_eq, leb, ◌==◌, if◌then◌else◌,
}

unfoldable pub is_space : ℕ → Bool
is_space c = (leb 9 c && leb c 13) || (c == 32)

unfoldable pub lower : ℕ → ℕ
lower c = if leb b'A' c && leb c b'Z' then c + 32 else c

unfoldable pub to_lower : Bytes → Bytes
unfolding lower
to_lower = map lower

unfoldable pub drop_space : Bytes → Bytes
unfolding is_space
drop_space [] = []
drop_space (c ∷ s) = if is_space c then drop_space s else c ∷ s

unfoldable pub trim_space : Bytes → Bytes
unfolding drop_space
trim_space s = reverse (drop_space (reverse (drop_space s)))

-- `strings.ToLower(strings.TrimSpace(g))`.
unfoldable pub canonical : Bytes → Bytes
unfolding to_lower trim_space
canonical g = to_lower (trim_space g)

-- The `switch` of `gradeRank`, on the canonical text.
unfoldable pub rank_of : Bytes → ℕ
unfolding bytes_eq
rank_of t =
    if bytes_eq t (codes "admin")
    then 3
    else if bytes_eq t (codes "developer") || bytes_eq t (codes "dev")
    then 2
    else if bytes_eq t (codes "user")
    then 1
    else 0

unfoldable pub grade_rank : Bytes → ℕ
unfolding canonical rank_of
grade_rank g = rank_of (canonical g)

-- The `switch` of `normalizeGrade`, on the canonical text.
unfoldable pub normal_of : Bytes → Bytes
unfolding bytes_eq
normal_of t =
    if bytes_eq t (codes "dev")
    then codes "developer"
    else if bytes_eq t []
    then codes "user"
    else t

unfoldable pub normalize_grade : Bytes → Bytes
unfolding canonical normal_of
normalize_grade g = normal_of (canonical g)

unfoldable pub max_grade : Bytes → Bytes → Bytes
unfolding grade_rank
max_grade a b = if leb (grade_rank b) (grade_rank a) then a else b
