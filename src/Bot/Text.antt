-- ===== src/Bot/Text.antt =====
-- The functions of Go's package strings on the messages that the bot reads: white space is that of
-- ASCII.
use Prim.Native.Char.{code}
use telegram_server.Prelude.{String, ◌&&◌, Option, none, some, ◌==◌, str_eq, if◌then◌else◌}
use telegram_server.Dispatch.Grade.{is_space}

unfoldable pub trim_left : String → String
unfolding is_space
trim_left String.[] = ""
trim_left (String.◌∷◌ c s) =
    let rest = trim_left s in if is_space (code c) then rest else String.◌∷◌ c s

unfoldable pub trim_right : String → String
unfolding is_space
trim_right String.[] = ""
trim_right (String.◌∷◌ c s) =
    let rest = trim_right s in if is_space (code c) && str_eq rest "" then "" else String.◌∷◌ c rest

-- `strings.TrimSpace`.
unfoldable pub trim : String → String
unfolding trim_left trim_right
trim s = trim_right (trim_left s)

-- `strings.HasPrefix` with `strings.TrimPrefix`: what follows the prefix.
unfoldable pub cut_prefix : String → String → Option String
cut_prefix String.[] s = some s
cut_prefix (String.◌∷◌ p ps) String.[] = none
cut_prefix (String.◌∷◌ p ps) (String.◌∷◌ c s) =
    let rest = cut_prefix ps s in if code p == code c then rest else none

-- The argument of a command, `none` where the text has another prefix.
unfoldable pub argument : String → String → Option String
unfolding cut_prefix trim
argument prefix text = elim (cut_prefix prefix text) [ none ↦ none | some s ↦ some (trim s) ]
