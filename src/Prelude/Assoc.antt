-- ===== src/Prelude/Assoc.antt =====
-- Go maps with string keys, as association lists.
use Prim.Native.String.{String}
use mathlib.Core.Path.{◌≡◌}
use mathlib.Core.Logic.{◌≢◌}
use mathlib.Core.Option.{Option, none, some}
use mathlib.Core.List.{List, [], ◌∷◌}
use native.Mathlib.Omega.{arith}
pub use text.Mathlib.Text.{◌==◌ as str_eq}
pub use text.Mathlib.TextEquality.{eq_iff}
use telegram_server.Prelude.Tests.{if◌then◌else◌}

module _ {ℓ} {Value : Type ℓ} where
  -- The entry of a key is replaced where it stands; a new one goes last.
  unfoldable pub insert : String → Value → List (String × Value) → List (String × Value)
  insert key value [] = (key, value) ∷ []
  insert key value (entry ∷ others) =
      let kept = entry ∷ insert key value others in
      if str_eq entry.0 key then (key, value) ∷ others else kept

  unfoldable pub lookup : String → List (String × Value) → Option Value
  lookup key [] = none
  lookup key (entry ∷ others) =
      let later = lookup key others in if str_eq entry.0 key then some entry.1 else later

  pub lookup-insert_self :
      (key : String) (value : Value) (table : List (String × Value))
      → lookup key (insert key value table) ≡ some value
  unfolding insert lookup
  lookup-insert_self key value [] = ground (arith, eq_iff key key)
  lookup-insert_self key value (entry ∷ others) =
      ground (arith, eq_iff key key, eq_iff entry.0 key, lookup-insert_self key value others)

  pub lookup-insert_other :
      (key other : String) (value : Value) (table : List (String × Value))
      → key ≢ other
      → lookup other (insert key value table) ≡ lookup other table
  unfolding insert lookup
  lookup-insert_other key other value [] differ = ground (arith, eq_iff key other)
  lookup-insert_other key other value (entry ∷ others) differ = ground (
    arith,
    eq_iff key other,
    eq_iff entry.0 key,
    eq_iff entry.0 other,
    lookup-insert_other key other value others differ,
  )
