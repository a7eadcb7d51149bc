-- ===== src/Tests/Registry.antt =====
-- A user's row through some operations (internal/registry/user.go).
use telegram_server.Prelude.{◌≡◌, refl, List, [], ◌∷◌, some}
use telegram_server.Registry.{UserTable, new_row}
use telegram_server.Registry.Lifecycle.{
  Operation, upserted, status_set, agreed, run, status_of, anonymized_is_final,
}

abbrev left : UserTable
left = record {
  users = record (new_row 1 1001 "ann" "en" 0) { status = "anonymized" } ∷ [];
  next_id = 2;
}

abbrev later : List Operation
later = status_set 5 1 "active" ∷ upserted 6 1001 "ann" "en" ∷ agreed 7 1 ∷ []

left_status : status_of 1 left.users ≡ some "anonymized"
unfolding status_of
left_status = refl

anonymized_is_final_example : status_of 1 (run later left).users ≡ some "anonymized"
anonymized_is_final_example = anonymized_is_final 1 later left left_status
