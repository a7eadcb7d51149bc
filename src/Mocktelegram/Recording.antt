-- ===== src/Mocktelegram/Recording.antt =====
-- The two bounded windows of internal/mocktelegram/server.go.
use telegram_server.Prelude.{
  ℕ, zero, suc, ◌-◌, ◌≤◌, ◌<◌, ◌≡◌, refl, sym, ap, ◌∙◌, Bool-cases, inl, inr, List, [], ◌∷◌, ◌++◌,
  Option, none, some, Bytes, length, length-append, drop, leb, leb→le, leb→gt, arith,
}
use telegram_server.Mocktelegram.{
  max_recorded_calls, max_queued_updates, Call, Update, Server, new_server, push, record_call,
  inject, reset, drain_queue,
}

module _ {ℓ} {A : Type ℓ} where
  drop-append : (n : ℕ) (xs ys : List A) → n ≤ length xs → drop n (xs ++ ys) ≡ drop n xs ++ ys
  drop-append zero xs ys h = refl
  drop-append (suc n) [] ys h = absurd (omega arith)
  drop-append (suc n) (x ∷ xs) ys h = drop-append n xs ys (omega arith)

  drop-drop : (n : ℕ) (xs : List A) → drop 1 (drop n xs) ≡ drop (suc n) xs
  drop-drop zero xs = refl
  drop-drop (suc n) [] = refl
  drop-drop (suc n) (x ∷ xs) = drop-drop n xs

  length-drop : (n : ℕ) (xs : List A) → length (drop n xs) ≡ length xs - n
  length-drop zero xs = omega arith
  length-drop (suc n) [] = omega arith
  length-drop (suc n) (x ∷ xs) = omega (arith, length-drop n xs)

  -- A window of the newest `bound` entries stays one.
  push-window :
      (bound : ℕ) (x : A) (all : List A)
      → 0 < bound
      → push bound x (drop (length all - bound) all)
        ≡ drop (length (all ++ x ∷ []) - bound) (all ++ x ∷ [])
  unfolding push
  push-window bound x all pos =
      let n = length all - bound in
      let size = length-drop n all in
      let grown = length-append all (x ∷ []) in
      elim (Bool-cases (leb bound (length (drop n all)))) [
        | inl e ↦
            let full = leb→le bound (length (drop n all)) e in
            let next : suc n ≡ length (all ++ x ∷ []) - bound = omega (arith, full, size, grown) in
            rw (e, sym next)
              (ap (λ l. l ++ x ∷ []) (drop-drop n all)
                ∙ sym (drop-append (suc n) all (x ∷ []) (omega (arith, full, size))))
        | inr e ↦
            let room = leb→gt bound (length (drop n all)) e in
            let none_yet : n ≡ 0 = omega (arith, room, size) in
            let none_next : length (all ++ x ∷ []) - bound ≡ 0 = omega (arith, room, size, grown) in
            rw e (
              ap (λ k. drop k all ++ x ∷ []) none_yet
              ∙ ap (λ k. drop k (all ++ x ∷ [])) (sym none_next))
      ]

-- What clients ask of the server that moves its windows.
pub data Operation : Type 0 where
  recorded : Call → Operation
  injected : Option Bytes → Operation
  was_reset drained : Operation

unfoldable pub step : Operation → Server → Server
unfolding record_call inject reset drain_queue
step (recorded c) s = record_call c.token c.method c.body s
step (injected object) s = (inject object s).0
step was_reset s = reset s
step drained s = (drain_queue s).0

unfoldable pub run : List Operation → Server → Server
unfolding step
run [] s = s
run (o ∷ more) s = run more (step o s)

-- The calls since the last reset and the updates since the last drain, after those given.
unfoldable pub calls_since : List Operation → List Call → List Call
calls_since [] all = all
calls_since (recorded c ∷ more) all = calls_since more (all ++ c ∷ [])
calls_since (injected object ∷ more) all = calls_since more all
calls_since (was_reset ∷ more) all = calls_since more []
calls_since (drained ∷ more) all = calls_since more all

unfoldable pub updates_since : List Operation → ℕ → List Update → List Update
updates_since [] id all = all
updates_since (recorded c ∷ more) id all = updates_since more id all
updates_since (injected none ∷ more) id all = updates_since more (suc id) all
updates_since (injected (some object) ∷ more) id all =
    let update : Update = record { update_id = suc id; object = object } in
    updates_since more (suc id) (all ++ update ∷ [])
updates_since (was_reset ∷ more) id all = updates_since more id all
updates_since (drained ∷ more) id all = updates_since more id []

-- The newest `bound` entries.
abbrev pub newest {ℓ} : {A : Type ℓ} → ℕ → List A → List A
newest bound all = drop (length all - bound) all

pub record IsWindow (s : Server) (calls : List Call) (updates : List Update) : Type 0 where
  pub kept : s.calls ≡ newest max_recorded_calls calls
  pub evicted : s.dropped ≡ length calls - max_recorded_calls
  pub queued : s.queue ≡ newest max_queued_updates updates

recorded-IsWindow :
    (c : Call) (s : Server) (calls : List Call) (updates : List Update)
    → IsWindow s calls updates
    → IsWindow (record_call c.token c.method c.body s) (calls ++ c ∷ []) updates
unfolding record_call
recorded-IsWindow c s calls updates w =
    let size : length s.calls ≡ length calls - (length calls - max_recorded_calls) =
      ap length w.kept ∙ length-drop (length calls - max_recorded_calls) calls in
    let grown = length-append calls (c ∷ []) in
    record {
      kept =
          ap (push max_recorded_calls c) w.kept
          ∙ push-window max_recorded_calls c calls (omega arith);
      evicted = elim (Bool-cases (leb max_recorded_calls (length s.calls))) [
        | inl e ↦
            let full = leb→le max_recorded_calls (length s.calls) e in
            rw e (omega (arith, full, size, grown, w.evicted))
        | inr e ↦
            let room = leb→gt max_recorded_calls (length s.calls) e in
            rw e (omega (arith, room, size, grown, w.evicted))
      ];
      queued = w.queued;
    }

run-IsWindow :
    (ops : List Operation) (s : Server) (calls : List Call) (updates : List Update)
    → IsWindow s calls updates
    → IsWindow (run ops s) (calls_since ops calls) (updates_since ops s.update_seq updates)
unfolding run step calls_since updates_since inject reset drain_queue
run-IsWindow [] s calls updates w = w
run-IsWindow (recorded c ∷ more) s calls updates w =
    run-IsWindow more (record_call c.token c.method c.body s) (calls ++ c ∷ []) updates
      (recorded-IsWindow c s calls updates w)
run-IsWindow (injected none ∷ more) s calls updates w =
    run-IsWindow more (inject none s).0 calls updates
      (record { kept = w.kept; evicted = w.evicted; queued = w.queued })
run-IsWindow (injected (some object) ∷ more) s calls updates w =
    let update : Update = record { update_id = suc s.update_seq; object = object } in
    run-IsWindow more (inject (some object) s).0 calls (updates ++ update ∷ []) (record {
      kept = w.kept;
      evicted = w.evicted;
      queued =
          ap (push max_queued_updates update) w.queued
          ∙ push-window max_queued_updates update updates (omega arith);
    })
run-IsWindow (was_reset ∷ more) s calls updates w =
    run-IsWindow more (reset s) [] updates
      (record { kept = refl; evicted = omega arith; queued = w.queued })
run-IsWindow (drained ∷ more) s calls updates w =
    run-IsWindow more (drain_queue s).0 calls []
      (record { kept = w.kept; evicted = w.evicted; queued = refl })

-- After any operations on a new server, the calls are the newest 2048 since the last reset, the
-- count of dropped calls is that of the others since then, and the queue holds the newest 1024
-- updates since the last drain, each with its own number. An injected `null` queues no update but uses
-- up a number.
pub windows :
    (ops : List Operation)
    → IsWindow (run ops new_server) (calls_since ops []) (updates_since ops 0 [])
windows ops =
    run-IsWindow ops new_server [] [] (record { kept = refl; evicted = omega arith; queued = refl })
