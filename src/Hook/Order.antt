-- ===== src/Hook/Order.antt =====
-- The order in which a chain runs its hooks and its core (internal/hook/chain.go).
use telegram_server.Prelude.{
  String, Bool, true, false, List, [], ◌∷◌, ◌++◌, Option, none, some, refl, sym, inl, inr,
  Bool-cases,
}
use mathlib.Core.List.{append-nil}
use telegram_server.Hook.{
  Request, Ran, ran, run_fails, Hook, Chain, pre_fails, short_circuit, core_fails, post_fails,
  then_run, pre_step, run_pre, post_step, run_post, core_step, run_core, execute,
}
use telegram_server.Hook.Watch.{
  Step, hook_ran, core_ran, culprit, continued, succeeded, watch, watch_all, watch_chain,
  watch_core, names, core_steps, schedule, Tracks, Tracks-then,
}

module _ {S : Type 0} where
  pre_ran :
      (name : String) (l : List Step) (r : (Request × S) × Ran)
      → Tracks
          (hook_ran name true ∷ [])
          l
          (pre_step name r)
          (pre_step name ((r.0.0, (r.0.1, l ++ hook_ran name (continued r.1) ∷ [])), r.1))
  unfolding pre_step culprit continued
  pre_ran name l (x, run_fails) = record {
    same = refl;
    trail = inr (record {
      error = pre_fails name;
      front = [];
      rest = [];
      fails = refl;
      logged = refl;
      planned = refl;
    });
  }
  pre_ran name l (x, ran r) = elim (Bool-cases r.continues) [
    | inl e ↦ rw (e, pre_step) (record { same = refl; trail = inl (refl, refl) })
    | inr e ↦
        rw (e, pre_step)
          (record {
            same = refl;
            trail = inr (record {
              error = short_circuit name r.stage r.reason;
              front = [];
              rest = [];
              fails = refl;
              logged = refl;
              planned = refl;
            });
          })
  ]

  post_ran :
      (name : String) (l : List Step) (r : (Request × S) × Ran)
      → Tracks
          (hook_ran name true ∷ [])
          l
          (post_step name r)
          (post_step name ((r.0.0, (r.0.1, l ++ hook_ran name (succeeded r.1) ∷ [])), r.1))
  unfolding post_step culprit succeeded
  post_ran name l (x, run_fails) = record {
    same = refl;
    trail = inr (record {
      error = post_fails name;
      front = [];
      rest = [];
      fails = refl;
      logged = refl;
      planned = refl;
    });
  }
  post_ran name l (x, ran r) = record { same = refl; trail = inl (refl, refl) }

  pre_step-Tracks :
      (h : Hook S) (req : Request) (s : S) (l : List Step)
      → Tracks
          (hook_ran h.name true ∷ [])
          l
          (pre_step h.name (h.run req s))
          (pre_step h.name ((watch continued h).run req (s, l)))
  unfolding watch
  pre_step-Tracks h req s l = pre_ran h.name l (h.run req s)

  post_step-Tracks :
      (h : Hook S) (req : Request) (s : S) (l : List Step)
      → Tracks
          (hook_ran h.name true ∷ [])
          l
          (post_step h.name (h.run req s))
          (post_step h.name ((watch succeeded h).run req (s, l)))
  unfolding watch
  post_step-Tracks h req s l = post_ran h.name l (h.run req s)

  run_pre-Tracks :
      (hs : List (Hook S)) (req : Request) (s : S) (l : List Step)
      → Tracks (names hs) l (run_pre hs req s) (run_pre (watch_all continued hs) req (s, l))
  unfolding run_pre watch_all names watch
  run_pre-Tracks [] req s l = record { same = refl; trail = inl (refl, sym (append-nil l)) }
  run_pre-Tracks (h ∷ hs) req s l =
      Tracks-then (hook_ran h.name true ∷ []) (names hs) l (pre_step h.name (h.run req s))
        (pre_step h.name ((watch continued h).run req (s, l))) (run_pre hs)
        (run_pre (watch_all continued hs)) (pre_step-Tracks h req s l) (run_pre-Tracks hs)

  run_post-Tracks :
      (hs : List (Hook S)) (req : Request) (s : S) (l : List Step)
      → Tracks (names hs) l (run_post hs req s) (run_post (watch_all succeeded hs) req (s, l))
  unfolding run_post watch_all names watch
  run_post-Tracks [] req s l = record { same = refl; trail = inl (refl, sym (append-nil l)) }
  run_post-Tracks (h ∷ hs) req s l =
      Tracks-then (hook_ran h.name true ∷ []) (names hs) l (post_step h.name (h.run req s))
        (post_step h.name ((watch succeeded h).run req (s, l))) (run_post hs)
        (run_post (watch_all succeeded hs)) (post_step-Tracks h req s l) (run_post-Tracks hs)

  core_ran-Tracks :
      (l : List Step) (r : (Request × S) × Bool)
      → Tracks
          (core_ran true ∷ [])
          l
          (core_step r)
          (core_step ((r.0.0, (r.0.1, l ++ core_ran r.1 ∷ [])), r.1))
  unfolding core_step culprit
  core_ran-Tracks l (x, true) = record { same = refl; trail = inl (refl, refl) }
  core_ran-Tracks l (x, false) = record {
    same = refl;
    trail = inr (record {
      error = core_fails;
      front = [];
      rest = [];
      fails = refl;
      logged = refl;
      planned = refl;
    });
  }

  run_core-Tracks :
      (f : Option (Request → S → (Request × S) × Bool)) (req : Request) (s : S) (l : List Step)
      → Tracks (core_steps f) l (run_core f req s) (run_core (watch_core f) req (s, l))
  unfolding run_core watch_core core_steps
  run_core-Tracks none req s l = record { same = refl; trail = inl (refl, sym (append-nil l)) }
  run_core-Tracks (some f) req s l = core_ran-Tracks l (f req s)

  -- Watching a chain changes neither its effects nor its result. A run without error runs all pre
  -- hooks in their order, then the core if there is one, then all post hooks in their order, and all
  -- of them go well. A run with an error runs a beginning of this schedule, in which only the last
  -- did not go well, and this is the hook or the core that the error names: so there is no core
  -- unless all pre hooks went well, and no post hook unless the core did too. A pre hook goes
  -- well if it returns no error and says to continue, a post hook if it returns no error.
  pub execute-Tracks :
      (c : Chain S) (f : Option (Request → S → (Request × S) × Bool)) (req : Request) (s : S)
      → Tracks
          (schedule c f)
          []
          (execute c f req s)
          (execute (watch_chain c) (watch_core f) req (s, []))
  unfolding execute schedule watch_chain
  execute-Tracks c f req s =
      Tracks-then (names c.pre_hooks) (core_steps f ++ names c.post_hooks) []
        (run_pre c.pre_hooks req s) (run_pre (watch_all continued c.pre_hooks) req (s, []))
        (λ req' s'. then_run (run_core f req' s') (run_post c.post_hooks))
        (λ req' s'.
          then_run (run_core (watch_core f) req' s') (run_post (watch_all succeeded c.post_hooks)))
        (run_pre-Tracks c.pre_hooks req s [])
        (λ req' s' l.
          Tracks-then (core_steps f) (names c.post_hooks) l (run_core f req' s')
            (run_core (watch_core f) req' (s', l)) (run_post c.post_hooks)
            (run_post (watch_all succeeded c.post_hooks)) (run_core-Tracks f req' s' l)
            (run_post-Tracks c.post_hooks))
