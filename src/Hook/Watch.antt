-- ===== src/Hook/Watch.antt =====
-- A watched chain: one that also keeps a list of what has run.
use telegram_server.Prelude.{
  Bool, true, false, String, List, [], ◌∷◌, ◌++◌, Option, none, some, ◌≡◌, sym, ap, ◌∙◌, ◌⊎◌, inl,
  inr,
}
use mathlib.Core.Path.{subst}
use mathlib.Core.List.{append_assoc}
use telegram_server.Hook.{
  Ran, ran, run_fails, Request, Hook, Chain, ChainError, pre_fails, short_circuit, core_fails,
  post_fails, then_run,
}

pub data Step : Type 0 where
  hook_ran : String → Bool → Step
  core_ran : Bool → Step

-- Whom an error names, with whether it went well.
unfoldable pub culprit : ChainError → Bool → Step
culprit (pre_fails name) well = hook_ran name well
culprit (short_circuit name stage reason) well = hook_ran name well
culprit core_fails well = core_ran well
culprit (post_fails name) well = hook_ran name well

-- A pre hook goes well if it returns no error and says to continue.
unfoldable pub continued : Ran → Bool
continued (ran r) = r.continues
continued run_fails = false

-- A post hook goes well if it returns no error.
unfoldable pub succeeded : Ran → Bool
succeeded (ran r) = true
succeeded run_fails = false

unreached : {A : Type 0} {e : ChainError} → none ≡ some e → A
unreached h = cc

module _ {S : Type 0} where
  unfoldable pub watch : (Ran → Bool) → Hook S → Hook (S × List Step)
  watch well h = record {
    name = h.name;
    stage = h.stage;
    run = λ req s.
        let r = h.run req s.0 in ((r.0.0, (r.0.1, s.1 ++ hook_ran h.name (well r.1) ∷ [])), r.1);
  }

  unfoldable pub watch_all : (Ran → Bool) → List (Hook S) → List (Hook (S × List Step))
  unfolding watch
  watch_all well [] = []
  watch_all well (h ∷ hs) = watch well h ∷ watch_all well hs

  unfoldable pub watch_chain : Chain S → Chain (S × List Step)
  unfolding watch_all continued succeeded
  watch_chain c = record {
    pre_hooks = watch_all continued c.pre_hooks;
    post_hooks = watch_all succeeded c.post_hooks;
  }

  unfoldable pub watch_core :
      Option (Request → S → (Request × S) × Bool)
      → Option (Request → S × List Step → (Request × (S × List Step)) × Bool)
  watch_core none = none
  watch_core (some f) =
      some (λ req s. let r = f req s.0 in ((r.0.0, (r.0.1, s.1 ++ core_ran r.1 ∷ [])), r.1))

  unfoldable pub names : List (Hook S) → List Step
  names [] = []
  names (h ∷ hs) = hook_ran h.name true ∷ names hs

  unfoldable pub core_steps : Option (Request → S → (Request × S) × Bool) → List Step
  core_steps none = []
  core_steps (some f) = core_ran true ∷ []

  -- What a chain is to run, all of it going well.
  unfoldable pub schedule : Chain S → Option (Request → S → (Request × S) × Bool) → List Step
  unfolding names core_steps
  schedule c f = names c.pre_hooks ++ (core_steps f ++ names c.post_hooks)

  -- The run ended early: `front` went well, and then what the error names did not.
  pub record Cut (steps log : List Step) (r : (Request × (S × List Step)) × Option ChainError)
      : Type 0 where
    pub error : ChainError
    pub front : List Step
    pub rest : List Step
    pub fails : r.1 ≡ some error
    pub logged : r.0.1.1 ≡ log ++ (front ++ culprit error false ∷ [])
    pub planned : steps ≡ front ++ culprit error true ∷ rest

  -- A watched run, against the run itself.
  pub record Tracks (steps log : List Step) (plain : (Request × S) × Option ChainError)
      (r : (Request × (S × List Step)) × Option ChainError) : Type 0 where
    pub same : plain ≡ ((r.0.0, r.0.1.0), r.1)
    pub trail : ((r.1 ≡ none) × (r.0.1.1 ≡ log ++ steps)) ⊎ Cut steps log r

  -- A cut among the first steps, with more steps planned.
  Cut-more :
      {one log : List Step} {r : (Request × (S × List Step)) × Option ChainError} (two : List Step)
      → Cut one log r
      → Cut (one ++ two) log r
  Cut-more two c = record {
    error = c.error;
    front = c.front;
    rest = c.rest ++ two;
    fails = c.fails;
    logged = c.logged;
    planned =
        ap (λ (l : List Step). l ++ two) c.planned
        ∙ append_assoc c.front (culprit c.error true ∷ c.rest) two;
  }

  -- A cut after the first steps.
  Cut-later :
      {two log : List Step} {r : (Request × (S × List Step)) × Option ChainError} (one : List Step)
      → Cut two (log ++ one) r
      → Cut (one ++ two) log r
  Cut-later {log = log} one c = record {
    error = c.error;
    front = one ++ c.front;
    rest = c.rest;
    fails = c.fails;
    logged =
        c.logged
        ∙ append_assoc log one (c.front ++ culprit c.error false ∷ [])
        ∙ ap (λ (l : List Step). log ++ l)
            (sym (append_assoc one c.front (culprit c.error false ∷ [])));
    planned =
        ap (λ (l : List Step). one ++ l) c.planned
        ∙ sym (append_assoc one c.front (culprit c.error true ∷ c.rest));
  }

  later-trail :
      (one two log : List Step) (r : (Request × (S × List Step)) × Option ChainError)
      → ((r.1 ≡ none) × (r.0.1.1 ≡ (log ++ one) ++ two)) ⊎ Cut two (log ++ one) r
      → ((r.1 ≡ none) × (r.0.1.1 ≡ log ++ (one ++ two))) ⊎ Cut (one ++ two) log r
  later-trail one two log r (inl (n, l)) = inl (n, l ∙ append_assoc log one two)
  later-trail one two log r (inr c) = inr (Cut-later one c)

  -- One part of a run after another.
  pub Tracks-then :
      (one two log : List Step) (plain : (Request × S) × Option ChainError)
      (r : (Request × (S × List Step)) × Option ChainError)
      (k : Request → S → (Request × S) × Option ChainError)
      (k' : Request → S × List Step → (Request × (S × List Step)) × Option ChainError)
      → Tracks one log plain r
      → ((req : Request) (s : S) (l : List Step) → Tracks two l (k req s) (k' req (s, l)))
      → Tracks (one ++ two) log (then_run plain k) (then_run r k')
  unfolding then_run
  Tracks-then one two log plain ((req, (s, l)), some e) k k' t f = record {
    same = ap (λ p. then_run p k) t.same;
    trail = elim t.trail [ inl (n, m) ↦ cc | inr c ↦ inr (Cut-more two c) ];
  }
  Tracks-then one two log plain ((req, (s, l)), none) k k' t f = record {
    same = ap (λ p. then_run p k) t.same ∙ (f req s l).same;
    trail = elim t.trail [
      | inl (n, m) ↦ later-trail one two log (k' req (s, l)) (
          subst
            (λ (x : List Step).
              (((k' req (s, l)).1 ≡ none) × ((k' req (s, l)).0.1.1 ≡ x ++ two))
              ⊎ Cut two x (k' req (s, l)))
            m (f req s l).trail)
      | inr c ↦ unreached c.fails
    ];
  }
