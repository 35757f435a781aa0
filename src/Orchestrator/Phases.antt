-- ===== src/Orchestrator/Phases.antt =====
-- internal/orchestrator/rules.go, and what internal/api/experiment_handler.go makes of its errors: the
-- rules of a phase, read from the rule store and compiled against the fault store.
use mathlib.Core.Path.{subst}
use manteion_go.Base.{ℕ, ◌≡◌, ◌↔◌, refl, String, some, List, [], ◌∷◌, Error, wrap}
use manteion_go.Base.Result.{Result, ok, err, panic, ◌>>=◌, wrapped, chain_inversion}
use manteion_go.Model.Rule.{Rule}
use manteion_go.Compile.{CompiledRule, compile_rule, func_resolver}
use manteion_go.Store.Rules as Rules
use manteion_go.Store.Rules.{Codec, RuleTable, not_found}
use manteion_go.Store.Faults.{FaultTables, spec_resolver, composition_resolver}
use manteion_go.Api.Handlers.{error, is_not_found, store_error}
use manteion_go.Api.Handlers.Experiments.{orchestrated}

-- The text of the wrapping error carries the ID.
abbrev pub load_error : Error → Error
load_error cause = wrap "load rule %q: %w" cause

abbrev pub compile_error : Error → Error
compile_error cause = wrap "compile rule %q: %w" cause

module _ (codec : Codec) (rules : RuleTable) (faults : FaultTables) where
  -- CompileRule with the resolvers of the fault store.
  abbrev pub compiled : Rule → Result CompiledRule
  compiled r =
      compile_rule (func_resolver (spec_resolver faults))
        (some (func_resolver (composition_resolver faults))) r

  unfoldable pub load_compiled_rules : List String → Result (List CompiledRule)
  unfolding Rules.get compile_rule spec_resolver composition_resolver
  load_compiled_rules [] = ok []
  load_compiled_rules (id ∷ ids) =
      let rest = load_compiled_rules ids in
      wrapped load_error (Rules.get codec id rules) >>= λ r.
      wrapped compile_error (compiled r) >>= λ c. rest >>= λ cs. ok (c ∷ cs)

  -- Each compiled rule is that of the stored rule of its ID, in the order of the IDs.
  abbrev pub AreOf : List CompiledRule → List String → Type 0
  AreOf [] [] = Unit
  AreOf (c ∷ cs) (id ∷ ids) =
      ((r : Rule) × (Rules.get codec id rules ≡ ok r) × (compiled r ≡ ok c)) × AreOf cs ids
  AreOf _ _ = ⊥

  wrapped_ok {ℓ} :
      {A : Type ℓ} (f : Error → Error) (m : Result A) (x : A) → wrapped f m ≡ ok x → m ≡ ok x
  wrapped_ok f panic x h = cc
  wrapped_ok f (err cause) x h = cc
  wrapped_ok f (ok y) x h = h

  loaded :
      (ids : List String) (cs : List CompiledRule) → load_compiled_rules ids ≡ ok cs → AreOf cs ids
  unfolding load_compiled_rules
  loaded [] [] h = tt
  loaded [] (c ∷ cs) h = cc
  loaded (id ∷ ids) cs h =
      let rest : Result (List CompiledRule) = load_compiled_rules ids in
      let (r, read, h1) =
        chain_inversion (wrapped load_error (Rules.get codec id rules))
          (λ r. wrapped compile_error (compiled r) >>= λ c. rest >>= λ cs. ok (c ∷ cs)) h in
      let (c, made, h2) =
        chain_inversion (wrapped compile_error (compiled r)) (λ c. rest >>= λ cs. ok (c ∷ cs)) h1 in
      let (cs', others, h3) = chain_inversion rest (λ cs. ok (c ∷ cs)) h2 in
      let same : c ∷ cs' ≡ cs = cc in
      subst (λ l. AreOf l (id ∷ ids)) same
        (
          (
            r,
            wrapped_ok load_error (Rules.get codec id rules) r read,
            wrapped_ok compile_error (compiled r) c made,
          ),
          loaded ids cs' others,
        )

  loads :
      (ids : List String) (cs : List CompiledRule) → AreOf cs ids → load_compiled_rules ids ≡ ok cs
  unfolding load_compiled_rules
  loads [] [] h = refl
  loads [] (c ∷ cs) h = absurd h
  loads (id ∷ ids) [] h = absurd h
  loads (id ∷ ids) (c ∷ cs) ((r, there, made), hs) = rw (there, made, loads ids cs hs) refl

  -- The rules of a phase are loaded exactly if each is in the store and compiles, and then as their
  -- compiled rules in the order of the phase.
  pub load_compiled_rules_iff :
      (ids : List String) (cs : List CompiledRule)
      → (load_compiled_rules ids ≡ ok cs) ↔ AreOf cs ids
  load_compiled_rules_iff ids cs = (loaded ids cs, loads ids cs)

  -- If the first rule of a phase is not in the store, the error of entering the phase is answered with
  -- 404, like that of a run that is not there.
  pub load_compiled_rules_missing :
      (id : String) (ids : List String) (other : ℕ) (text enter : String)
      → Rules.get codec id rules ≡ err not_found
      → (load_compiled_rules (id ∷ ids) ≡ err (load_error not_found))
        × (orchestrated other text (some (wrap enter (load_error not_found))) ≡ error 404)
  unfolding load_compiled_rules orchestrated store_error is_not_found
  load_compiled_rules_missing id ids other text enter gone = (rw (gone) refl, refl)
