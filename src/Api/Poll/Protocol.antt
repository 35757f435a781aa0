-- ===== src/Api/Poll/Protocol.antt =====
-- internal/api/sdk_handler.go: what a poll that is answered with 304 says of the desired state.
use manteion_go.Base.{
  ℕ, ◌≡◌, refl, sym, ap, ◌∙◌, ◌≢◌, inl, inr, String, ◌==◌, Bool, false, Option, none, some, List,
  [], ◌∷◌, Bool-cases, eqb, eqb→eq, eq→eqb,
}
use manteion_go.Base.Int.{ℤ}
use manteion_go.Model.Fault.{FaultSpec, FaultComposition}
use manteion_go.Model.FaultConfig.{FaultConfig}
use manteion_go.Model.Sdk.{SdkInstance}
use manteion_go.Control.{IntentTracker}
use manteion_go.FaultLife.{
  Faults, find_config, has_config, delete_configs, Response, done, delete_config,
}
use manteion_go.Base.Result.{Result-cases}
use manteion_go.Compile.{func_resolver, compile_rules}
use manteion_go.Store.Rules as RuleStore
use manteion_go.Store.Rules.{Codec, RuleRow, RuleTable}
use manteion_go.Api.Poll.{
  Tables, rule_table, fault_table, PollRequest, not_modified, poll_state, handle_poll_rules,
}
use manteion_go.Api.Poll.Versions.{
  Change, with_faults, apply_all, SameDesired, any_deletion, apply_all-version,
}

delete_configs_gone :
    (id : String) (fs : List FaultConfig) → find_config id (delete_configs id fs) ≡ none
unfolding find_config delete_configs
delete_configs_gone id [] = refl
delete_configs_gone id (f ∷ fs) = elim (Bool-cases (f.id == id)) [
  | inl e ↦ rw (e) (delete_configs_gone id fs)
  | inr e ↦ rw (e, e) (delete_configs_gone id fs)
]

module _ {F D : Type 0} (make_request : String → String → String → ℤ → String → F) (codec : Codec)
    (admits : RuleRow → Bool) (parse_uint : String → ℕ) (specs : String → Option FaultSpec)
    (comps : String → Option FaultComposition) where
  poll_not_modified :
      (q : PollRequest) (tracker : Option (IntentTracker F D)) (now : ℕ) (s : Tables)
      (instances : List SdkInstance)
      → (q.service == "") ≡ false
      → parse_uint q.version ≡ s.version
      → (handle_poll_rules make_request codec parse_uint specs comps q tracker now s instances).0
        ≡ not_modified
  unfolding handle_poll_rules
  poll_not_modified q tracker now s instances named current =
      let known = eq→eqb (parse_uint q.version) s.version current in rw (named, known) refl

  poll_state-modified :
      (tracker : Option (IntentTracker F D)) (service : String) (now : ℕ) (s : Tables)
      → poll_state make_request codec parse_uint specs comps tracker service now s ≢ not_modified
  unfolding poll_state
  poll_state-modified tracker service now s h =
      elim (Result-cases (RuleStore.for_service codec service (rule_table s))) [
        | inr (inl (e, r)) ↦ let h' = rw (r, poll_state) at h in cc
        | inr (inr r) ↦ let h' = rw (r, poll_state) at h in cc
        | inl (rules, r) ↦
            elim (Result-cases
              (compile_rules (func_resolver specs) (some (func_resolver comps)) rules)) [
                | inl (cs, c) ↦ let h' = rw (r, poll_state, c) at h in cc
                | inr (inl (e, c)) ↦ let h' = rw (r, poll_state, c) at h in cc
                | inr (inr c) ↦ let h' = rw (r, poll_state, c) at h in cc
              ]
      ]

  not_modified-version :
      (q : PollRequest) (tracker : Option (IntentTracker F D)) (now : ℕ) (s : Tables)
      (instances : List SdkInstance)
      → (handle_poll_rules make_request codec parse_uint specs comps q tracker now s instances).0
        ≡ not_modified
      → parse_uint q.version ≡ s.version
  unfolding handle_poll_rules
  not_modified-version q tracker now s instances h = elim (Bool-cases (q.service == "")) [
    | inl e ↦ let h' = rw (e) at h in cc
    | inr e ↦ elim (Bool-cases (eqb (parse_uint q.version) s.version)) [
      | inl same ↦ eqb→eq (parse_uint q.version) s.version same
      | inr other ↦ absurd (poll_state-modified tracker q.service now s (rw (e, other) at h))
    ]
  ]

  -- Where rules were changed and long-running faults created, fired, cancelled, reaped and deleted since
  -- an earlier answer, a poll with its version is answered with 304 only if the rules are the same and
  -- there is, at any time, no fault to apply that was not to be applied then; if no fault was deleted,
  -- the faults to apply are the same. It is not about changes of fault specs and of the intents.
  pub not_modified_safe :
      (cs : List Change) (s : Tables) (q : PollRequest) (tracker : Option (IntentTracker F D))
      (now : ℕ) (instances : List SdkInstance)
      → parse_uint q.version ≡ s.version
      → (handle_poll_rules make_request codec parse_uint specs comps q tracker now
          (apply_all codec admits cs s)
          instances).0
        ≡ not_modified
      → SameDesired (any_deletion cs) s (apply_all codec admits cs s)
  not_modified_safe cs s q tracker now instances seen h =
      (apply_all-version codec admits cs s).1
        (sym (not_modified-version q tracker now (apply_all codec admits cs s) instances h) ∙ seen)

  -- The deletion of a long-running fault, active or not, is answered as done and is not told: a poll
  -- with the version of before is answered with 304.
  pub delete_not_told :
      (id : String) (f : FaultConfig) (s : Tables) (q : PollRequest)
      (tracker : Option (IntentTracker F D)) (now : ℕ) (instances : List SdkInstance)
      → find_config id s.configs ≡ some f
      → (q.service == "") ≡ false
      → parse_uint q.version ≡ s.version
      → ((delete_config id (fault_table s)).0 ≡ done)
        × (find_config id (delete_config id (fault_table s)).1.configs ≡ none)
        × ((handle_poll_rules make_request codec parse_uint specs comps q tracker now
              (with_faults s (delete_config id (fault_table s)).1)
              instances).0
            ≡ not_modified)
  unfolding delete_config
  delete_not_told id f s q tracker now instances there named seen =
      let made : delete_config id (fault_table s)
          ≡ (done, record { configs = delete_configs id s.configs; version = s.version }) =
        rw (delete_config, has_config, there) refl in
      (
        ap (λ (x : Response × Faults). x.0) made,
        ap (λ (x : Response × Faults). find_config id x.1.configs) made
            ∙ delete_configs_gone id s.configs,
        poll_not_modified q tracker now (with_faults s (delete_config id (fault_table s)).1)
            instances named (seen ∙ sym (ap (λ (x : Response × Faults). x.1.version) made)),
      )
