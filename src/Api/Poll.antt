-- ===== src/Api/Poll.antt =====
-- internal/api/sdk_handler.go: the desired state of a service, and the poll that gives it to an instance
-- where its version is not the current one. The rules and the faults share one version.
pub mod Deletions
pub mod Versions
pub mod Protocol
use manteion_go.Base.{
  ℕ, String, ◌==◌, Bool, true, false, not, ◌&&◌, ◌||◌, Option, none, some, List, [], ◌∷◌, ◌++◌, eqb,
  if◌then◌else◌,
}
use manteion_go.Base.Int.{ℤ}
use manteion_go.Base.Result.{Result, ok, err, panic}
use manteion_go.Model.Fault.{FaultSpec, FaultComposition}
use manteion_go.Model.FaultConfig.{FaultConfig}
use manteion_go.Model.Rule.{Rule}
use manteion_go.Model.Sdk.{SdkInstance}
use manteion_go.Compile.{func_resolver, CompiledRule, compile_rules}
use manteion_go.Control.{IntentTracker, get_intent}
use manteion_go.FaultLife.{Faults, list_active_for_service}
use manteion_go.Store.Rules as Rules
use manteion_go.Store.Rules.{Codec, RuleRow, RuleTable}
use manteion_go.Store.Sdk.{register, touch_poll, deregister}

-- The tables behind the desired state.
pub record Tables : Type 0 where
  pub rules : List RuleRow
  pub configs : List FaultConfig
  pub version : ℕ

abbrev pub rule_table : Tables → RuleTable
rule_table s = record { rows = s.rules; version = s.version }

abbrev pub fault_table : Tables → Faults
fault_table s = record { configs = s.configs; version = s.version }

-- atropos-go's FaultRequest, made of an ID, a category, a type, a duration and a configuration.
module _ {F : Type 0} (make_request : String → String → String → ℤ → String → F) where
  unfoldable pub manual_faults : List FaultConfig → List F
  manual_faults [] = []
  manual_faults (c ∷ cs) =
      let rest = manual_faults cs in
      if c.fault_req == ""
      then rest
      else make_request c.id c.category c.fault_type c.duration_ms c.fault_req ∷ rest

module _ {F D : Type 0} (make_request : String → String → String → ℤ → String → F) where
  -- activeFaultsForService; without a reader of intents there is no intent, and without a store of
  -- long-running faults `configs` is empty.
  unfoldable pub active_faults_for_service :
      Option (IntentTracker F D) → String → ℕ → List FaultConfig → List F × Option D
  unfolding manual_faults list_active_for_service
  active_faults_for_service tracker service now configs =
      let manual = manual_faults make_request (list_active_for_service service now configs) in
      elim tracker [
        | none ↦ (manual, none)
        | some t ↦ elim (get_intent service t) [
          | none ↦ (manual, none)
          | some intent ↦ elim intent.active_fault [
            | none ↦ (manual, intent.freeze_cfg)
            | some f ↦ (manual ++ f ∷ [], intent.freeze_cfg)
          ]
        ]
      ]

-- The rules of an answer: compiled, or as they are where they do not compile.
pub data PolledRules : Type 0 where
  compiled : List CompiledRule → PolledRules
  raw : List Rule → PolledRules

pub data PollResponse (F D : Type 0) : Type 0 where
  bad_request not_modified server_error crash : PollResponse F D
  state : ℕ → PolledRules → List F → Option D → PollResponse F D

pub record PollRequest : Type 0 where
  pub service : String
  pub version : String
  pub instance_id : String

-- `parse_uint` is strconv.ParseUint with its error dropped.
module _ {F D : Type 0} (make_request : String → String → String → ℤ → String → F) (codec : Codec)
    (parse_uint : String → ℕ) (specs : String → Option FaultSpec)
    (comps : String → Option FaultComposition) where
  -- The answer of the handler after its version check.
  unfoldable pub poll_state : Option (IntentTracker F D) → String → ℕ → Tables → PollResponse F D
  unfolding active_faults_for_service Rules.for_service compile_rules
  poll_state tracker service now s =
      let (faults, freeze) = active_faults_for_service make_request tracker service now s.configs in
      elim (Rules.for_service codec service (rule_table s)) [
        | err e ↦ server_error
        | panic ↦ crash
        | ok rules ↦ elim (compile_rules (func_resolver specs) (some (func_resolver comps)) rules) [
          | ok cs ↦ state s.version (compiled cs) faults freeze
          | err e ↦ state s.version (raw rules) faults freeze
          | panic ↦ crash
        ]
      ]

  unfoldable pub handle_poll_rules :
      PollRequest
      → Option (IntentTracker F D)
      → ℕ
      → Tables
      → List SdkInstance
      → PollResponse F D × List SdkInstance
  unfolding poll_state touch_poll
  handle_poll_rules q tracker now s instances =
      if q.service == "" then (bad_request, instances) else (
        if eqb (parse_uint q.version) s.version
            then not_modified
            else poll_state tracker q.service now s,
        if q.instance_id == "" then instances else (touch_poll q.instance_id now instances).1,
      )

-- handleRegister, of a decoded body: what it answers with.
pub data RegisterResponse (F D : Type 0) : Type 0 where
  refused : RegisterResponse F D
  registered : List CompiledRule → List F → Option D → RegisterResponse F D

module _ {F D : Type 0} (make_request : String → String → String → ℤ → String → F) where
  unfoldable pub handle_register :
      SdkInstance
      → Option (IntentTracker F D)
      → ℕ
      → List FaultConfig
      → List SdkInstance
      → RegisterResponse F D × List SdkInstance
  unfolding active_faults_for_service register
  handle_register inst tracker now configs instances =
      let (answer, instances') = register inst now instances in
      let (faults, freeze) =
        active_faults_for_service make_request tracker inst.service now configs in
      elim answer [
        | some e ↦ (refused, instances')
        | none ↦ (
          registered
              (elim tracker [
                | none ↦ []
                | some t ↦ elim (get_intent inst.service t) [
                  | none ↦ []
                  | some intent ↦ intent.rules
                ]
              ])
              faults freeze,
          instances',
        )
      ]
