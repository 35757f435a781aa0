-- ===== src/Orchestrator/World.antt =====
-- internal/orchestrator/orchestrator.go: the Orchestrator's state, and the steps that its methods
-- are made of. A method is atomic here: the goroutines of Drivers run between methods, not in them.
use manteion_go.Base.{
  ℕ, suc, String, ◌==◌, Bool, true, false, not, ◌&&◌, ◌||◌, Option, none, some, List, [], ◌∷◌, ◌++◌,
  eqb, is_nil, get_elem?, has_text, if◌then◌else◌,
}
use manteion_go.Base.Int.{ℤ}
use manteion_go.Base.Update.{update}
use manteion_go.Model.Trace.{CacheBoxConfig}
use manteion_go.Model.Experiment.{Experiment, ExperimentRun, RunStatus}
use manteion_go.RunGraph.{GraphError}
use manteion_go.Store.Runs.{
  Db, find_run, find_experiment, has_run, can_finalize, update_run_status, finalize_run_status,
  update_run_phase, update_run_zeus_attacks, append_run_attack_id,
}

-- A `context.Context`: the background context is never cancelled, and each call of
-- `context.WithCancel` makes a new one.
pub data Ctx : Type 0 where
  background : Ctx
  child : ℕ → Ctx

-- runHandles, with the contexts that its cancel functions cancel.
pub record Handles : Type 0 where
  pub watcher : Option ℕ
  pub poller : Option ℕ

-- zeus.AttackRequest, with its target's fields.
pub record AttackRequest : Type 0 where
  pub id : String
  pub url : String
  pub method : String
  pub rate : ℤ
  pub duration_s : ℤ
  pub meta_trace_id : String
  pub experiment_id : String
  pub workflow_label : String

-- What the orchestrator asks of SDK instances, of Zeus and of the result store, in order.
pub data Call : Type 0 where
  push_rules : (service : String) (rule_ids : List String) → Call
  preload : (run service : String) → Call
  start_attack : AttackRequest → Call
  stop_attack : (attack : String) → Call
  harvest : (run attack : String) → Call

-- A goroutine that was started, by its `go` statement.
pub data Task : Type 0 where
  watch : Ctx → ExperimentRun → Task
  poll : Ctx → ExperimentRun → Task
  auto_stop : (run : String) → Task
  advance : (experiment : String) → Task

pub record World : Type 0 where
  pub db : Db
  pub running : String → Option Handles
  pub cancelled : ℕ → Bool
  pub next_ctx : ℕ
  pub next_id : ℕ
  pub now : ℕ
  pub calls : List Call
  pub tasks : List Task

pub data Status : Type 0 where
  attack_pending attack_running attack_completed attack_stopped unexpected : Status

-- What is not the orchestrator's own: `zeusClient != nil`, Zeus's answers (`none` is an error), the
-- IDs that the uuid package makes, and whether loadCompiledRules succeeds for some rule IDs.
pub record Env : Type 0 where
  pub has_zeus : Bool
  pub start_attack : String → Option String
  pub get_attack : String → Option Status
  pub new_id : ℕ → String
  pub rules_load : List String → Bool

pub data Failure : Type 0 where
  not_found canceled wrong_status bad_stop_status rules_failed attack_failed nil_client : Failure
  invalid_graph : GraphError → Failure

pub data Result {ℓ} (A : Type ℓ) : Type ℓ where
  ok : A → Result A
  err : Failure → Result A

abbrev pub M : Type 0 → Type 0
M A = World → Result A × World

unfoldable pub pure : {A : Type 0} → A → M A
pure a w = (ok a, w)

unfoldable pub fail : {A : Type 0} → Failure → M A
fail e w = (err e, w)

unfoldable pub modify : (World → World) → M (Unit {0})
modify f w = (ok tt, f w)

unfoldable pub continue : {A B : Type 0} → Result A → (A → M B) → M B
unfolding fail
continue (ok a) f = f a
continue (err e) f = fail e

infixl 5 ◌>>=◌ ◌>>◌
unfoldable pub ◌>>=◌ : {A B : Type 0} → M A → (A → M B) → M B
unfolding continue
◌>>=◌ m f w = let (r, w') = m w in continue r f w'

abbrev pub ◌>>◌ : {B : Type 0} → M (Unit {0}) → M B → M B
m >> k = m >>= λ _. k

unfoldable pub require : Bool → Failure → M (Unit {0})
unfolding pure fail
require true e = pure tt
require false e = fail e

unfoldable pub settle : {A : Type 0} → Result A → A → M A
unfolding pure
settle (ok b) a = pure b
settle (err e) a = pure a

-- A step whose error is logged and no more.
unfoldable pub attempt : {A : Type 0} → M A → A → M A
unfolding settle
attempt m a w = let (r, w') = m w in settle r a w'

unfoldable pub when : Bool → M (Unit {0}) → M (Unit {0})
unfolding pure
when true m = m
when false m = pure tt

abbrev pub is_done : Ctx → World → Bool
is_done background w = false
is_done (child n) w = w.cancelled n

-- Every query of database/sql first fails with the context's error, if that is done.
unfoldable pub query : {A : Type 0} → Ctx → M A → M A
query ctx m w = if is_done ctx w then (err canceled, w) else m w

unfoldable pub get_run : Ctx → String → M ExperimentRun
unfolding query
get_run ctx id =
    query ctx λ w. elim (find_run id w.db.runs) [ none ↦ (err not_found, w) | some r ↦ (ok r, w) ]

unfoldable pub get_experiment : Ctx → String → M Experiment
unfolding query
get_experiment ctx id = query ctx λ w. elim (find_experiment id w.db.experiments) [
  | none ↦ (err not_found, w)
  | some e ↦ (ok e, w)
]

unfoldable pub set_run_status : Ctx → String → RunStatus → M (Unit {0})
unfolding query
set_run_status ctx id status = query ctx λ w.
    if has_run id w.db.runs
    then (ok tt, record w { db = update_run_status id status w.now w.db })
    else (err not_found, w)

-- FinalizeRunStatus: whether this call made the run terminal.
unfoldable pub finalize : Ctx → String → RunStatus → M Bool
unfolding query
finalize ctx id status = query ctx λ w.
    (ok (can_finalize id w.db.runs), record w { db = finalize_run_status id status w.now w.db })

unfoldable pub set_run_phase : Ctx → String → ℕ → M (Unit {0})
unfolding query modify
set_run_phase ctx id phase =
    query ctx (modify λ w. record w { db = update_run_phase id phase RunStatus.running w.db })

unfoldable pub set_attacks : Ctx → String → List String → M (Unit {0})
unfolding query modify
set_attacks ctx id ids =
    query ctx (modify λ w. record w { db = update_run_zeus_attacks id ids w.db })

unfoldable pub append_attack_id : Ctx → String → String → M (Unit {0})
unfolding query modify
append_attack_id ctx id attack =
    query ctx (modify λ w. record w { db = append_run_attack_id id attack w.db })

unfoldable pub call : Call → M (Unit {0})
unfolding modify
call c = modify λ w. record w { calls = w.calls ++ c ∷ [] }

unfoldable pub go : Task → M (Unit {0})
unfolding modify
go t = modify λ w. record w { tasks = w.tasks ++ t ∷ [] }

unfoldable pub new_ctx : M ℕ
new_ctx w = (ok w.next_ctx, record w { next_ctx = suc w.next_ctx })

unfoldable pub fresh_id : Env → M String
fresh_id env w = (ok (env.new_id w.next_id), record w { next_id = suc w.next_id })

unfoldable pub register : String → Handles → M (Unit {0})
unfolding modify
register id h = modify λ w. record w { running = update w.running id (some h) }

abbrev pub cancel : Option ℕ → (ℕ → Bool) → ℕ → Bool
cancel none done n = done n
cancel (some c) done n = if eqb n c then true else done n

-- cancelAll, and the deletion of the run from `o.running`.
unfoldable pub cancel_handles : String → M (Unit {0})
cancel_handles id w = elim (w.running id) [
  | none ↦ (ok tt, w)
  | some h ↦ (
    ok tt,
    record w {
      running = update w.running id none;
      cancelled = cancel h.poller (cancel h.watcher w.cancelled);
    },
  )
]

-- collectServices: the services of the frozen configurations, each once.
abbrev pub services_from : List String → List CacheBoxConfig → List String
services_from seen [] = []
services_from seen (c ∷ cs) =
    let rest = services_from (c.service ∷ seen) cs in
    if has_text c.service seen then services_from seen cs else c.service ∷ rest

abbrev pub collect_services : ExperimentRun → List String
collect_services run = services_from [] run.frozen_services

-- `for _, x := range xs { … }` over calls.
unfoldable pub each_call : {A : Type 0} → (A → Call) → List A → M (Unit {0})
unfolding ◌>>=◌ pure call
each_call f [] = pure tt
each_call f (x ∷ xs) = do call (f x); each_call f xs

-- The rule IDs of a phase; none past the last.
abbrev pub phase_rule_ids : ExperimentRun → ℕ → List String
phase_rule_ids run phase = elim (get_elem? run.phase_rules phase) [
  | none ↦ []
  | some p ↦ p.rule_ids
]

-- enterPhase, in runner.go.
unfoldable pub enter_phase : Env → ExperimentRun → ℕ → M (Unit {0})
unfolding each_call require
enter_phase env run phase = do
  let ids = phase_rule_ids run phase
  require (is_nil ids || env.rules_load ids) rules_failed
  each_call (λ svc. push_rules svc ids) (collect_services run)

-- The IDs by which the run's attacks are known.
abbrev pub attack_ids : ExperimentRun → List String
attack_ids run =
    if is_nil run.zeus_attack_ids && not (run.zeus_attack_id == "")
    then run.zeus_attack_id ∷ []
    else run.zeus_attack_ids

-- `len(run.ZeusAttackIDs) > 0 || run.ZeusAttackID != ""`
abbrev pub has_attacks : ExperimentRun → Bool
has_attacks run = not (is_nil run.zeus_attack_ids) || not (run.zeus_attack_id == "")
