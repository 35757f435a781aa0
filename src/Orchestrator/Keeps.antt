-- ===== src/Orchestrator/Keeps.antt =====
-- The steps of internal/orchestrator that change no run's status, and how to tell that a method is
-- made of such steps.
use manteion_go.Base.{
  ℕ, String, ◌==◌, Bool, true, false, not, ◌&&◌, Option, none, some, ◌≡◌, refl, ◌∙◌, ap, inl, inr,
  List, [], ◌∷◌, arith, Bool-cases, Option-cases, if◌then◌else◌,
}
use manteion_go.Model.Experiment.{Experiment, ExperimentRun, RunStatus}
use manteion_go.Store.Runs.{
  find_run, get_baseline_run, update_runs, update_run_zeus_attacks, append_run_attack_id,
  append_attack, primary_id,
}
use manteion_go.Store.Runs.Laws.{find_run-update_runs, map_run}
use manteion_go.Orchestrator.World.{
  Ctx, child, Call, Task, World, Env, Result, ok, err, Failure, M, ◌>>=◌, pure, fail, continue,
  settle, attack_failed, Handles, require, attempt, when, is_done, query, get_run, get_experiment,
  set_attacks, append_attack_id, call, go, new_ctx, fresh_id, register, cancel_handles, each_call,
  enter_phase, has_attacks, collect_services, preload, start_attack,
}
use manteion_go.Orchestrator.Lifecycle.{
  preload_cache, attack_request, start_one_attack, start_zeus_attacks, record_attacks, start_load,
  spawn, start_drivers, release_run,
}

abbrev pub status_in : Option ExperimentRun → Option RunStatus
status_in none = none
status_in (some r) = some r.status

-- The status of a run, by its ID.
abbrev pub status_of : String → World → Option RunStatus
status_of id w = status_in (find_run id w.db.runs)

abbrev pub SameStatuses : World → World → Type 0
SameStatuses w w' = (id : String) → status_of id w' ≡ status_of id w

-- Whatever the step answers, it changes no status.
pub record Keeps {A : Type 0} (m : M A) : Type 0 where
  pub keeps : (w : World) → SameStatuses w (m w).1

pub unchanged : {A : Type 0} (m : M A) → ((w : World) → SameStatuses w (m w).1) → Keeps m
unchanged m k = record { keeps = k }

pub pure-Keeps : {A : Type 0} (a : A) → Keeps (pure a)
unfolding pure
pure-Keeps a = unchanged _ (λ w id. refl)

pub fail-Keeps : {A : Type 0} (e : Failure) → Keeps (fail {A = A} e)
unfolding fail
fail-Keeps e = unchanged _ (λ w id. refl)

pub call-Keeps : (c : Call) → Keeps (call c)
unfolding call
call-Keeps c = unchanged _ (λ w id. refl)

pub go-Keeps : (t : Task) → Keeps (go t)
unfolding go
go-Keeps t = unchanged _ (λ w id. refl)

pub >>=-Keeps :
    {A B : Type 0} {m : M A} {f : A → M B} → Keeps m → ((a : A) → Keeps (f a)) → Keeps (m >>= f)
unfolding ◌>>=◌
>>=-Keeps {A} {B} {m} {f} k h = unchanged _ (λ w id. after (m w).0 (m w).1 id ∙ k.keeps w id)
  where
    after : (r : Result A) (w : World) → SameStatuses w (continue r f w).1
    after (ok a) w id = (h a).keeps w id
    after (err e) w id = refl

pub attempt-Keeps : {A : Type 0} {m : M A} (a : A) → Keeps m → Keeps (attempt m a)
unfolding attempt
attempt-Keeps {A} {m} a k = unchanged _ (λ w id. after (m w).0 (m w).1 id ∙ k.keeps w id)
  where
    after : (r : Result A) (w : World) → SameStatuses w (settle r a w).1
    after (ok b) w id = refl
    after (err e) w id = refl

pub require-Keeps : (b : Bool) (e : Failure) → Keeps (require b e)
unfolding require
require-Keeps true e = unchanged _ (λ w id. refl)
require-Keeps false e = unchanged _ (λ w id. refl)

pub when-Keeps : {m : M (Unit {0})} (b : Bool) → Keeps m → Keeps (when b m)
unfolding when
when-Keeps true k = k
when-Keeps false k = unchanged _ (λ w id. refl)

pub if-Keeps : {A : Type 0} {m n : M A} (b : Bool) → Keeps m → Keeps n → Keeps (if b then m else n)
if-Keeps true k l = k
if-Keeps false k l = l

pub query-Keeps : {A : Type 0} {m : M A} (ctx : Ctx) → Keeps m → Keeps (query ctx m)
unfolding query
query-Keeps ctx k =
    unchanged _
      (λ w id. elim (Bool-cases (is_done ctx w)) [ inl e ↦ rw e | inr e ↦ rw e (k.keeps w id) ])

pub get_run-Keeps : (ctx : Ctx) (id : String) → Keeps (get_run ctx id)
unfolding get_run
get_run-Keeps ctx id = unchanged _ (λ w j. ground arith)

pub get_experiment-Keeps : (ctx : Ctx) (id : String) → Keeps (get_experiment ctx id)
unfolding get_experiment
get_experiment-Keeps ctx id = unchanged _ (λ w j. ground arith)

-- An update that leaves the status of a row alone changes no status.
pub update_runs_status :
    (id j : String) (f : ExperimentRun → ExperimentRun) (rs : List ExperimentRun)
    → ((r : ExperimentRun) → (f r).id ≡ r.id)
    → ((r : ExperimentRun) → (f r).status ≡ r.status)
    → status_in (find_run j (update_runs id f rs)) ≡ status_in (find_run j rs)
update_runs_status id j f rs keep same =
    ap status_in (find_run-update_runs id j f rs keep) ∙ both (id == j) (find_run j rs)
  where
    both :
        (b : Bool) (o : Option ExperimentRun)
        → status_in (if b then map_run f o else o) ≡ status_in o
    both true none = refl
    both true (some r) = ap some (same r)
    both false o = refl

pub set_attacks-Keeps :
    (ctx : Ctx) (id : String) (ids : List String) → Keeps (set_attacks ctx id ids)
unfolding set_attacks update_run_zeus_attacks
set_attacks-Keeps ctx id ids = query-Keeps ctx (
    unchanged _ (λ w j.
      update_runs_status id j
        (λ r. record r { zeus_attack_id = primary_id ids; zeus_attack_ids = ids }) w.db.runs
        (λ r. refl) (λ r. refl)))

pub append_attack_id-Keeps :
    (ctx : Ctx) (id attack : String) → Keeps (append_attack_id ctx id attack)
unfolding append_attack_id append_run_attack_id
append_attack_id-Keeps ctx id attack = query-Keeps ctx (
    unchanged _
      (λ w j. update_runs_status id j (append_attack attack) w.db.runs (λ r. refl) (λ r. refl)))

pub new_ctx-Keeps : Keeps new_ctx
unfolding new_ctx
new_ctx-Keeps = unchanged _ (λ w id. refl)

pub fresh_id-Keeps : (env : Env) → Keeps (fresh_id env)
unfolding fresh_id
fresh_id-Keeps env = unchanged _ (λ w id. refl)

pub register-Keeps : (id : String) (h : Handles) → Keeps (register id h)
unfolding register
register-Keeps id h = unchanged _ (λ w j. refl)

pub cancel_handles-Keeps : (id : String) → Keeps (cancel_handles id)
unfolding cancel_handles
cancel_handles-Keeps id = unchanged _ (λ w j. ground arith)

pub each_call-Keeps : {A : Type 0} (f : A → Call) (xs : List A) → Keeps (each_call f xs)
unfolding each_call
each_call-Keeps f [] = unchanged _ (λ w id. refl)
each_call-Keeps f (x ∷ xs) = unchanged _ (λ w id. (each_call-Keeps f xs).keeps _ id)

pub ruleset steps = (
  pure-Keeps, fail-Keeps, call-Keeps, go-Keeps, >>=-Keeps, attempt-Keeps, require-Keeps, when-Keeps,
  if-Keeps, query-Keeps, get_run-Keeps, get_experiment-Keeps, set_attacks-Keeps,
  append_attack_id-Keeps, new_ctx-Keeps, fresh_id-Keeps, register-Keeps, cancel_handles-Keeps,
  each_call-Keeps,
)

pub enter_phase-Keeps :
    (env : Env) (run : ExperimentRun) (phase : ℕ) → Keeps (enter_phase env run phase)
unfolding enter_phase
enter_phase-Keeps env run phase = search steps depth 8

pub preload_cache-Keeps : (ctx : Ctx) (run : ExperimentRun) → Keeps (preload_cache ctx run)
unfolding preload_cache
preload_cache-Keeps ctx run = query-Keeps ctx (
    unchanged _ (λ w id. elim (Option-cases (get_baseline_run run.experiment_id w.db.runs)) [
      | inl e ↦ rw e refl
      | inr (base, e) ↦
          rw e ((each_call-Keeps (λ svc. preload base.id svc) (collect_services run)).keeps w id)
    ]))

answer-Keeps :
    (id : String) (o : Option String)
    → Keeps {A = String} (elim o [
      | none ↦ fail attack_failed
      | some zeus_id ↦ pure (if not (zeus_id == "") && not (zeus_id == id) then zeus_id else id)
    ])
answer-Keeps id none = fail-Keeps attack_failed
answer-Keeps id (some z) = pure-Keeps _

pub start_one_attack-Keeps :
    (env : Env) (ctx : Ctx) (run : ExperimentRun) (exp : Experiment)
    → Keeps (start_one_attack env ctx run exp)
unfolding start_one_attack
start_one_attack-Keeps env ctx run exp = >>=-Keeps (fresh_id-Keeps env) (λ id.
    >>=-Keeps (append_attack_id-Keeps ctx run.id id) (λ _.
      >>=-Keeps (call-Keeps (start_attack (attack_request id run exp)))
        (λ _. answer-Keeps id (env.start_attack id))))

pub start_zeus_attacks-Keeps :
    (env : Env) (ctx : Ctx) (run : ExperimentRun) → Keeps (start_zeus_attacks env ctx run)
unfolding start_zeus_attacks
start_zeus_attacks-Keeps env ctx run =
    >>=-Keeps (get_experiment-Keeps ctx run.experiment_id) (λ exp.
      if-Keeps (exp.target_url == "") (pure-Keeps _)
        (>>=-Keeps (start_one_attack-Keeps env ctx run exp) (λ id. pure-Keeps _)))

pub record_attacks-Keeps :
    (ctx : Ctx) (run : ExperimentRun) (ids : List String) → Keeps (record_attacks ctx run ids)
unfolding record_attacks
record_attacks-Keeps ctx run [] = pure-Keeps _
record_attacks-Keeps ctx run (id ∷ ids) =
    >>=-Keeps (attempt-Keeps _ (set_attacks-Keeps ctx run.id (id ∷ ids))) (λ _. pure-Keeps _)

pub start_load-Keeps :
    (env : Env) (ctx : Ctx) (run : ExperimentRun) → Keeps (start_load env ctx run)
unfolding start_load
start_load-Keeps env ctx run =
    if-Keeps env.has_zeus
      (>>=-Keeps (attempt-Keeps _ (start_zeus_attacks-Keeps env ctx run))
        (λ ids. record_attacks-Keeps ctx run ids))
      (pure-Keeps _)

pub spawn-Keeps : (b : Bool) (task : Ctx → Task) → Keeps (spawn b task)
unfolding spawn
spawn-Keeps true task =
    >>=-Keeps new_ctx-Keeps (λ c. >>=-Keeps (go-Keeps (task (child c))) (λ _. pure-Keeps _))
spawn-Keeps false task = pure-Keeps _

pub start_drivers-Keeps : (b : Bool) (run : ExperimentRun) → Keeps (start_drivers b run)
unfolding start_drivers
start_drivers-Keeps b run = >>=-Keeps (spawn-Keeps b _) (λ watcher.
    >>=-Keeps (spawn-Keeps (has_attacks run) _)
      (λ poller. >>=-Keeps (register-Keeps run.id _) (λ _. when-Keeps _ (go-Keeps _))))

pub release_run-Keeps :
    (env : Env) (run : ExperimentRun) (status : RunStatus) → Keeps (release_run env run status)
unfolding release_run
release_run-Keeps env run status = >>=-Keeps (each_call-Keeps _ _) (λ _.
    >>=-Keeps (when-Keeps _ (each_call-Keeps _ _))
      (λ _. >>=-Keeps (when-Keeps _ (require-Keeps _ _)) (λ _. when-Keeps _ (each_call-Keeps _ _))))
