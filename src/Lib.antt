-- ===== src/Lib.antt =====
-- manteion-go plans experiments on a system of services: an experiment has runs, which depend on
-- each other; a run pushes fault rules to services, replays frozen services from a cache and lets
-- Zeus load the system, phase by phase. This library models the data that the program validates
-- and the orchestrator that drives the runs.
--
-- Parts and files.
--
-- Base holds what all parts share: Go's error values and chains of checks (Checks), the signed
-- integers (Int), the float64 values as far as they are compared (Float), maps with text keys as
-- functions (Update), the string operations (Text), and lists and Boolean tests.
--
-- Model is internal/model, one file for each of its types' families: Trace (trace.go), Experiment
-- and Results (experiment.go), Fault with its child Matrix (fault.go), FaultConfig
-- (fault_config.go), Rule (rule.go), Policy (policy.go), Attack (workload.go), Sdk (sdk.go,
-- workflow.go). A struct is a record with the source's fields; a text field with a fixed set of
-- values is a data type whose constructor `other` holds any other text; a pointer is an Option;
-- `(x *T) Validate() error` is `validate_t`, whose `none` is nil. Rule.Validate changes its
-- receiver, so validate_rule also gives the rule. Times are numbers; a map of texts is a list of
-- pairs.
--
-- RunGraph is ValidateRunGraph and hasBaselineAncestor of internal/model/experiment.go. The
-- closures dfs and walk take the maps that they share as a record of functions, and have fuel. The
-- fuel is one more than the number of runs. For dfs it is enough since each call on the path marks
-- another run; Fuel counts the unmarked runs, Dfs and Walk follow the two searches, Decides puts
-- them together, and Spec says without the program what a valid graph is. A look-up in byID that
-- would dereference nil is the outcome `panic`, and the end of the fuel the outcome `out_of_fuel`.
--
-- Composition is internal/model/composition_validate.go. The resolvers are functions that the
-- caller gives. The depth check recurses on the levels that are left; the checks behind it have
-- the same three levels as fuel. Answers is about that fuel, Pairs about the check of
-- incompatibilities, Directions about that of directions, Depth about the chains of compositions,
-- Accepted about the whole check.
--
-- Store.Runs is the part of internal/store/experiment_repo.go that the orchestrator calls: the
-- tables are lists of rows, an update touches the rows of its ID. A query fails with the context's
-- error if the context is done, and otherwise only for a missing row; other database errors are
-- not modelled.
--
-- Orchestrator is internal/orchestrator (orchestrator.go, runner.go, poller.go, harvest.go,
-- rules.go). World is its state: the rows, `o.running`, which contexts are cancelled, the calls
-- that were made and the goroutines that were started. Lifecycle has StartRun, PauseRun, ResumeRun
-- and StopRun, Drivers one tick of pollZeusStatus, its deadline, and advancePhase. Each of these
-- is one atomic step here. What Zeus answers, the new IDs and whether rules can be loaded are the
-- parameter Env. Clients of other services never block and their logged errors are left out, as is
-- what is only logged. Schedule has StartExperiment and advanceExperiment; the cascade of failures
-- has fuel, one more than the number of runs, which is enough since each pass but the last takes a
-- run out of those pending (Kept, Cascade). Keeps is about the steps that change no status,
-- Follows and Machine about the state machine of a run's status and the methods (all but
-- advancePhase, which writes the status `running` whatever it was and relies on its context being
-- cancelled by then), Reaches and Success about what a success means, Stuck about calls in the
-- context of the run's own goroutines. A harvest is recorded in World as a call. Watch is
-- watchPhase, tick by tick; Recovery is Recover with its checks of attacks (Listed, Steps,
-- Restores); Phases is loadCompiledRules over the stores; Harvest is HarvestResults with its tries
-- (Retries), the requests to Zeus as HTTP answers, and the rows that it adds (Rows). Division, the
-- JSON of a result and UUIDs are parameters.
--
-- FaultLife is the life of a long-running fault: the statements of
-- internal/store/fault_config_repo.go, the create, delete, fire and cancel handlers of
-- internal/api/fault_config_handler.go, and internal/api/fault_config_reaper.go. Its times are
-- microseconds; database errors are not modelled, and a response is its status code.
--
-- Compile is internal/ruleconv/ruleconv.go. A look-up gives an item, nil or an error;
-- resolveComposition recurses on the levels that are left, and reading a missing cache-box
-- configuration is the outcome `panic` of Base.Result. Leaves is about what the compiler resolves
-- and what Composition collects, Accepted about the rules that compile, Order about what is kept
-- of them, Panics about nil.
--
-- Control is internal/atrocontrol. The requests and the client of atropos-go are parameters, and a
-- call of a service is atomic but for Fanout, where the loop, the goroutines and the tokens that
-- bound them are a step relation. In `fanout` itself the order in which the calls are over is a
-- parameter. Outcome is about a FanoutResult, Intents about the state that late instances are
-- given.
--
-- PolicyEngine is internal/conditions/conditions.go (Conditions) and internal/policy/engine.go
-- (Cooldown, and Panics about its ticks). The clock is a function of the number of its readings,
-- so that each reading is its own; what a tick finds outside is its argument.
--
-- Store.Rules is internal/store/rule_repo.go with its helpers (helpers.go): rows with nullable
-- columns, read back in RoundTrip, and the version of Versions. The JSON of the labels is a
-- parameter, which is meant to be read back as it was written, and so are the constraints of the
-- table besides its key. Store.Sdk is internal/store/sdk_repo.go, whose status is computed when a
-- row is read (Liveness).
--
-- Store.Tables holds what the other repositories share: statements by key, conditions, orders and
-- the reading of rows, the last with their laws in Laws and Orders. On it stand Store.Faults
-- (internal/store/fault_repo.go, its rows in Store.FaultRows; Members and Owners are about the
-- members of compositions), Store.Experiments (the statements of experiment_repo.go that the
-- orchestrator does not make), Store.Policies (policy_repo.go), Store.Workflows (workflow_repo.go,
-- with its pages in Paging) and Store.Attacks (workload_repo.go and trace_repo.go, with the
-- columns of attacks in Columns). What JSON text a value has, the order of texts, the constraints
-- of a table and whether other rows refer to a row are parameters; a transaction is one step.
--
-- Schema has the CHECK constraints of internal/db/migrations.go as tests of rows. Its children
-- compare them with the validation of Model (Admits, AdmitsRules, AdmitsRuns), and Migrations is
-- Migrate, over any list of migrations whose SQL is a parameter.
--
-- Api.Handlers is the replies of internal/api/server.go, and its children Faults, Rules,
-- Workflows, Policies and Experiments are the handlers of the files of those names, from the
-- decoded body to the reply and the changed tables; Faults.Laws, Rules.Broadcasts and Reads are
-- about them.
--
-- Api.Poll is the registration and the polling of internal/api/sdk_handler.go, over one version
-- that the rules and the long-running faults share; Versions is about the changes of both,
-- Deletions about the deletion of a fault, which the version does not show, Protocol about the
-- answer 304. The conversion of the version's text and the making of atropos-go's request are
-- parameters. Api.Broker is internal/api/sse_broker.go with its channels as numbers, and Api.Pages
-- is internal/api/pagination.go.
--
-- Scenarios evaluates tests and applies the theorems at concrete inputs.
--
-- Not modelled: the clients of atropos and Prometheus and those of Zeus but for GetAttackResult,
-- cache files, the handlers of streams, health, caches and the catalogue, the requests that are
-- proxied to Zeus, the counting of request nodes in workflow_dsl.go, routing and the program's
-- entry, which are input and output of other code. Of the schema, the column types, the indexes
-- and most foreign keys are left out.
pub mod Base
pub mod Model
pub mod RunGraph
pub mod Schema
pub mod Store
pub mod Composition
pub mod FaultLife
pub mod Compile
pub mod Control
pub mod PolicyEngine
pub mod Api
pub mod Orchestrator
mod Scenarios
