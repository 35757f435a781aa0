-- ===== src/Control.antt =====
-- internal/atrocontrol: calls of all instances of a service, and the state that each service is meant
-- to be in. The requests of atropos-go and its client are parameters; what is only logged or timed is
-- left out.
pub mod Fanout
pub mod Intents
pub mod Outcome
use manteion_go.Base.{
  String, ◌==◌, Bool, true, false, not, ◌||◌, Option, none, some, List, [], ◌∷◌, ◌++◌, map, Error,
  errorf, wrap, is_nil, if◌then◌else◌,
}
use manteion_go.Base.Int.{ℤ, pos}
use manteion_go.Base.Result.{Result, ok, err, ◌>>=◌, wrapped}
use manteion_go.Base.Update.{update}
use manteion_go.Model.Sdk.{SdkInstance}
use manteion_go.Compile.{CompiledRule}

pub record Target : Type 0 where
  pub instance_id : String
  pub address : String

pub record PerInstanceError : Type 0 where
  pub instance_id : String
  pub address : String
  pub cause : Error

pub record FanoutResult : Type 0 where
  pub targeted : List String
  pub succeeded : List String
  pub failures : List PerInstanceError

abbrev pub all_succeeded : FanoutResult → Bool
all_succeeded r = is_nil r.failures

abbrev pub any_succeeded : FanoutResult → Bool
any_succeeded r = not (is_nil r.succeeded)

abbrev pub ids : List Target → List String
ids ts = map (λ (t : Target). t.instance_id) ts

-- What a goroutine of fanout adds to the result, from the answer of its call.
abbrev pub add_answer : Target → Option Error → FanoutResult → FanoutResult
add_answer t none r = record r { succeeded = r.succeeded ++ t.instance_id ∷ [] }
add_answer t (some e) r = record r {
  failures =
      r.failures ++ record { instance_id = t.instance_id; address = t.address; cause = e } ∷ [];
}

-- The goroutines in the order in which they record their answers.
abbrev pub collect_answers : (Target → Option Error) → List Target → FanoutResult → FanoutResult
collect_answers op [] r = r
collect_answers op (t ∷ ts) r = collect_answers op ts (add_answer t (op t) r)

abbrev pub empty_result : List Target → FanoutResult
empty_result targets = record { targeted = ids targets; succeeded = []; failures = [] }

-- fanout with a positive concurrency, where `completion` is the order in which the calls of the
-- targets are over.
unfoldable pub fanout :
    (completion : List Target → List Target) → List Target → (Target → Option Error) → FanoutResult
fanout completion targets op = collect_answers op (completion targets) (empty_result targets)

abbrev pub InstanceFilter : Type 0
InstanceFilter = SdkInstance → Bool

abbrev pub filter_alive_or_suspect : InstanceFilter
filter_alive_or_suspect i = i.status == "" || i.status == "alive" || i.status == "suspect"

abbrev pub filter_all : InstanceFilter
filter_all i = true

-- callOpts, and the defaults of the controller, which have no run.
pub record CallOpts : Type 0 where
  pub timeout : ℤ
  pub concurrency : ℤ
  pub filter : Option InstanceFilter
  pub run_id : String

abbrev pub CallOption : Type 0
CallOption = CallOpts → CallOpts

abbrev pub with_timeout : ℤ → CallOption
with_timeout d o = record o { timeout = d }

abbrev pub with_concurrency : ℤ → CallOption
with_concurrency n o = record o { concurrency = n }

abbrev pub with_instance_filter : InstanceFilter → CallOption
with_instance_filter f o = record o { filter = some f }

abbrev pub with_run_id : String → CallOption
with_run_id id o = record o { run_id = id }

-- The options that New sets, in nanoseconds.
abbrev pub default_opts : CallOpts
default_opts = record {
  timeout = pos 2000000000;
  concurrency = pos 16;
  filter = some filter_alive_or_suspect;
  run_id = "";
}

abbrev pub resolve_call_opts : CallOpts → List CallOption → CallOpts
resolve_call_opts cfg [] = cfg
resolve_call_opts cfg (o ∷ os) = resolve_call_opts (o cfg) os

-- `filter != nil && !filter(inst)`
abbrev pub passes : Option InstanceFilter → SdkInstance → Bool
passes none i = true
passes (some f) i = f i

unfoldable pub select_targets : Option InstanceFilter → List SdkInstance → List Target
select_targets f [] = []
select_targets f (i ∷ is) =
    let rest = select_targets f is in
    if passes f i then record { instance_id = i.id; address = i.address } ∷ rest else rest

module _ (FaultRequest DelayRequest : Type 0) where
  -- ServiceIntent; no code sets its AppliedAt.
  pub record ServiceIntent : Type 0 where
    pub rules : List CompiledRule
    pub active_fault : Option FaultRequest
    pub freeze_cfg : Option DelayRequest
    pub run_id : String

  abbrev pub IntentTracker : Type 0
  IntentTracker = String → Option ServiceIntent

  -- The clients, the instances, and the order in which the calls of a fan-out are over.
  pub record Env (Entry : Type 0) : Type 0 where
    pub defaults : CallOpts
    pub for_service : String → Result (List SdkInstance)
    pub for_instance : String → Result SdkInstance
    pub completion : List Target → List Target
    pub post_fault : ℤ → String → FaultRequest → Option Error
    pub delete_fault : ℤ → String → Option Error
    pub post_cache_box_delay : ℤ → String → DelayRequest → Option Error
    pub clear_cache_box : ℤ → String → Option Error
    pub post_rules : ℤ → String → List CompiledRule → Option Error
    pub post_cache_entries : ℤ → String → List Entry → Option Error

-- IntentTracker.Set, Clear and Get.
module _ {F D : Type 0} where
  abbrev pub set_intent : String → ServiceIntent F D → IntentTracker F D → IntentTracker F D
  set_intent service intent t = update t service (some intent)

  abbrev pub clear_intent : String → IntentTracker F D → IntentTracker F D
  clear_intent service t = update t service none

  abbrev pub get_intent : String → IntentTracker F D → Option (ServiceIntent F D)
  get_intent service t = t service

abbrev answer : Option Error → Result {0} Unit
answer none = ok tt
answer (some e) = err e

module _ {F D Entry : Type 0} (env : Env F D Entry) where
  unfoldable pub resolve_targets : String → Option InstanceFilter → Result (List Target)
  unfolding select_targets
  resolve_targets service filter =
      wrapped (wrap "resolve service %q: %w") (env.for_service service) >>= λ instances.
      let targets = select_targets filter instances in
      if is_nil targets
      then err (errorf "no instances found for service %q" (service ∷ []))
      else ok targets

  -- What each call of a whole service does after its intent is written.
  unfoldable pub call_service :
      String → CallOpts → (ℤ → String → Option Error) → Result FanoutResult
  unfolding resolve_targets fanout
  call_service service co op = resolve_targets service co.filter >>= λ targets.
      ok (fanout env.completion targets (λ t. op co.timeout t.address))

  unfoldable pub inject_fault :
      String → F → List CallOption → IntentTracker F D → Result FanoutResult × IntentTracker F D
  unfolding call_service
  inject_fault service req opts t =
      let co = resolve_call_opts env.defaults opts in
      (
        call_service service co (λ timeout address. env.post_fault timeout address req),
        set_intent service
            (record { rules = []; active_fault = some req; freeze_cfg = none; run_id = co.run_id })
            t,
      )

  unfoldable pub clear_fault :
      String → List CallOption → IntentTracker F D → Result FanoutResult × IntentTracker F D
  unfolding call_service
  clear_fault service opts t =
      let co = resolve_call_opts env.defaults opts in
      (call_service service co env.delete_fault, clear_intent service t)

  unfoldable pub freeze_service :
      String → D → List CallOption → IntentTracker F D → Result FanoutResult × IntentTracker F D
  unfolding call_service
  freeze_service service cfg opts t =
      let co = resolve_call_opts env.defaults opts in
      (
        call_service service co (λ timeout address. env.post_cache_box_delay timeout address cfg),
        set_intent service
            (record { rules = []; active_fault = none; freeze_cfg = some cfg; run_id = co.run_id })
            t,
      )

  unfoldable pub clear_service :
      String → List CallOption → IntentTracker F D → Result FanoutResult × IntentTracker F D
  unfolding call_service
  clear_service service opts t =
      let co = resolve_call_opts env.defaults opts in
      (call_service service co env.clear_cache_box, clear_intent service t)

  unfoldable pub push_rules :
      String
      → List CompiledRule
      → List CallOption
      → IntentTracker F D
      → Result FanoutResult × IntentTracker F D
  unfolding call_service
  push_rules service rules opts t =
      let co = resolve_call_opts env.defaults opts in
      (
        call_service service co (λ timeout address. env.post_rules timeout address rules),
        set_intent service
            (record { rules = rules; active_fault = none; freeze_cfg = none; run_id = co.run_id })
            t,
      )

  unfoldable pub preload_entries : String → List Entry → List CallOption → Result FanoutResult
  unfolding call_service
  preload_entries service entries opts =
      let co = resolve_call_opts env.defaults opts in
      call_service service co (λ timeout address. env.post_cache_entries timeout address entries)

  -- The calls of one instance, which leave the intents as they are.
  abbrev call_instance : String → List CallOption → (ℤ → String → Option Error) → Result {0} Unit
  call_instance id opts op =
      wrapped (wrap "resolve instance %q: %w") (env.for_instance id) >>= λ inst.
      answer (op (resolve_call_opts env.defaults opts).timeout inst.address)

  unfoldable pub inject_fault_on_instance : String → F → List CallOption → Result {0} Unit
  inject_fault_on_instance id req opts =
      call_instance id opts (λ timeout address. env.post_fault timeout address req)

  unfoldable pub clear_fault_on_instance : String → List CallOption → Result {0} Unit
  clear_fault_on_instance id opts = call_instance id opts env.delete_fault

  unfoldable pub freeze_instance : String → D → List CallOption → Result {0} Unit
  freeze_instance id cfg opts =
      call_instance id opts (λ timeout address. env.post_cache_box_delay timeout address cfg)

  unfoldable pub clear_instance : String → List CallOption → Result {0} Unit
  clear_instance id opts = call_instance id opts env.clear_cache_box

  unfoldable pub push_rules_to_instance :
      String → List CompiledRule → List CallOption → Result {0} Unit
  push_rules_to_instance id rules opts =
      call_instance id opts (λ timeout address. env.post_rules timeout address rules)
