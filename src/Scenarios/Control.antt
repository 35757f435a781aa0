-- ===== src/Scenarios/Control.antt =====
-- Two instances of a service, called at the same time, of which one fails; and calls of two services.
use mathlib.Core.List.{Perm}
use mathlib.Core.List.Perm
use manteion_go.Base.{
  ◌*◌, ◌<◌, ◌≡◌, refl, ◌⊎◌, String, ◌==◌, Option, none, some, List, [], ◌∷◌, Error, new, length,
  if◌then◌else◌, arith,
}
use manteion_go.Base.Result.{err}
use manteion_go.Control.{
  Target, FanoutResult, Env, default_opts, with_run_id, add_answer, collect_answers, empty_result,
  fanout, get_intent,
}
use manteion_go.Control.Fanout.{
  Progress, start, Finished, Step, Steps, fanout-Sequential, fanout_finishes,
}
use manteion_go.Control.Intents.{perform_all, inject, push, freeze, perform_all_last}
use manteion_go.Control.Outcome.{recorded, fanout_accounts}

abbrev first : Target
first = record { instance_id = "cart-1"; address = "10.0.0.1" }

abbrev second : Target
second = record { instance_id = "cart-2"; address = "10.0.0.2" }

abbrev targets : List Target
targets = first ∷ second ∷ []

abbrev op : Target → Option Error
op t = if t.instance_id == "cart-2" then some (new "refused") else none

abbrev begun : FanoutResult
begun = empty_result targets

-- The second instance answers first.
abbrev answered : FanoutResult
answered = add_answer first (op first) (add_answer second (op second) begun)

abbrev finished : Progress
finished = record { waiting = []; calling = []; releasing = 0; result = answered }

two_calls : Steps 2 op 6 (start targets) finished
two_calls =
    Steps.then_step 5 _ _ _
      (Steps.then_step 4 _ _ _
        (Steps.then_step 3 _ _ _
          (Steps.then_step 2 _ _ _
            (Steps.then_step 1 _ _ _
              (Steps.then_step 0 _ _ _ (Steps.none_yet _)
                (Step.launch first (second ∷ []) [] 0 begun (omega arith)))
              (Step.launch second [] (first ∷ []) 0 begun (omega arith)))
            (Step.record_answer [] [] second (first ∷ []) 0 begun))
          (Step.record_answer [] [] first [] 1 (add_answer second (op second) begun)))
        (Step.release [] [] 1 answered))
      (Step.release [] [] 0 answered)

fanout-Sequential_example :
    (order : List Target) × Perm targets order
    × (answered ≡ collect_answers op order (empty_result targets))
fanout-Sequential_example = fanout-Sequential 2 op targets 6 finished two_calls (refl, refl, refl)

fanout_finishes_example :
    (Finished finished × (6 ≡ 3 * length targets))
    ⊎ (((q : Progress) × Step 2 op finished q) × (6 < 3 * length targets))
fanout_finishes_example = fanout_finishes 2 op targets 6 finished (omega arith) two_calls

abbrev swapped : List Target → List Target
swapped [] = []
swapped (t ∷ []) = t ∷ []
swapped (t ∷ u ∷ ts) = u ∷ t ∷ ts

fanout_accounts_example :
    Perm (fanout swapped targets op).targeted (recorded (fanout swapped targets op))
fanout_accounts_example = fanout_accounts op swapped targets (Perm.swap second first [])

-- Requests are texts here, and no instance is registered.
abbrev pub unreachable : Env String String String
unreachable = record {
  defaults = default_opts;
  for_service = λ s. err (new "down");
  for_instance = λ s. err (new "down");
  completion = λ ts. ts;
  post_fault = λ d a f. none;
  delete_fault = λ d a. none;
  post_cache_box_delay = λ d a f. none;
  clear_cache_box = λ d a. none;
  post_rules = λ d a r. none;
  post_cache_entries = λ d a es. none;
}

perform_all_last_example :
    get_intent "cart" (
      perform_all unreachable
        (inject "cart" "latency" []
          ∷ freeze "pay" "replay" []
          ∷ push "cart" [] (with_run_id "r1" ∷ [])
          ∷ [])
        (λ s. none))
    ≡ some (record { rules = []; active_fault = none; freeze_cfg = none; run_id = "r1" })
perform_all_last_example =
    perform_all_last unreachable
      (inject "cart" "latency" []
        ∷ freeze "pay" "replay" []
        ∷ push "cart" [] (with_run_id "r1" ∷ [])
        ∷ [])
      (λ s. none) "cart"
