-- ===== src/Control/Intents.antt =====
-- internal/atrocontrol/intent.go and the calls of a whole service that write it.
use manteion_go.Base.{
  ◌≡◌, refl, ◌∙◌, ap, inl, inr, String, ◌==◌, Option, none, some, List, [], ◌∷◌, Bool-cases,
  if◌then◌else◌, true, false,
}
use manteion_go.Base.Update.{update}
use manteion_go.Compile.{CompiledRule}
use manteion_go.Control.{
  CallOption, resolve_call_opts, Env, ServiceIntent, IntentTracker, get_intent, inject_fault,
  clear_fault, freeze_service, clear_service, push_rules,
}

module _ {F D Entry : Type 0} (env : Env F D Entry) where
  pub data Operation : Type 0 where
    inject : String → F → List CallOption → Operation
    clear_faults : String → List CallOption → Operation
    freeze : String → D → List CallOption → Operation
    clear_all : String → List CallOption → Operation
    push : String → List CompiledRule → List CallOption → Operation

  -- The intents after a call.
  abbrev pub perform : Operation → IntentTracker F D → IntentTracker F D
  perform (inject service req opts) t = (inject_fault env service req opts t).1
  perform (clear_faults service opts) t = (clear_fault env service opts t).1
  perform (freeze service cfg opts) t = (freeze_service env service cfg opts t).1
  perform (clear_all service opts) t = (clear_service env service opts t).1
  perform (push service rules opts) t = (push_rules env service rules opts t).1

  abbrev pub perform_all : List Operation → IntentTracker F D → IntentTracker F D
  perform_all [] t = t
  perform_all (o ∷ os) t = perform_all os (perform o t)

  -- The service of a call, and what the call means it to be like: nothing but what it sets.
  abbrev pub service_of : Operation → String
  service_of (inject service req opts) = service
  service_of (clear_faults service opts) = service
  service_of (freeze service cfg opts) = service
  service_of (clear_all service opts) = service
  service_of (push service rules opts) = service

  abbrev pub meant : Operation → Option (ServiceIntent F D)
  meant (inject service req opts) = some (record {
    rules = [];
    active_fault = some req;
    freeze_cfg = none;
    run_id = (resolve_call_opts env.defaults opts).run_id;
  })
  meant (clear_faults service opts) = none
  meant (freeze service cfg opts) = some (record {
    rules = [];
    active_fault = none;
    freeze_cfg = some cfg;
    run_id = (resolve_call_opts env.defaults opts).run_id;
  })
  meant (clear_all service opts) = none
  meant (push service rules opts) = some (record {
    rules = rules;
    active_fault = none;
    freeze_cfg = none;
    run_id = (resolve_call_opts env.defaults opts).run_id;
  })

  -- The last call of the service, if there is one.
  abbrev pub last_call : String → List Operation → Option Operation
  last_call service [] = none
  last_call service (o ∷ os) = elim (last_call service os) [
    | some later ↦ some later
    | none ↦ if service_of o == service then some o else none
  ]

  perform_as_update :
      (o : Operation) (t : IntentTracker F D) → perform o t ≡ update t (service_of o) (meant o)
  unfolding inject_fault clear_fault freeze_service clear_service push_rules
  perform_as_update (inject service req opts) t = refl
  perform_as_update (clear_faults service opts) t = refl
  perform_as_update (freeze service cfg opts) t = refl
  perform_as_update (clear_all service opts) t = refl
  perform_as_update (push service rules opts) t = refl

  perform_here :
      (o : Operation) (t : IntentTracker F D) (service : String)
      → (service_of o == service) ≡ true
      → perform o t service ≡ meant o
  perform_here o t service e = ap (λ u. u service) (perform_as_update o t) ∙ rw (e) refl

  perform_elsewhere :
      (o : Operation) (t : IntentTracker F D) (service : String)
      → (service_of o == service) ≡ false
      → perform o t service ≡ t service
  perform_elsewhere o t service e = ap (λ u. u service) (perform_as_update o t) ∙ rw (e) refl

  -- What an intent is, from the last call or, without one, from before.
  abbrev pub by_last : Option Operation → Option (ServiceIntent F D) → Option (ServiceIntent F D)
  by_last none before = before
  by_last (some o) before = meant o

  -- After any sequence of calls, and whether or not an instance could be found or answered, the
  -- intent of a service is what the last call for it set, without anything that earlier calls set; it
  -- is as before where no call was for it.
  pub perform_all_last :
      (os : List Operation) (t : IntentTracker F D) (service : String)
      → get_intent service (perform_all os t)
        ≡ by_last (last_call service os) (get_intent service t)
  perform_all_last [] t service = refl
  perform_all_last (o ∷ os) t service =
      perform_all_last os (perform o t) service ∙ one (last_call service os) refl
    where
      one :
          (l : Option Operation)
          → last_call service os ≡ l
          → by_last (last_call service os) (perform o t service)
            ≡ by_last (last_call service (o ∷ os)) (t service)
      one (some later) e = rw (e, last_call) refl
      one none e = elim (Bool-cases (service_of o == service)) [
        | inl q ↦ rw (e, q) (perform_here o t service q)
        | inr q ↦ rw (e, q) (perform_elsewhere o t service q)
      ]
