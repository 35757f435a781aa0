-- ===== src/Api/Handlers/Rules/Broadcasts.antt =====
-- internal/api/rule_handler.go: each change of the rules is told to the subscribers of its service.
use manteion_go.Base.{
  sym, arith, ℕ, suc, ◌≡◌, refl, ap, ◌⊎◌, inl, inr, String, Bool, true, false, not, ◌||◌, Option,
  none, some, Check, new, Error, Bool-cases, Option-cases, leb,
}
use manteion_go.Base.Result.{Result, ok, err, panic, chain_inversion}
use manteion_go.Model.Rule.{Rule, validate_rule, validate_rule_fields}
use manteion_go.Store.Rules as Rules
use manteion_go.Store.Rules.{
  Codec, RuleRow, RuleTable, find_row, has_row, to_row, set_row, not_found,
}
use manteion_go.Api.Broker.{Event, broadcast}
use manteion_go.Api.Handlers.{Reply, error, is_refusal, store_error, is_not_found}
use manteion_go.Api.Handlers.Faults.{or_fresh}
use manteion_go.Api.Handlers.Rules.{
  RuleServer, broadcast_rules_changed, saved, handle_create_rule, handle_update_rule, deleted,
  delete_found, handle_delete_rule,
}

-- The change succeeded and made one version, or changed nothing.
abbrev Step : RuleTable → Check → RuleTable → Type 0
Step t answer t' =
    ((answer ≡ none) × (t'.version ≡ suc t.version))
    ⊎ ((cause : Error) × (answer ≡ some cause) × (t' ≡ t))

module _ (codec : Codec) (admits : RuleRow → Bool) where
  create-Step :
      (r : Rule) (t : RuleTable)
      → Step t (Rules.create codec admits r t).0 (Rules.create codec admits r t).2
  unfolding Rules.create
  create-Step r t = elim (Option-cases (validate_rule r).1) [
    | inr (e, bad) ↦ inr (e, rw (bad, Rules.create) refl, rw (bad, Rules.create) refl)
    | inl good ↦
        elim (Bool-cases (
          has_row (validate_rule r).0.id t.rows
          || not (admits (to_row codec (validate_rule r).0)))) [
            | inl taken ↦ inr (
              new "insert rule: %w",
              rw (good, Rules.create, taken) refl,
              rw (good, Rules.create, taken) refl,
            )
            | inr free ↦
                inl (rw (good, Rules.create, free) refl, rw (good, Rules.create, free) refl)
          ]
  ]

  update-Step :
      (r : Rule) (now : ℕ) (t : RuleTable)
      → Step t (Rules.update codec admits r now t).0 (Rules.update codec admits r now t).2
  unfolding Rules.update
  update-Step r now t = elim (Option-cases (validate_rule r).1) [
    | inr (e, bad) ↦ inr (e, rw (bad, Rules.update) refl, rw (bad, Rules.update) refl)
    | inl good ↦ elim (Option-cases (find_row (validate_rule r).0.id t.rows)) [
      | inl gone ↦
          inr (not_found, rw (good, Rules.update, gone) refl, rw (good, Rules.update, gone) refl)
      | inr (old, there) ↦
          elim (Bool-cases (not (admits (set_row codec (validate_rule r).0 now old)))) [
            | inl bad ↦ inr (
              new "update rule: %w",
              rw (good, Rules.update, there, bad) refl,
              rw (good, Rules.update, there, bad) refl,
            )
            | inr fits ↦ inl (
              rw (good, Rules.update, there, fits) refl,
              rw (good, Rules.update, there, fits) refl,
            )
          ]
    ]
  ]

delete-Step : (id : String) (t : RuleTable) → Step t (Rules.delete id t).0 (Rules.delete id t).1
unfolding Rules.delete
delete-Step id t = elim (Bool-cases (has_row id t.rows)) [
  | inl e ↦ inl (rw (e, Rules.delete) refl, rw (e, Rules.delete) refl)
  | inr e ↦ inr (not_found, rw (e, Rules.delete) refl, rw (e, Rules.delete) refl)
]

-- Validate leaves the service.
validated_service : (r : Rule) → (validate_rule r).0.service ≡ r.service
unfolding validate_rule
validated_service r = elim (Option-cases (validate_rule_fields r)) [
  | inr (e, bad) ↦ rw (bad, validate_rule) refl
  | inl good ↦ ground arith
]

module _ (codec : Codec) (admits : RuleRow → Bool) where
  create_service :
      (r : Rule) (t : RuleTable) → (Rules.create codec admits r t).1.service ≡ r.service
  unfolding Rules.create
  create_service r t = elim (Option-cases (validate_rule r).1) [
    | inr (e, bad) ↦ rw (bad, Rules.create) (validated_service r)
    | inl good ↦
        elim (Bool-cases (
          has_row (validate_rule r).0.id t.rows
          || not (admits (to_row codec (validate_rule r).0)))) [
            | inl taken ↦ rw (good, Rules.create, taken) (validated_service r)
            | inr free ↦ rw (good, Rules.create, free) (validated_service r)
          ]
  ]

  update_service :
      (r : Rule) (now : ℕ) (t : RuleTable)
      → (Rules.update codec admits r now t).1.service ≡ r.service
  unfolding Rules.update
  update_service r now t = elim (Option-cases (validate_rule r).1) [
    | inr (e, bad) ↦ rw (bad, Rules.update) (validated_service r)
    | inl good ↦ elim (Option-cases (find_row (validate_rule r).0.id t.rows)) [
      | inl gone ↦ rw (good, Rules.update, gone) (validated_service r)
      | inr (old, there) ↦
          elim (Bool-cases (not (admits (set_row codec (validate_rule r).0 now old)))) [
            | inl bad ↦ rw (good, Rules.update, there, bad) (validated_service r)
            | inr fits ↦ rw (good, Rules.update, there, fits) (validated_service r)
          ]
    ]
  ]

-- A request of these handlers that writes.
pub data Request : Type 0 where
  rule_create : (fresh : String) (now : ℕ) → Option Rule → Request
  rule_update : (id : String) (now : ℕ) → Option Rule → Request
  rule_delete : (id : String) → Request

-- The service of the rule that the request saves, or of the stored rule that it deletes.
abbrev pub service_of : Request → RuleServer → String
service_of (rule_create fresh now body) s = elim body [ none ↦ "" | some rule ↦ rule.service ]
service_of (rule_update id now body) s = elim body [ none ↦ "" | some rule ↦ rule.service ]
service_of (rule_delete id) s = elim (find_row id s.rules.rows) [
  | none ↦ ""
  | some row ↦ row.service
]

stored_service :
    (codec : Codec) (id : String) (s : RuleServer) (existing : Rule)
    → Rules.get codec id s.rules ≡ ok existing
    → existing.service ≡ service_of (rule_delete id) s
unfolding Rules.get Rules.scan_rule
stored_service codec id s existing h = elim (Option-cases (find_row id s.rules.rows)) [
  | inl gone ↦ let h' = rw (gone, Rules.get) at h in cc
  | inr (row, there) ↦
      let h' = rw (there, Rules.get) at h in
      let (labels, _, e) =
        chain_inversion (Rules.scan_labels codec row.match_labels)
          (λ labels. ok (Rules.scanned codec row labels)) h' in
      let same : Rules.scanned codec row labels ≡ existing = cc in
      rw (there, service_of) (ap (λ (r : Rule). r.service) (sym same))
]

module _ (codec : Codec) (event_data : ℕ → String) (admits : RuleRow → Bool) where
  -- The reply and the server after it.
  unfoldable pub handle : Request → RuleServer → Reply Rule × RuleServer
  handle (rule_create fresh now body) s =
      handle_create_rule codec event_data admits fresh now body s
  handle (rule_update id now body) s = handle_update_rule codec event_data admits id now body s
  handle (rule_delete id) s = handle_delete_rule codec event_data admits id s

  -- The event of the next version went to the subscribers of the service.
  abbrev pub Announced : String → RuleServer → RuleServer → Type 0
  Announced service s s' =
      (s'.rules.version ≡ suc s.rules.version)
      × (s'.broker
          ≡ broadcast service
              (record { type = "rules_changed"; data_text = event_data (suc s.rules.version) })
              s.broker)

  abbrev pub Told : String → RuleServer → Reply Rule × RuleServer → Type 0
  Told service s x =
      ((is_refusal x.0 ≡ true) × (x.1 ≡ s)) ⊎ ((is_refusal x.0 ≡ false) × Announced service s x.1)

  announce :
      (service : String) (s : RuleServer) (t : RuleTable)
      → t.version ≡ suc s.rules.version
      → Announced service s (broadcast_rules_changed event_data service (record s { rules = t }))
  unfolding broadcast_rules_changed
  announce service s t e =
      let event : ℕ → Event = λ v. record { type = "rules_changed"; data_text = event_data v } in
      (e, ap (λ v. broadcast service (event v) s.broker) e)

  refused_update : (cause : Error) → is_refusal {A = Rule} (store_error 400 cause) ≡ true
  unfolding store_error
  refused_update cause = elim (Bool-cases (is_not_found cause)) [
    | inl e ↦ rw (e) refl
    | inr e ↦ rw (e) refl
  ]

  refused_delete : (cause : Error) → is_refusal {A = Rule} (store_error 500 cause) ≡ true
  unfolding store_error
  refused_delete cause = elim (Bool-cases (is_not_found cause)) [
    | inl e ↦ rw (e) refl
    | inr e ↦ rw (e) refl
  ]

  saved-Told :
      (code : ℕ) (refuse : Error → Reply Rule) (service : String) (s : RuleServer)
      (x : Check × Rule × RuleTable)
      → x.1.service ≡ service
      → leb 400 code ≡ false
      → ((cause : Error) → is_refusal (refuse cause) ≡ true)
      → Step s.rules x.0 x.2
      → Told service s (saved codec event_data admits code refuse x s)
  saved-Told code refuse service s (none, r, t) same small large (inl (_, next)) =
      inr (small, rw (sym same) (announce r.service s t next))
  saved-Told code refuse service s (none, r, t) same small large (inr (cause, bad, e)) = cc
  saved-Told code refuse service s (some cause, r, t) same small large (inl (bad, e)) = cc
  saved-Told code refuse service s (some cause, r, t) same small large (inr (_, _, e)) =
      inl (large cause, ap (λ x. record s { rules = x }) e)

  deleted-Told :
      (service : String) (s : RuleServer) (x : Check × RuleTable)
      → Step s.rules x.0 x.1
      → Told service s (deleted codec event_data admits service x s)
  deleted-Told service s (none, t) (inl (_, next)) = inr (refl, announce service s t next)
  deleted-Told service s (none, t) (inr (cause, bad, e)) = cc
  deleted-Told service s (some cause, t) (inl (bad, e)) = cc
  deleted-Told service s (some cause, t) (inr (_, _, e)) =
      inl (refused_delete cause, ap (λ x. record s { rules = x }) e)

  found-Told :
      (id service : String) (r : Result Rule) (s : RuleServer)
      → ((existing : Rule) → r ≡ ok existing → existing.service ≡ service)
      → Told service s (delete_found codec event_data admits id r s)
  found-Told id service (ok existing) s same =
      rw (sym (same existing refl))
        (deleted-Told existing.service s (Rules.delete id s.rules) (delete-Step id s.rules))
  found-Told id service (err cause) s same = inl (refused_delete cause, refl)
  found-Told id service panic s same = inl (refl, refl)

  -- A request that writes rules is refused and changes neither the rules nor a subscriber's events, or
  -- it makes the next version of the rules and sends an event with that version to the subscribers of
  -- the service of the rule that it saves or, for a deletion, of the stored rule.
  pub handle-Told : (r : Request) (s : RuleServer) → Told (service_of r s) s (handle r s)
  unfolding handle handle_create_rule handle_update_rule handle_delete_rule
  handle-Told (rule_create fresh now none) s = inl (refl, refl)
  handle-Told (rule_create fresh now (some body)) s =
      let rule = record body { id = or_fresh fresh body.id; created_at = now; updated_at = now } in
      saved-Told 201 (λ cause. error 400) body.service s (Rules.create codec admits rule s.rules)
        (create_service codec admits rule s.rules) refl (λ cause. refl)
        (create-Step codec admits rule s.rules)
  handle-Told (rule_update id now none) s = inl (refl, refl)
  handle-Told (rule_update id now (some body)) s =
      let rule = record body { id = id; updated_at = now } in
      saved-Told 200 (store_error 400) body.service s (Rules.update codec admits rule now s.rules)
        (update_service codec admits rule now s.rules) refl refused_update
        (update-Step codec admits rule now s.rules)
  handle-Told (rule_delete id) s =
      found-Told id (service_of (rule_delete id) s) (Rules.get codec id s.rules) s
        (stored_service codec id s)
