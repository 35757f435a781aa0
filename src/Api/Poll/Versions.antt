-- ===== src/Api/Poll/Versions.antt =====
-- internal/api and internal/store: what the version that rules and long-running faults share says of
-- their changes.
use mathlib.Core.List.{Memᴰ}
use mathlib.Core.Path.{subst}
use manteion_go.Base.{
  ℕ, suc, ◌≤◌, ◌≡◌, refl, sym, ap, ◌∙◌, ◌⊎◌, inl, inr, String, ◌==◌, Bool, true, false, not, ◌||◌,
  List, [], ◌∷◌, Bool-cases, Option-cases, arith,
}
use manteion_go.Model.Trace.{is_none}
use manteion_go.Model.FaultConfig.{
  FaultConfig, FaultConfigStatus, is_active, can_fire, validate_fault_config,
}
use manteion_go.FaultLife.{
  Faults, find_config, has_config, update_configs, list_active_for_service, list_expired,
  set_terminal, new_config, create_config, fire, delete_config, cancel_config, complete_all, reap,
}
use manteion_go.Store.Rules.{Codec, RuleRow, RuleTable}
use manteion_go.Store.Rules.Versions as Rules
use manteion_go.Api.Poll.{Tables, rule_table, fault_table}
use manteion_go.Api.Poll.Deletions.{NoNewFaults, delete_config-kept}

-- What the handlers of rules and of long-running faults do.
pub data Change : Type 0 where
  rule_change : Rules.Change → Change
  creates_config : String → ℕ → FaultConfig → Change
  fires : String → ℕ → Change
  cancels : String → ℕ → Change
  reaps : ℕ → Change
  deletes : String → Change

abbrev pub with_faults : Tables → Faults → Tables
with_faults s f = record s { configs = f.configs; version = f.version }

abbrev pub with_rules : Tables → RuleTable → Tables
with_rules s t = record s { rules = t.rows; version = t.version }

module _ (codec : Codec) (admits : RuleRow → Bool) where
  abbrev pub apply : Change → Tables → Tables
  apply (rule_change c) s = with_rules s (Rules.apply codec admits c (rule_table s))
  apply (creates_config fresh now cfg) s =
      with_faults s (create_config fresh now cfg (fault_table s)).1
  apply (fires id now) s = with_faults s (fire id now (fault_table s)).1
  apply (cancels id now) s = with_faults s (cancel_config id now (fault_table s)).1
  apply (reaps now) s = with_faults s (reap now (fault_table s))
  apply (deletes id) s = with_faults s (delete_config id (fault_table s)).1

  abbrev pub apply_all : List Change → Tables → Tables
  apply_all [] s = s
  apply_all (c ∷ cs) s = apply_all cs (apply c s)

-- The same rules, and for each service and time the same faults to apply.
abbrev pub SameFaults : List FaultConfig → List FaultConfig → Type 0
SameFaults fs gs =
    (service : String) (t : ℕ)
    → list_active_for_service service t fs ≡ list_active_for_service service t gs

abbrev pub is_deletion : Change → Bool
is_deletion (deletes id) = true
is_deletion _ = false

abbrev pub any_deletion : List Change → Bool
any_deletion [] = false
any_deletion (c ∷ cs) = is_deletion c || any_deletion cs

-- The same rules, no new fault to apply, and the same ones where none was deleted.
abbrev pub SameDesired : (deleted : Bool) → Tables → Tables → Type 0
SameDesired deleted s u =
    (s.rules ≡ u.rules)
    × NoNewFaults s.configs u.configs
    × (deleted ≡ false → SameFaults s.configs u.configs)

none_new : (fs gs : List FaultConfig) → SameFaults fs gs → NoNewFaults fs gs
none_new fs gs same service t f i = subst (λ l. Memᴰ f l) (sym (same service t)) i

-- The version tells the two apart, or there is nothing to tell.
abbrev Told : Faults → Faults → Type 0
Told s u = (SameFaults s.configs u.configs × (u.version ≡ s.version)) ⊎ (u.version ≡ suc s.version)

nothing : (s u : Faults) → u ≡ s → Told s u
nothing s u e = inl (
  λ service t. ap (λ (x : Faults). list_active_for_service service t x.configs) (sym e),
  ap (λ (x : Faults). x.version) e,
)

idle_unseen :
    (f : FaultConfig) (fs : List FaultConfig) → is_active f.status ≡ false → SameFaults fs (f ∷ fs)
unfolding list_active_for_service
idle_unseen f fs idle service t = elim (Bool-cases (f.service == service)) [
  | inl e ↦ rw (idle, e) refl
  | inr e ↦ rw (idle, e) refl
]

create_config-Told :
    (fresh : String) (now : ℕ) (cfg : FaultConfig) (s : Faults)
    → Told s (create_config fresh now cfg s).1
unfolding create_config list_active_for_service
create_config-Told fresh now cfg s =
    let f = new_config fresh now cfg in
    elim (Bool-cases (not (is_none (validate_fault_config f)))) [
      | inl bad ↦ nothing s _ (rw (bad, create_config) refl)
      | inr good ↦ elim (Bool-cases (has_config f.id s.configs)) [
        | inl taken ↦ nothing s _ (rw (good, create_config, taken) refl)
        | inr free ↦
            let made : (create_config fresh now cfg s).1 ≡ record s { configs = f ∷ s.configs } =
              rw (good, create_config, free) refl in
            inl (
              λ service t.
                  idle_unseen f s.configs refl service t
                  ∙ ap (λ (x : Faults). list_active_for_service service t x.configs) (sym made),
              ap (λ (x : Faults). x.version) made,
            )
      ]
    ]

fire-Told : (id : String) (now : ℕ) (s : Faults) → Told s (fire id now s).1
unfolding fire
fire-Told id now s = elim (Option-cases (find_config id s.configs)) [
  | inl gone ↦ nothing s _ (rw (gone, fire) refl)
  | inr (f, there) ↦ elim (Bool-cases (not (can_fire f))) [
    | inl held ↦ nothing s _ (rw (there, fire, held) refl)
    | inr ready ↦ elim (Bool-cases (not (is_none f.fault_composition_id))) [
      | inl composed ↦ nothing s _ (rw (there, fire, ready, composed) refl)
      | inr direct ↦ inr (rw (there, fire, ready, direct) refl)
    ]
  ]
]

cancel_config-Told : (id : String) (now : ℕ) (s : Faults) → Told s (cancel_config id now s).1
unfolding cancel_config
cancel_config-Told id now s = elim (Option-cases (find_config id s.configs)) [
  | inl gone ↦ nothing s _ (rw (gone, cancel_config) refl)
  | inr (f, there) ↦ elim (Bool-cases (not (is_active f.status))) [
    | inl idle ↦ nothing s _ (rw (there, cancel_config, idle) refl)
    | inr running ↦ inr (rw (there, cancel_config, running) refl)
  ]
]

update_configs-missing :
    (id : String) (g : FaultConfig → FaultConfig) (fs : List FaultConfig)
    → has_config id fs ≡ false
    → update_configs id g fs ≡ fs
unfolding update_configs find_config
update_configs-missing id g [] h = refl
update_configs-missing id g (f ∷ fs) h = elim (Bool-cases (f.id == id)) [
  | inl e ↦ let h' = rw (has_config, e) at h in cc
  | inr e ↦
      let h' = rw (has_config, e) at h in
      rw (e) (ap (λ x. f ∷ x) (update_configs-missing id g fs h'))
]

complete_all-idle :
    (now : ℕ) (expired fs : List FaultConfig)
    → (complete_all now expired fs).1 ≡ false
    → (complete_all now expired fs).0 ≡ fs
unfolding complete_all
complete_all-idle now [] fs h = refl
complete_all-idle now (f ∷ expired) fs h = elim (Bool-cases (has_config f.id fs)) [
  | inl e ↦ let h' = rw (e) at h in cc
  | inr e ↦
      let h' = rw (e) at h in
      complete_all-idle now expired
        (update_configs f.id (set_terminal FaultConfigStatus.completed now) fs) h'
      ∙ update_configs-missing f.id (set_terminal FaultConfigStatus.completed now) fs e
]

reap-Told : (now : ℕ) (s : Faults) → Told s (reap now s)
unfolding reap
reap-Told now s =
    let after = complete_all now (list_expired now s.configs) s.configs in
    elim (Bool-cases after.1) [
      | inl any ↦ inr (rw (any) refl)
      | inr idle ↦
          let same = complete_all-idle now (list_expired now s.configs) s.configs idle in
          inl (λ service t. ap (list_active_for_service service t) (sym same), rw (idle) refl)
    ]

module _ (codec : Codec) (admits : RuleRow → Bool) where
  -- A change that keeps the version keeps what is desired.
  abbrev Tells : Bool → Tables → Tables → Type 0
  Tells deleted s u =
      (SameDesired deleted s u × (u.version ≡ s.version)) ⊎ (u.version ≡ suc s.version)

  of_faults : (s : Tables) (f : Faults) → Told (fault_table s) f → Tells false s (with_faults s f)
  of_faults s f (inl (same, v)) = inl ((refl, none_new s.configs f.configs same, λ _. same), v)
  of_faults s f (inr v) = inr v

  apply-Tells : (c : Change) (s : Tables) → Tells (is_deletion c) s (apply codec admits c s)
  apply-Tells (rule_change c) s = elim (Rules.apply-version codec admits c (rule_table s)) [
    | inl kept ↦ inl (
      (ap (λ (t : RuleTable). t.rows) (sym kept), λ service t f i. i, λ _ service t. refl),
      ap (λ (t : RuleTable). t.version) kept,
    )
    | inr bumped ↦ inr bumped
  ]
  apply-Tells (creates_config fresh now cfg) s =
      of_faults s _ (create_config-Told fresh now cfg (fault_table s))
  apply-Tells (fires id now) s = of_faults s _ (fire-Told id now (fault_table s))
  apply-Tells (cancels id now) s = of_faults s _ (cancel_config-Told id now (fault_table s))
  apply-Tells (reaps now) s = of_faults s _ (reap-Told now (fault_table s))
  apply-Tells (deletes id) s =
      let (fewer, v) = delete_config-kept id (fault_table s) in inl ((refl, fewer, λ e. cc), v)

  pub apply_all-version :
      (cs : List Change) (s : Tables)
      → (s.version ≤ (apply_all codec admits cs s).version)
        × ((apply_all codec admits cs s).version ≡ s.version
            → SameDesired (any_deletion cs) s (apply_all codec admits cs s))
  apply_all-version [] s = (omega arith, λ e. (refl, λ service t f i. i, λ _ service t. refl))
  apply_all-version (c ∷ cs) s =
      let (grows, same) = apply_all-version cs (apply codec admits c s) in
      elim (apply-Tells c s) [
        | inl ((rules, fewer, faults), v) ↦ (
          omega (arith, grows, v),
          λ e.
              let (rules', fewer', faults') = same (e ∙ sym v) in
              (
                rules ∙ rules',
                λ service t f i. fewer service t f (fewer' service t f i),
                λ none_deleted service t.
                    let first : is_deletion c ≡ false = ground arith in
                    let others : any_deletion cs ≡ false = ground arith in
                    faults first service t ∙ faults' others service t,
              ),
        )
        | inr bumped ↦ (omega (arith, grows, bumped), λ e. absurd (omega (arith, grows, bumped, e)))
      ]
