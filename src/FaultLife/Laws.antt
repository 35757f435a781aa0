-- ===== src/FaultLife/Laws.antt =====
-- What firing a fault and reaping the expired ones do to the lists that are read from the table.
use mathlib.Core.List.{Memᴰ}
use manteion_go.Base.{
  ℕ, ◌+◌, ◌*◌, ◌≡◌, refl, sym, ap, ◌∙◌, inl, inr, String, ◌==◌, true, false, ◌||◌, some, List, [],
  ◌∷◌, ltb, Bool-cases, Option-cases, text_self, if◌then◌else◌,
}
use manteion_go.Base.Int.{pos, pos_part, neg_part}
use manteion_go.Model.Trace.{is_none}
use manteion_go.Model.Experiment.{eqz}
use manteion_go.Model.FaultConfig.{FaultConfig, FaultConfigStatus, is_active, can_fire}
use manteion_go.FaultLife.{
  Faults, find_config, update_configs, is_applied, is_expired, list_expired, set_fired,
  set_terminal, Response, done, fire, complete_all, reap,
}

find_config-update_configs :
    (id : String) (g : FaultConfig → FaultConfig) (fs : List FaultConfig) (f : FaultConfig)
    → ((x : FaultConfig) → (g x).id ≡ x.id)
    → find_config id fs ≡ some f
    → find_config id (update_configs id g fs) ≡ some (g f)
unfolding find_config update_configs
find_config-update_configs id g [] f keep h = cc
find_config-update_configs id g (x ∷ fs) f keep h = elim (Bool-cases (x.id == id)) [
  | inl e ↦
      let h' = rw e at h in
      let same : x ≡ f = cc in
      let e2 : ((g x).id == id) ≡ true = ap (λ k. k == id) (keep x) ∙ e in
      rw (e, e2) (ap (λ y. some (g y)) same)
  | inr e ↦ rw (e, e) (find_config-update_configs id g fs f keep (rw e at h))
]

-- A fault that is fired is applied from then on until its duration has passed, and for ever where the
-- duration is zero; a later read finds it under its ID.
pub fire_applies :
    (id : String) (now : ℕ) (s u : Faults)
    → fire id now s ≡ (done, u)
    → (f : FaultConfig) × (find_config id u.configs ≡ some f)
      × ((t : ℕ)
          → is_applied t f ≡ (
              eqz f.duration_ms (pos 0)
              || ltb (t + 1000 * neg_part f.duration_ms) (now + 1000 * pos_part f.duration_ms)))
unfolding fire
fire_applies id now s u h = elim (Option-cases (find_config id s.configs)) [
  | inl missing ↦ let h' = rw (missing, fire) at h in cc
  | inr (f, found) ↦ elim (Bool-cases (can_fire f)) [
    | inr held ↦ let h' = rw (found, fire, held) at h in cc
    | inl ready ↦ elim (Bool-cases (is_none f.fault_composition_id)) [
      | inr composed ↦ let h' = rw (found, fire, ready, composed) at h in cc
      | inl direct ↦
          let h' = rw (found, fire, ready, direct) at h in
          (
            set_fired now f,
            ap (λ (x : Response × Faults). find_config id x.1.configs) (sym h')
                ∙ find_config-update_configs id (set_fired now) s.configs f (λ x. refl) found,
            λ t. refl,
          )
    ]
  ]
]

-- The effect of the reaper on one row: a row of one of the IDs is completed.
abbrev complete_in : ℕ → List FaultConfig → FaultConfig → FaultConfig
complete_in now [] f = f
complete_in now (x ∷ xs) f =
    complete_in now xs (if f.id == x.id then set_terminal FaultConfigStatus.completed now f else f)

unfoldable complete_each : ℕ → List FaultConfig → List FaultConfig → List FaultConfig
complete_each now xs [] = []
complete_each now xs (f ∷ fs) = complete_in now xs f ∷ complete_each now xs fs

complete_each-nil : (now : ℕ) (fs : List FaultConfig) → complete_each now [] fs ≡ fs
unfolding complete_each
complete_each-nil now [] = refl
complete_each-nil now (f ∷ fs) = ap (λ rest. f ∷ rest) (complete_each-nil now fs)

complete_each-cons :
    (now : ℕ) (x : FaultConfig) (xs fs : List FaultConfig)
    → complete_each now (x ∷ xs) fs
      ≡ complete_each now xs (update_configs x.id (set_terminal FaultConfigStatus.completed now) fs)
unfolding complete_each update_configs
complete_each-cons now x xs [] = refl
complete_each-cons now x xs (f ∷ fs) =
    ap (λ rest. complete_in now (x ∷ xs) f ∷ rest) (complete_each-cons now x xs fs)

complete_all-each :
    (now : ℕ) (xs fs : List FaultConfig) → (complete_all now xs fs).0 ≡ complete_each now xs fs
unfolding complete_all
complete_all-each now [] fs = sym (complete_each-nil now fs)
complete_all-each now (x ∷ xs) fs =
    complete_all-each now xs (update_configs x.id (set_terminal FaultConfigStatus.completed now) fs)
    ∙ sym (complete_each-cons now x xs fs)

-- A row that is not active stays so.
complete_in-inactive :
    (now : ℕ) (xs : List FaultConfig) (f : FaultConfig)
    → is_active f.status ≡ false
    → is_active (complete_in now xs f).status ≡ false
complete_in-inactive now [] f h = h
complete_in-inactive now (x ∷ xs) f h = elim (Bool-cases (f.id == x.id)) [
  | inl e ↦
      rw (e, is_active)
        (complete_in-inactive now xs (set_terminal FaultConfigStatus.completed now f) refl)
  | inr e ↦ rw (e, is_active) (complete_in-inactive now xs f h)
]

complete_in-member :
    (now : ℕ) (xs : List FaultConfig) (f : FaultConfig)
    → Memᴰ f xs
    → is_active (complete_in now xs f).status ≡ false
complete_in-member now [] f p = elim p [ ]
complete_in-member now (x ∷ xs) f (Memᴰ.head e) =
    let same : (f.id == x.id) ≡ true =
      ap (λ (y : FaultConfig). f.id == y.id) (sym e) ∙ text_self f.id in
    rw (same, is_active)
      (complete_in-inactive now xs (set_terminal FaultConfigStatus.completed now f) refl)
complete_in-member now (x ∷ xs) f (Memᴰ.tail p) = elim (Bool-cases (f.id == x.id)) [
  | inl e ↦
      rw (e, is_active)
        (complete_in-inactive now xs (set_terminal FaultConfigStatus.completed now f) refl)
  | inr e ↦ rw (e, is_active) (complete_in-member now xs f p)
]

inactive-expired :
    (now : ℕ) (f : FaultConfig) → is_active f.status ≡ false → is_expired now f ≡ false
inactive-expired now f h = rw (h, is_expired) refl

complete_in-fresh :
    (now : ℕ) (xs : List FaultConfig) (f : FaultConfig)
    → is_expired now f ≡ false
    → is_expired now (complete_in now xs f) ≡ false
complete_in-fresh now [] f h = h
complete_in-fresh now (x ∷ xs) f h = elim (Bool-cases (f.id == x.id)) [
  | inl e ↦ inactive-expired now (complete_in now (x ∷ xs) f) (
      rw (e, is_active)
        (complete_in-inactive now xs (set_terminal FaultConfigStatus.completed now f) refl))
  | inr e ↦
      let kept : (if f.id == x.id then set_terminal FaultConfigStatus.completed now f else f) ≡ f =
        rw e refl in
      ap (λ g. is_expired now (complete_in now xs g)) kept ∙ complete_in-fresh now xs f h
]

list_expired-member :
    (now : ℕ) (fs : List FaultConfig) (f : FaultConfig)
    → Memᴰ f fs
    → is_expired now f ≡ true
    → Memᴰ f (list_expired now fs)
unfolding list_expired
list_expired-member now [] f p h = elim p [ ]
list_expired-member now (x ∷ fs) f (Memᴰ.head e) h =
    let h' : is_expired now x ≡ true = ap (is_expired now) (sym e) ∙ h in
    rw (h', list_expired) (Memᴰ.head e)
list_expired-member now (x ∷ fs) f (Memᴰ.tail p) h =
    let rest = list_expired-member now fs f p h in
    elim (Bool-cases (is_expired now x)) [
      | inl e ↦ rw (e, list_expired) (Memᴰ.tail rest)
      | inr e ↦ rw (e, list_expired) rest
    ]

list_expired-complete_each :
    (now : ℕ) (xs fs : List FaultConfig)
    → ((f : FaultConfig) → Memᴰ f fs → is_expired now f ≡ true → Memᴰ f xs)
    → list_expired now (complete_each now xs fs) ≡ []
unfolding list_expired complete_each
list_expired-complete_each now xs [] sub = refl
list_expired-complete_each now xs (f ∷ fs) sub =
    rw (fresh, list_expired) (list_expired-complete_each now xs fs (λ x p. sub x (Memᴰ.tail p)))
  where
    fresh : is_expired now (complete_in now xs f) ≡ false
    fresh = elim (Bool-cases (is_expired now f)) [
      | inl e ↦
          inactive-expired now (complete_in now xs f)
            (complete_in-member now xs f (sub f (Memᴰ.head refl) e))
      | inr e ↦ complete_in-fresh now xs f e
    ]

-- After the reaper has run, no active fault of a finite duration has passed it, at the time of the
-- run: each that had was completed, also where several rows share an ID.
pub list_expired-reap : (now : ℕ) (s : Faults) → list_expired now (reap now s).configs ≡ []
unfolding reap
list_expired-reap now s =
    ap (list_expired now) (complete_all-each now (list_expired now s.configs) s.configs)
    ∙ list_expired-complete_each now (list_expired now s.configs) s.configs
        (list_expired-member now s.configs)
