-- ===== src/Orchestrator/Watch.antt =====
-- internal/orchestrator/runner.go: watchPhase, tick by tick, until its context is done. A tick is the
-- answer to the query of the condition's metric, none for an error, with the clock's reading then, in
-- nanoseconds.
use manteion_go.Base.{
  ℕ, ◌≡◌, refl, ap, ◌⊎◌, inl, inr, Bool, true, false, Option, none, some, List, [], ◌∷◌, ◌++◌,
  Bool-cases, All, if◌then◌else◌,
}
use manteion_go.Base.Int.{lez, sub_ℕ}
use manteion_go.Base.Float.{Float64}
use manteion_go.Model.Experiment.{PhaseTransition}
use manteion_go.PolicyEngine.{met}

pub record Tick : Type 0 where
  pub value : Option Float64
  pub now : ℕ

module _ (cond : PhaseTransition) where
  -- The query answered, and the condition is met.
  abbrev pub holds : Tick → Bool
  holds t = elim t.value [ none ↦ false | some v ↦ met v cond.operator cond.threshold ]

  -- `time.Since(condHeldSince) >= cond.Window`
  abbrev pub long_enough : ℕ → Tick → Bool
  long_enough start t = lez cond.window (sub_ℕ t.now start)

  -- The ticks from condHeldSince on, none where condHeld is false: whether advancePhase is called.
  unfoldable pub watch_phase : List Tick → Option ℕ → Bool
  unfolding met
  watch_phase [] held = false
  watch_phase (t ∷ ts) none =
      let rest = watch_phase ts none in
      let held = watch_phase ts (some t.now) in if holds t then held else rest
  watch_phase (t ∷ ts) (some start) =
      let rest = watch_phase ts none in
      let held = watch_phase ts (some start) in
      if holds t then (if long_enough start t then true else held) else rest

  -- The condition held at some ticks in a row, the last of them long enough after the start.
  abbrev pub HeldFrom : ℕ → List Tick → Type 0
  HeldFrom start ts =
      (row : List Tick) × (last : Tick) × (rest : List Tick) × (ts ≡ row ++ last ∷ rest)
      × All (λ t. holds t ≡ true) row
      × (holds last ≡ true)
      × (long_enough start last ≡ true)

  abbrev pub Held : List Tick → Type 0
  Held ts =
      (before : List Tick) × (first : Tick) × (rest : List Tick) × (ts ≡ before ++ first ∷ rest)
      × (holds first ≡ true)
      × HeldFrom first.now rest

  later : (t : Tick) (ts : List Tick) → Held ts → Held (t ∷ ts)
  later t ts (before, first, rest, e, h, held) =
      (t ∷ before, first, rest, ap (λ l. t ∷ l) e, h, held)

  longer :
      (start : ℕ) (t : Tick) (ts : List Tick)
      → holds t ≡ true
      → HeldFrom start ts
      → HeldFrom start (t ∷ ts)
  longer start t ts h (row, last, rest, e, hs, h', held) =
      (t ∷ row, last, rest, ap (λ l. t ∷ l) e, (h, hs), h', held)

  watched :
      (ts : List Tick)
      → ((watch_phase ts none ≡ true) → Held ts)
        × ((start : ℕ) → watch_phase ts (some start) ≡ true → HeldFrom start ts ⊎ Held ts)
  unfolding watch_phase
  watched [] = (λ h. cc, λ start h. cc)
  watched (t ∷ ts) =
      let (fresh, running) = watched ts in
      (
        λ h. elim (Bool-cases (holds t)) [
          | inl m ↦
              let h' = rw (watch_phase, m) at h in
              elim (running t.now h') [
                | inl held ↦ ([], t, ts, refl, m, held)
                | inr held ↦ later t ts held
              ]
          | inr m ↦ let h' = rw (watch_phase, m) at h in later t ts (fresh h')
        ],
        λ start h. elim (Bool-cases (holds t)) [
          | inl m ↦ elim (Bool-cases (long_enough start t)) [
            | inl l ↦ inl ([], t, ts, refl, tt, m, l)
            | inr l ↦
                let h' = rw (watch_phase, m, l) at h in
                elim (running start h') [
                  | inl held ↦ inl (longer start t ts m held)
                  | inr held ↦ inr (later t ts held)
                ]
          ]
          | inr m ↦ let h' = rw (watch_phase, m) at h in inr (later t ts (fresh h'))
        ],
      )

  -- The watcher advances the phase only after the condition held at ticks in a row, without a failed
  -- query among them, of which the last is at least the window after the first.
  pub watch_phase-Held : (ts : List Tick) → watch_phase ts none ≡ true → Held ts
  watch_phase-Held ts h = (watched ts).0 h
