-- ===== src/Orchestrator/Harvest/Retries.antt =====
-- internal/orchestrator/harvest.go: how often Zeus is asked, and how long is waited.
use mathlib.Core.Path.{subst}
use manteion_go.Base.{
  ℕ, zero, suc, ◌+◌, ◌≤◌, ◌<◌, ◌≡◌, refl, sym, ap, ◌∙◌, inl, inr, ◌⊎◌, Bool, List, [], ◌∷◌, Error,
  wrap, length, Bool-cases, arith,
}
use manteion_go.Orchestrator.Harvest.{
  AttackResultInfo, Fetch, ready, not_ready, failed, HttpAnswer, get_attack_result, Outcome, found,
  gave_up, refused, ended, Tries, stop, after_wait, backoff, try_fetch,
}

abbrev total : List ℕ → ℕ
total [] = 0
total (b ∷ bs) = b + total bs

Fetch-cases :
    (f : Fetch)
    → ((info : AttackResultInfo) × (f ≡ ready info))
      ⊎ ((f ≡ not_ready) ⊎ ((cause : Error) × (f ≡ failed cause)))
Fetch-cases (ready info) = inl (info, refl)
Fetch-cases not_ready = inr (inl refl)
Fetch-cases (failed cause) = inr (inr (cause, refl))

one_request : (i : ℕ) → i + 1 < 1 → ⊥
one_request i h = omega (arith, h)

none_less : (n : ℕ) → 0 < n → 0 + 1 ≡ suc n → ⊥
none_less n h e = omega (arith, h, e)

-- What the last of some requests, the first of them the `attempt`-th, tells of the outcome; every
-- request before it was answered with "not ready".
abbrev pub Explains : (ℕ → HttpAnswer) → ℕ → Outcome → Type 0
Explains fetch last (found info) = get_attack_result (fetch last) ≡ ready info
Explains fetch last gave_up = get_attack_result (fetch last) ≡ not_ready
Explains fetch last (refused cause) =
    (e : Error) × (get_attack_result (fetch last) ≡ failed e)
    × (cause ≡ wrap "get attack result: %w" e)
Explains fetch last ended = get_attack_result (fetch last) ≡ not_ready

module _ (fetch : ℕ → HttpAnswer) (done : ℕ → Bool) where
  -- The tries from an attempt on, with some waits left: the requests but the last were answered with
  -- "not ready", the last explains the outcome, and giving up takes all of them.
  abbrev pub Sound : ℕ → List ℕ → Tries → Type 0
  Sound attempt waits t =
      (0 < t.requests)
      × (t.requests ≤ suc (length waits))
      × (t.waited ≤ total waits)
      × ((i : ℕ) → i + 1 < t.requests → get_attack_result (fetch (attempt + i)) ≡ not_ready)
      × ((last : ℕ) → last + 1 ≡ t.requests → Explains fetch (attempt + last) t.outcome)
      × (t.outcome ≡ gave_up → t.requests ≡ suc (length waits))

  Sound-as :
      (attempt : ℕ) (waits : List ℕ) (t : Tries)
      → try_fetch fetch done attempt waits ≡ t
      → Sound attempt waits t
      → Sound attempt waits (try_fetch fetch done attempt waits)
  Sound-as attempt waits t e h = subst (Sound attempt waits) (sym e) h

  stop-Sound :
      (attempt : ℕ) (waits : List ℕ) (outcome : Outcome)
      → Explains fetch attempt outcome
      → (outcome ≡ gave_up → length waits ≡ 0)
      → Sound attempt waits (stop outcome)
  stop-Sound attempt waits outcome h all = (
    omega arith,
    omega arith,
    omega arith,
    λ i less. absurd (one_request i less),
    λ last one.
        let same : attempt ≡ attempt + last = omega (arith, one) in
        subst (λ n. Explains fetch n outcome) same h,
    λ e. omega (arith, all e),
  )

  not_ready_before :
      (attempt n : ℕ)
      → get_attack_result (fetch attempt) ≡ not_ready
      → ((i : ℕ) → i + 1 < n → get_attack_result (fetch (suc attempt + i)) ≡ not_ready)
      → (i : ℕ) → i + 1 < suc n
      → get_attack_result (fetch (attempt + i)) ≡ not_ready
  not_ready_before attempt n e before zero less =
      let same : attempt + 0 ≡ attempt = omega arith in
      ap (λ k. get_attack_result (fetch k)) same ∙ e
  not_ready_before attempt n e before (suc i) less =
      let same : attempt + suc i ≡ suc attempt + i = omega arith in
      ap (λ k. get_attack_result (fetch k)) same ∙ before i (omega (arith, less))

  last_one :
      (attempt n : ℕ) (outcome : Outcome)
      → 0 < n
      → ((last : ℕ) → last + 1 ≡ n → Explains fetch (suc attempt + last) outcome)
      → (last : ℕ) → last + 1 ≡ suc n
      → Explains fetch (attempt + last) outcome
  last_one attempt n outcome more tells zero one = absurd (none_less n more one)
  last_one attempt n outcome more tells (suc last) one =
      let same : suc attempt + last ≡ attempt + suc last = omega arith in
      subst (λ m. Explains fetch m outcome) same (tells last (omega (arith, one)))

  wait-Sound :
      (attempt b : ℕ) (bs : List ℕ) (t : Tries)
      → get_attack_result (fetch attempt) ≡ not_ready
      → Sound (suc attempt) bs t
      → Sound attempt (b ∷ bs) (after_wait b t)
  wait-Sound attempt b bs t e (some_request, few, short, before, last_tells, all) = (
    omega arith,
    omega (arith, few),
    omega (arith, short),
    not_ready_before attempt t.requests e before,
    last_one attempt t.requests t.outcome some_request last_tells,
    λ e. omega (arith, all e),
  )

  try_fetch-Sound :
      (attempt : ℕ) (waits : List ℕ) → Sound attempt waits (try_fetch fetch done attempt waits)
  unfolding try_fetch
  try_fetch-Sound attempt [] = elim (Fetch-cases (get_attack_result (fetch attempt))) [
    | inl (info, e) ↦
        Sound-as attempt [] (stop (found info)) (rw (try_fetch, e) refl)
          (stop-Sound attempt [] (found info) e (λ g. cc))
    | inr (inl e) ↦
        Sound-as attempt [] (stop gave_up) (rw (try_fetch, e) refl)
          (stop-Sound attempt [] gave_up e (λ g. refl))
    | inr (inr (cause, e)) ↦
        let outcome = refused (wrap "get attack result: %w" cause) in
        Sound-as attempt [] (stop outcome) (rw (try_fetch, e) refl)
          (stop-Sound attempt [] outcome (cause, e, refl) (λ g. cc))
  ]
  try_fetch-Sound attempt (b ∷ bs) = elim (Fetch-cases (get_attack_result (fetch attempt))) [
    | inl (info, e) ↦
        Sound-as attempt (b ∷ bs) (stop (found info)) (rw (try_fetch, e) refl)
          (stop-Sound attempt (b ∷ bs) (found info) e (λ g. cc))
    | inr (inl e) ↦ elim (Bool-cases (done attempt)) [
      | inl d ↦
          Sound-as attempt (b ∷ bs) (stop ended) (rw (try_fetch, e, d) refl)
            (stop-Sound attempt (b ∷ bs) ended e (λ g. cc))
      | inr d ↦
          let rest = try_fetch fetch done (suc attempt) bs in
          Sound-as attempt (b ∷ bs) (after_wait b rest) (rw (try_fetch, e, d) refl)
            (wait-Sound attempt b bs rest e (try_fetch-Sound (suc attempt) bs))
    ]
    | inr (inr (cause, e)) ↦
        let outcome = refused (wrap "get attack result: %w" cause) in
        Sound-as attempt (b ∷ bs) (stop outcome) (rw (try_fetch, e) refl)
          (stop-Sound attempt (b ∷ bs) outcome (cause, e, refl) (λ g. cc))
  ]

  -- An attack's result is asked for once, and again only after an answer that it is not ready, at most
  -- four times in all and with waits of at most seven seconds; the last answer tells the outcome, and
  -- giving up means that the fourth answer was that it is not ready.
  pub try_fetch_lem : Sound 0 backoff (try_fetch fetch done 0 backoff)
  try_fetch_lem = try_fetch-Sound 0 backoff
