-- ===== src/Store/Sdk/Liveness.antt =====
-- internal/store/sdk_repo.go and internal/atrocontrol/resolver.go: how long an instance that registered
-- is a target of the controller.
use manteion_go.Base.{
  ℕ, ◌+◌, ◌*◌, ◌≡◌, refl, sym, ap, ◌∙◌, ◌⊎◌, inl, inr, String, ◌==◌, Bool, true, false, Option,
  none, some, List, [], ◌∷◌, ◌++◌, Bool-cases, Option-cases, text_self, leb, arith, Check,
}
use manteion_go.Base.Int.{ℤ, pos, negsuc, pos_part, neg_part, lez, ◌<ℤ◌, ◌≤ℤ◌}
use manteion_go.Base.Result.{ok}
use manteion_go.Model.Sdk.{SdkInstance, validate_instance}
use manteion_go.Control.{filter_alive_or_suspect}
use manteion_go.Store.Sdk.{
  past, status_at, read_row, find_instance, has_instance, update_instances, with_default_interval,
  registered, register, remove_instances, get, purge_dead,
}

find_instance-update_instances :
    (id : String) (f : SdkInstance → SdkInstance) (is : List SdkInstance) (old : SdkInstance)
    → ((i : SdkInstance) → (i.id == id) ≡ true → (f i).id ≡ id)
    → find_instance id is ≡ some old
    → find_instance id (update_instances id f is) ≡ some (f old)
unfolding find_instance update_instances
find_instance-update_instances id f [] old keep h = cc
find_instance-update_instances id f (i ∷ is) old keep h = elim (Bool-cases (i.id == id)) [
  | inl e ↦
      let kept : ((f i).id == id) ≡ true = ap (λ x. x == id) (keep i e) ∙ text_self id in
      let h' = rw (e) at h in let same : i ≡ old = cc in rw (e, kept) (ap (λ x. some (f x)) same)
  | inr e ↦ let h' = rw (e) at h in rw (e, e) (find_instance-update_instances id f is old keep h')
]

find_instance-append :
    (id : String) (is : List SdkInstance) (i : SdkInstance)
    → find_instance id is ≡ none
    → i.id ≡ id
    → find_instance id (is ++ i ∷ []) ≡ some i
unfolding find_instance
find_instance-append id [] i h same = rw (same, text_self id) refl
find_instance-append id (x ∷ is) i h same = elim (Bool-cases (x.id == id)) [
  | inl e ↦ let h' = rw (e) at h in cc
  | inr e ↦ let h' = rw (e) at h in rw (e) (find_instance-append id is i h' same)
]

-- What an accepted registration leaves under its ID.
find_instance-register :
    (inst : SdkInstance) (now : ℕ) (is is' : List SdkInstance)
    → register inst now is ≡ (none, is')
    → find_instance inst.id is' ≡ some (registered now inst)
unfolding register
find_instance-register inst now is is' h = elim (Option-cases (validate_instance inst)) [
  | inr (e, bad) ↦ let h' = rw (bad, register) at h in cc
  | inl good ↦ elim (Option-cases (find_instance inst.id is)) [
    | inl fresh ↦
        let h' = rw (good, register, has_instance, fresh) at h in
        let look : List SdkInstance → Option SdkInstance = find_instance inst.id in
        ap (λ (x : Check × List SdkInstance). look x.1) (sym h')
        ∙ find_instance-append inst.id is (registered now inst) fresh refl
    | inr (old, there) ↦
        let h' = rw (good, register, has_instance, there) at h in
        let look : List SdkInstance → Option SdkInstance = find_instance inst.id in
        ap (λ (x : Check × List SdkInstance). look x.1) (sym h')
        ∙ find_instance-update_instances inst.id (λ x. registered now inst) is old (λ i e. refl)
            there
  ]
]

interval-positive : (ms : ℤ) → pos 0 <ℤ with_default_interval ms
interval-positive ms = elim (Bool-cases (lez ms (pos 0))) [
  | inl e ↦ rw (e) (omega arith)
  | inr e ↦ rw (e) (ground arith)
]

late :
    (t : ℕ) (i : SdkInstance)
    → neg_part i.poll_interval_ms ≡ 0
    → (past 5 (pos 0) t i ≡ true) ⊎ (past 2 (pos 0) t i ≡ true)
    → leb t (i.last_poll_at + 2000 * pos_part i.poll_interval_ms) ≡ false
late t i no_debt (inl h) = ground arith
late t i no_debt (inr h) = ground arith

in_time :
    (t : ℕ) (i : SdkInstance)
    → neg_part i.poll_interval_ms ≡ 0
    → past 2 (pos 0) t i ≡ false
    → leb t (i.last_poll_at + 2000 * pos_part i.poll_interval_ms) ≡ true
in_time t i no_debt h = ground arith

positive-parts : (z : ℤ) → pos 0 <ℤ z → neg_part z ≡ 0
positive-parts (pos n) h = refl
positive-parts (negsuc n) h = absurd (omega (arith, h))

alive-window :
    (t : ℕ) (i : SdkInstance)
    → pos 0 <ℤ i.poll_interval_ms
    → filter_alive_or_suspect (read_row t i)
      ≡ leb t (i.last_poll_at + 2000 * pos_part i.poll_interval_ms)
unfolding status_at
alive-window t i positive =
    let no_debt = positive-parts i.poll_interval_ms positive in
    elim (Bool-cases (past 5 (pos 0) t i)) [
      | inl dead ↦ rw (dead, status_at) (sym (late t i no_debt (inl dead)))
      | inr near ↦ elim (Bool-cases (past 2 (pos 0) t i)) [
        | inl stale ↦ rw (near, status_at, stale) (sym (late t i no_debt (inr stale)))
        | inr alive ↦ rw (near, status_at, alive) (sym (in_time t i no_debt alive))
      ]
    ]

-- An instance that registered is read back, under any later use of the table without a change, and
-- the controller's filter takes it as a target exactly until two of its poll intervals have passed.
pub register-get :
    (inst : SdkInstance) (now : ℕ) (is is' : List SdkInstance)
    → register inst now is ≡ (none, is')
    → (t : ℕ)
    → (get inst.id t is' ≡ ok (read_row t (registered now inst)))
      × (filter_alive_or_suspect (read_row t (registered now inst))
          ≡ leb t (now + 2000 * pos_part (with_default_interval inst.poll_interval_ms)))
unfolding get
register-get inst now is is' h t = (
  rw (find_instance-register inst now is is' h, get) refl,
  alive-window t (registered now inst) (interval-positive inst.poll_interval_ms),
)

find_instance-remove_instances :
    (gone : SdkInstance → Bool) (id : String) (is : List SdkInstance) (i : SdkInstance)
    → find_instance id is ≡ some i
    → gone i ≡ false
    → find_instance id (remove_instances gone is) ≡ some i
unfolding find_instance remove_instances
find_instance-remove_instances gone id [] i h stays = cc
find_instance-remove_instances gone id (x ∷ is) i h stays = elim (Bool-cases (x.id == id)) [
  | inl e ↦
      let h' = rw (e) at h in
      let same : x ≡ i = cc in
      let stays' : gone x ≡ false = ap gone same ∙ stays in rw (stays', e) h'
  | inr e ↦
      let h' = rw (e) at h in
      let rest = find_instance-remove_instances gone id is i h' stays in
      elim (Bool-cases (gone x)) [ inl g ↦ rw (g) rest | inr g ↦ rw (g, e) rest ]
]

-- PurgeDead, with a grace period that is not negative, removes no instance that reads as alive or
-- stale.
pub purge_dead-keeps :
    (id : String) (now : ℕ) (grace : ℤ) (is : List SdkInstance) (i : SdkInstance)
    → find_instance id is ≡ some i
    → pos 0 ≤ℤ grace
    → (status_at now i == "dead") ≡ false
    → find_instance id (purge_dead grace now is) ≡ some i
unfolding purge_dead status_at
purge_dead-keeps id now grace is i h patient lives =
    find_instance-remove_instances (past 5 grace now) id is i h
      (elim (Bool-cases (past 5 (pos 0) now i)) [
        | inl dead ↦ let lives' = rw (dead, status_at) at lives in cc
        | inr near ↦ near_enough near
      ])
  where
    no_debt : (g : ℤ) → pos 0 ≤ℤ g → neg_part g ≡ 0
    no_debt (pos n) p = refl
    no_debt (negsuc n) p = absurd (omega (arith, p))

    near_enough : past 5 (pos 0) now i ≡ false → past 5 grace now i ≡ false
    near_enough near = ground (arith, no_debt grace patient)
