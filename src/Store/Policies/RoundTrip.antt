-- ===== src/Store/Policies/RoundTrip.antt =====
-- internal/store/policy_repo.go: what Get and ListEnabled read after a create and a change.
use manteion_go.Base.{
  ◌≡◌, refl, sym, ap, ◌∙◌, inl, inr, String, Bool, true, false, none, some, List, ◌∷◌, arith,
  Bool-cases, Option-cases, text_self, Check,
}
use manteion_go.Base.Result.{ok, Result, ◌>>=◌}
use manteion_go.Model.Policy.{PolicyRule, validate_policy_rule}
use manteion_go.Store.Tables.{find_key, has_key, select, order_by, scan_all}
use manteion_go.Store.Tables.Laws.{find-update_key, affected_there}
use manteion_go.Store.Tables.Orders.{select-order_by, scan_all-select}
use manteion_go.Store.Policies.{
  PolicyCodec, PolicyRow, policy_key, policy_row, scan_policy, create, get, set_enabled, list,
  list_enabled, policy_older,
}

-- Reading the two columns gives what was written.
abbrev pub RoundTrips : PolicyCodec → PolicyRule → Type 0
RoundTrips codec r =
    (codec.read_condition (codec.condition_json r.condition) ≡ some r.condition)
    × (codec.read_action (codec.action_json r.action) ≡ some r.action)

abbrev pub with_enabled : Bool → PolicyRule → PolicyRule
with_enabled enabled r = record r { enabled = enabled }

older_total : (a b : PolicyRow) → policy_older a b ≡ false → policy_older b a ≡ true
older_total a b h = ground arith

older_trans :
    (a b c : PolicyRow)
    → policy_older a b ≡ true
    → policy_older b c ≡ true
    → policy_older a c ≡ true
older_trans a b c h k = ground arith

module _ (codec : PolicyCodec) where
  scan-policy_row :
      (r : PolicyRule) → RoundTrips codec r → scan_policy codec (policy_row codec r) ≡ ok r
  unfolding scan_policy
  scan-policy_row r (condition, action) = rw (condition, action) refl

  create_done :
      (r : PolicyRule) (rows rows' : List PolicyRow)
      → create codec r rows ≡ (none, rows')
      → (validate_policy_rule r ≡ none) × (rows' ≡ policy_row codec r ∷ rows)
  unfolding create
  create_done r rows rows' h = elim (Option-cases (validate_policy_rule r)) [
    | inr (cause, bad) ↦ let h' = rw (bad, create) at h in cc
    | inl good ↦ elim (Bool-cases (has_key policy_key r.id rows)) [
      | inl taken ↦ let h' = rw (good, create, taken) at h in cc
      | inr free ↦
          let h' = rw (good, create, free) at h in
          (good, ap (λ (x : Check × List PolicyRow). x.1) (sym h'))
    ]
  ]

  -- A policy that Create accepts is valid and is read back by Get as it was, if its condition and its
  -- action can be read back.
  pub create-get :
      (r : PolicyRule) (rows rows' : List PolicyRow)
      → create codec r rows ≡ (none, rows')
      → RoundTrips codec r
      → (validate_policy_rule r ≡ none) × (get codec r.id rows' ≡ ok r)
  unfolding get find_key
  create-get r rows rows' h back =
      let (valid, made) = create_done r rows rows' h in
      (valid, ap (λ x. get codec r.id x) made ∙ rw (text_self r.id, get) (scan-policy_row r back))

  scan_enabled :
      (row : PolicyRow) (enabled : Bool) (r : PolicyRule)
      → scan_policy codec row ≡ ok r
      → scan_policy codec (record row { enabled = enabled }) ≡ ok (with_enabled enabled r)
  unfolding scan_policy
  scan_enabled row enabled r h = elim (Option-cases (codec.read_condition row.condition)) [
    | inl bad ↦ let h' = rw (bad) at h in cc
    | inr (c, good) ↦ elim (Option-cases (codec.read_action row.action)) [
      | inl bad ↦ let h' = rw (good, bad) at h in cc
      | inr (a, fine) ↦
          let h' = rw (good, fine) at h in
          rw (good, fine)
            (ap (λ (x : Result PolicyRule). x >>= λ (y : PolicyRule). ok (with_enabled enabled y))
              h')
    ]
  ]

  -- A policy that can be read is enabled or disabled by SetEnabled, and is otherwise as before; of a
  -- policy that is not there it answers ErrNotFound.
  pub set_enabled-get :
      (id : String) (enabled : Bool) (rows : List PolicyRow) (r : PolicyRule)
      → get codec id rows ≡ ok r
      → ((set_enabled id enabled rows).0 ≡ none)
        × (get codec id (set_enabled id enabled rows).1 ≡ ok (with_enabled enabled r))
  unfolding get set_enabled
  set_enabled-get id enabled rows r h = elim (Option-cases (find_key policy_key id rows)) [
    | inl gone ↦ let h' = rw (gone, get) at h in cc
    | inr (row, there) ↦
        let h' = rw (there, get) at h in
        let found =
          find-update_key policy_key id (λ x. record x { enabled = enabled }) rows row (λ x. refl)
            there in
        (
          affected_there policy_key id rows row there,
          rw (found, get) (scan_enabled row enabled r h'),
        )
  ]

  row_enabled :
      (row : PolicyRow) (r : PolicyRule) → scan_policy codec row ≡ ok r → r.enabled ≡ row.enabled
  unfolding scan_policy
  row_enabled row r h = elim (Option-cases (codec.read_condition row.condition)) [
    | inl bad ↦ let h' = rw (bad) at h in cc
    | inr (c, good) ↦ elim (Option-cases (codec.read_action row.action)) [
      | inl bad ↦ let h' = rw (good, bad) at h in cc
      | inr (a, fine) ↦ let h' = rw (good, fine) at h in cc
    ]
  ]

  -- Where all policies can be read, ListEnabled shows those of List that are enabled, in its order.
  pub list_enabled-list :
      (rows : List PolicyRow) (rs : List PolicyRule)
      → list codec rows ≡ ok rs
      → list_enabled codec rows ≡ ok (select (λ r. r.enabled) rs)
  unfolding list list_enabled
  list_enabled-list rows rs h =
      ap (λ l. scan_all (scan_policy codec) l)
        (sym (select-order_by policy_older older_total older_trans (λ r. r.enabled) rows))
      ∙ scan_all-select (scan_policy codec) (λ r. r.enabled) (λ r. r.enabled) row_enabled
          (order_by policy_older rows) rs h
