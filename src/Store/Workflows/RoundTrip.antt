-- ===== src/Store/Workflows/RoundTrip.antt =====
-- internal/store/workflow_repo.go: what Get reads after Create and after Update.
use manteion_go.Base.{
  ℕ, ◌≡◌, refl, sym, ap, ◌∙◌, inl, inr, String, ◌==◌, false, not, ◌||◌, none, some, List, [], ◌∷◌,
  Bool-cases, Option-cases, text_self, Check, chain_passed, reject, is_nil,
}
use manteion_go.Base.Result.{ok}
use manteion_go.Model.Fault.{is_null_json}
use manteion_go.Model.Sdk.{Workflow, validate_workflow}
use manteion_go.Store.Rules.RoundTrip.{string_back}
use manteion_go.Store.Tables.{find_key, has_key, update_key}
use manteion_go.Store.Tables.Laws.{find-update_key, find_key_same}
use manteion_go.Store.Workflows.{
  TargetCodec, WorkflowRow, workflow_key, jsonb_bytes, accepts, scan_targets, workflow_row,
  scan_workflow, create, get, set_workflow, update,
}

-- Reading the targets gives what was written.
abbrev pub RoundTrips : TargetCodec → Workflow → Type 0
RoundTrips codec w = scan_targets codec (codec.targets_json w.targets) ≡ ok w.targets

steps_kept : (steps : String) → (steps == "") ≡ false → jsonb_bytes steps ≡ steps
steps_kept steps e = rw (e) refl

steps_there : (w : Workflow) → validate_workflow w ≡ none → (w.steps == "") ≡ false
unfolding validate_workflow
steps_there w h = elim (Bool-cases (w.steps == "")) [
  | inr e ↦ e
  | inl e ↦
      let last =
        (chain_passed
          (reject (w.id == "") _ ∷ reject (w.name == "") _ ∷ reject (is_nil w.targets) _ ∷ [])
          (reject (is_null_json w.steps) _) h).1 in
      let last' = rw (e) at last in cc
]

module _ (codec : TargetCodec) where
  scan-workflow_row :
      (w : Workflow)
      → (w.steps == "") ≡ false
      → RoundTrips codec w
      → scan_workflow codec (workflow_row codec w) ≡ ok (record w { updated_at = w.created_at })
  unfolding scan_workflow
  scan-workflow_row w steps back =
      rw (back, string_back w.description, string_back w.thresholds, steps_kept w.steps steps) refl

  -- A workflow that Create accepts is read back by Get as it was, with the time of its creation for
  -- that of its update, if its targets can be read back.
  pub create-get :
      (w : Workflow) (rows rows' : List WorkflowRow)
      → create codec w rows ≡ (none, rows')
      → RoundTrips codec w
      → get codec w.id rows' ≡ ok (record w { updated_at = w.created_at })
  unfolding create get find_key
  create-get w rows rows' h back = elim (Option-cases (validate_workflow w)) [
    | inr (cause, bad) ↦ let h' = rw (bad, create) at h in cc
    | inl good ↦
        elim (Bool-cases
          (has_key workflow_key w.id rows || not (accepts codec (workflow_row codec w)))) [
            | inl taken ↦ let h' = rw (good, create, taken) at h in cc
            | inr free ↦
                let h' = rw (good, create, free) at h in
                let made : rows' ≡ workflow_row codec w ∷ rows =
                  ap (λ (x : Check × List WorkflowRow). x.1) (sym h') in
                ap (λ x. get codec w.id x) made
                ∙ rw (text_self w.id, get) (scan-workflow_row w (steps_there w good) back)
          ]
  ]

  scan-set_workflow :
      (w : Workflow) (now : ℕ) (old : WorkflowRow)
      → (w.steps == "") ≡ false
      → RoundTrips codec w
      → old.id ≡ w.id
      → scan_workflow codec (set_workflow codec w now old)
        ≡ ok (record w { created_at = old.created_at; updated_at = now })
  unfolding scan_workflow
  scan-set_workflow w now old steps back same =
      rw (back, string_back w.description, string_back w.thresholds, steps_kept w.steps steps, same)
        refl

  -- A workflow that Update accepts was there, and is read back by Get as it was given, its name and
  -- its description included though they may be empty, with the time of creation that it had, if its
  -- targets can be read back.
  pub update-get :
      (w : Workflow) (now : ℕ) (rows rows' : List WorkflowRow)
      → update codec w now rows ≡ (none, rows')
      → RoundTrips codec w
      → (old : WorkflowRow) × (find_key workflow_key w.id rows ≡ some old)
        × (get codec w.id rows' ≡ ok (record w { created_at = old.created_at; updated_at = now }))
  unfolding update get
  update-get w now rows rows' h back = elim (Bool-cases (w.id == "")) [
    | inl e ↦ let h' = rw (update, e) at h in cc
    | inr i ↦ elim (Bool-cases (w.steps == "")) [
      | inl e ↦ let h' = rw (update, i, e) at h in cc
      | inr s ↦ elim (Bool-cases (is_nil w.targets)) [
        | inl e ↦ let h' = rw (update, i, s, e) at h in cc
        | inr t ↦ elim (Option-cases (find_key workflow_key w.id rows)) [
          | inl gone ↦ let h' = rw (update, i, s, t, gone) at h in cc
          | inr (old, there) ↦
              elim (Bool-cases (not (accepts codec (set_workflow codec w now old)))) [
                | inl bad ↦ let h' = rw (update, i, s, t, there, bad) at h in cc
                | inr fine ↦
                    let h' = rw (update, i, s, t, there, fine) at h in
                    let made : rows'
                        ≡ update_key workflow_key w.id (set_workflow codec w now) rows =
                      ap (λ (x : Check × List WorkflowRow). x.1) (sym h') in
                    let found =
                      find-update_key workflow_key w.id (set_workflow codec w now) rows old
                        (λ r. refl) there in
                    let same = find_key_same workflow_key w.id rows old there in
                    (
                      old,
                      there,
                      ap (λ x. get codec w.id x) made
                          ∙ rw (found, get) (scan-set_workflow w now old s back same),
                    )
              ]
        ]
      ]
    ]
  ]
