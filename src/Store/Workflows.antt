-- ===== src/Store/Workflows.antt =====
-- internal/store/workflow_repo.go: the table of workflow definitions. Steps and thresholds are opaque
-- JSON. The JSON of the targets is a parameter, and so is what JSON the database takes; other database
-- errors are not modelled.
pub mod RoundTrip
pub mod Paging
use manteion_go.Base.{
  ℕ, zero, suc, ◌-◌, String, ◌==◌, Bool, true, false, not, ◌&&◌, ◌||◌, Option, none, some, List, [],
  ◌∷◌, Check, new, leb, ltb, eqb, length, is_nil, if◌then◌else◌,
}
use manteion_go.Base.Int.{ℤ, pos, ltz, lez, pos_part}
use manteion_go.Base.Float.{Float64}
use manteion_go.Base.Result.{Result, ok, err, ◌>>=◌}
use manteion_go.Model.Sdk.{Workflow, validate_workflow}
use manteion_go.Store.Rules.{null_string, from_null_string, not_found}
use manteion_go.Store.Tables.{
  find_key, has_key, update_key, delete_key, affected_or_not_found, order_by, scan_all,
}

-- json.Marshal and json.Unmarshal of the targets, and what the database takes as JSONB.
pub record TargetCodec : Type 0 where
  pub targets_json : List String → String
  pub read_targets : String → Option (List String)
  pub is_json : String → Bool

pub record WorkflowRow : Type 0 where
  pub id : String
  pub name : String
  pub description : Option String
  pub targets : String
  pub estimated_rps_per_vu : Float64
  pub steps : String
  pub thresholds : Option String
  pub created_at : ℕ
  pub updated_at : ℕ

abbrev pub workflow_key : WorkflowRow → String
workflow_key r = r.id

abbrev pub jsonb_bytes : String → String
jsonb_bytes raw = if raw == "" then "null" else raw

abbrev pub jsonb_bytes_or_null : String → Option String
jsonb_bytes_or_null raw = if raw == "" then none else some raw

-- The two JSON columns are accepted.
abbrev pub accepts : TargetCodec → WorkflowRow → Bool
accepts codec r =
    codec.is_json r.steps && elim r.thresholds [ none ↦ true | some t ↦ codec.is_json t ]

-- `if len(targetsRaw) > 0 { … }`
abbrev pub scan_targets : TargetCodec → String → Result (List String)
scan_targets codec raw =
    if raw == ""
    then ok []
    else elim (codec.read_targets raw) [ none ↦ err (new "decode targets: %w") | some ts ↦ ok ts ]

module _ (codec : TargetCodec) where
  abbrev pub workflow_row : Workflow → WorkflowRow
  workflow_row w = record {
    id = w.id;
    name = w.name;
    description = null_string w.description;
    targets = codec.targets_json w.targets;
    estimated_rps_per_vu = w.estimated_rps_per_vu;
    steps = jsonb_bytes w.steps;
    thresholds = jsonb_bytes_or_null w.thresholds;
    created_at = w.created_at;
    updated_at = w.created_at;
  }

  -- scanWorkflowRow, and scanWorkflowRowWithTotal but for the total.
  unfoldable pub scan_workflow : WorkflowRow → Result Workflow
  scan_workflow row = scan_targets codec row.targets >>= λ targets. ok (record {
    id = row.id;
    name = row.name;
    description = from_null_string row.description;
    targets = targets;
    estimated_rps_per_vu = row.estimated_rps_per_vu;
    steps = row.steps;
    thresholds = from_null_string row.thresholds;
    created_at = row.created_at;
    updated_at = row.updated_at;
  })

  unfoldable pub create : Workflow → List WorkflowRow → Check × List WorkflowRow
  unfolding find_key
  create w rows = elim (validate_workflow w) [
    | some cause ↦ (some cause, rows)
    | none ↦
        if has_key workflow_key w.id rows || not (accepts codec (workflow_row w))
        then (some (new "insert workflow: %w"), rows)
        else (none, workflow_row w ∷ rows)
  ]

  unfoldable pub get : String → List WorkflowRow → Result Workflow
  unfolding find_key scan_workflow
  get id rows = elim (find_key workflow_key id rows) [
    | none ↦ err not_found
    | some row ↦ scan_workflow row
  ]

  -- The assignments of Update, which keep the time of creation.
  abbrev pub set_workflow : Workflow → ℕ → WorkflowRow → WorkflowRow
  set_workflow w now old = record (workflow_row w) {
    id = old.id;
    created_at = old.created_at;
    updated_at = now;
  }

  unfoldable pub update : Workflow → ℕ → List WorkflowRow → Check × List WorkflowRow
  unfolding find_key update_key
  update w now rows =
      if w.id == ""
      then (some (new "update workflow: id required"), rows)
      else if w.steps == ""
      then (some (new "update workflow: steps required"), rows)
      else if is_nil w.targets
      then (some (new "update workflow: targets required"), rows)
      else elim (find_key workflow_key w.id rows) [
        | none ↦ (some not_found, rows)
        | some old ↦
            if not (accepts codec (set_workflow w now old))
            then (some (new "update workflow: %w"), rows)
            else (none, update_key workflow_key w.id (set_workflow w now) rows)
      ]

unfoldable pub delete : String → List WorkflowRow → Check × List WorkflowRow
unfolding find_key delete_key
delete id rows = (affected_or_not_found workflow_key id rows, delete_key workflow_key id rows)

-- `LIMIT $1 OFFSET $2`
unfoldable pub drop_rows {ℓ} : {A : Type ℓ} → ℕ → List A → List A
drop_rows zero xs = xs
drop_rows (suc n) [] = []
drop_rows (suc n) (x ∷ xs) = drop_rows n xs

unfoldable pub take_rows {ℓ} : {A : Type ℓ} → ℕ → List A → List A
take_rows zero xs = []
take_rows (suc n) [] = []
take_rows (suc n) (x ∷ xs) = x ∷ take_rows n xs

-- The limit and the offset of List, as it bounds them.
abbrev pub page_limit : ℤ → ℕ
page_limit limit =
    if lez limit (pos 0) then 20 else if ltz (pos 200) limit then 200 else pos_part limit

abbrev pub page_offset : ℤ → ℕ
page_offset offset = if ltz offset (pos 0) then 0 else pos_part offset

module _ (codec : TargetCodec) (text_le : String → String → Bool) where
  -- `ORDER BY created_at DESC, id`
  abbrev pub newest_first : WorkflowRow → WorkflowRow → Bool
  newest_first a b =
      ltb b.created_at a.created_at || (eqb a.created_at b.created_at && text_le a.id b.id)

  -- The rows of the page, and the total that the last of them carries; 0 if there is none.
  unfoldable pub list_page : ℤ → ℤ → List WorkflowRow → Result (List Workflow × ℕ)
  unfolding order_by drop_rows take_rows scan_all scan_workflow
  list_page limit offset rows =
      let page =
        take_rows (page_limit limit)
          (drop_rows (page_offset offset) (order_by newest_first rows)) in
      scan_all (scan_workflow codec) page >>= λ ws. ok (ws, if is_nil page then 0 else length rows)
