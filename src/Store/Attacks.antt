-- ===== src/Store/Attacks.antt =====
-- internal/store/workload_repo.go and trace_repo.go: the tables of attacks, of their results and of trace
-- anchors, with the columns of attacks as the migrations of internal/db/migrations.go leave them. The
-- JSON of the headers and the order of texts are parameters; the foreign keys of an attack are one
-- parameter, and other database errors are not modelled.
pub mod Columns
use manteion_go.Base.{
  ℕ, String, ◌==◌, Bool, true, false, not, ◌&&◌, ◌||◌, Option, none, some, List, [], ◌∷◌, ◌++◌,
  Check, new, leb, has_text, if◌then◌else◌,
}
use manteion_go.Base.Int.{ℤ, pos}
use manteion_go.Base.Float.{zero_float}
use manteion_go.Base.Result.{Result, ok, err, ◌>>=◌}
use manteion_go.Model.Attack.{Attack, AttackResult, validate_attack, validate_attack_result}
use manteion_go.Model.Trace.{TraceAnchor, validate_trace_anchor}
use manteion_go.Store.Rules.{null_string, from_null_string, not_found}
use manteion_go.Store.Tables.{find_key, has_key, select, order_by, scan_all}

abbrev pub Headers : Type 0
Headers = List (String × String)

pub record HeaderCodec : Type 0 where
  pub headers_json : Headers → String
  pub read_headers : String → Option Headers

pub record AttackRow : Type 0 where
  pub id : String
  pub experiment_run_id : Option String
  pub policy_rule_id : Option String
  pub service : String
  pub target_url : String
  pub target_method : String
  pub target_headers : String
  pub rate : ℤ
  pub duration_ms : ℤ
  pub dedup_bypass : Option String
  pub meta_trace_id : Option String
  pub zeus_attack_id : Option String
  pub created_at : ℕ
  pub completed_at : Option ℕ

pub record AttackTables : Type 0 where
  pub attacks : List AttackRow
  pub results : List AttackResult
  pub anchors : List TraceAnchor

abbrev pub attack_key : AttackRow → String
attack_key r = r.id

-- The columns of attacks in the initial schema.
abbrev pub initial_attack_columns : List String
initial_attack_columns =
    "id" ∷ "workload_id" ∷ "experiment_run_id" ∷ "policy_rule_id" ∷ "service" ∷ "role"
    ∷ "target_url" ∷ "target_method" ∷ "target_headers" ∷ "rate" ∷ "duration_ms" ∷ "dedup_bypass"
    ∷ "meta_trace_id" ∷ "status" ∷ "started_at" ∷ "completed_at" ∷ "created_at" ∷ []

-- The columns that migration 13 drops and adds.
abbrev pub dropped_attack_columns : List String
dropped_attack_columns = "workload_id" ∷ "auto_rule_id" ∷ "role" ∷ "status" ∷ "started_at" ∷ []

abbrev pub added_attack_columns : List String
added_attack_columns = "zeus_attack_id" ∷ []

abbrev pub drop_columns : List String → List String → List String
drop_columns dropped [] = []
drop_columns dropped (c ∷ cs) =
    let rest = drop_columns dropped cs in if has_text c dropped then rest else c ∷ rest

abbrev pub migrated_attack_columns : List String
migrated_attack_columns =
    drop_columns dropped_attack_columns initial_attack_columns ++ added_attack_columns

-- The columns that CreateAttack inserts.
abbrev pub inserted_attack_columns : List String
inserted_attack_columns =
    "id" ∷ "experiment_run_id" ∷ "policy_rule_id" ∷ "service" ∷ "target_url" ∷ "target_method"
    ∷ "target_headers" ∷ "rate" ∷ "duration_ms" ∷ "dedup_bypass" ∷ "meta_trace_id"
    ∷ "zeus_attack_id" ∷ "status" ∷ "created_at" ∷ "completed_at" ∷ []

abbrev pub includes : List String → List String → Bool
includes columns [] = true
includes columns (c ∷ cs) = has_text c columns && includes columns cs

module _ (codec : HeaderCodec) where
  abbrev pub attack_row : Attack → AttackRow
  attack_row a = record {
    id = a.id;
    experiment_run_id = null_string a.experiment_run_id;
    policy_rule_id = null_string a.policy_rule_id;
    service = a.service;
    target_url = a.target_url;
    target_method = a.target_method;
    target_headers = codec.headers_json a.target_headers;
    rate = a.rate;
    duration_ms = a.duration_ms;
    dedup_bypass = null_string a.dedup_bypass;
    meta_trace_id = null_string a.meta_trace_id;
    zeus_attack_id = null_string a.zeus_attack_id;
    created_at = a.created_at;
    completed_at = a.completed_at;
  }

  -- The fields of an attack's result are not read.
  abbrev pub read_attack : AttackRow → Headers → Attack
  read_attack r headers = record {
    id = r.id;
    experiment_run_id = from_null_string r.experiment_run_id;
    policy_rule_id = from_null_string r.policy_rule_id;
    service = r.service;
    target_url = r.target_url;
    target_method = r.target_method;
    target_headers = headers;
    rate = r.rate;
    duration_ms = r.duration_ms;
    dedup_bypass = from_null_string r.dedup_bypass;
    meta_trace_id = from_null_string r.meta_trace_id;
    zeus_attack_id = from_null_string r.zeus_attack_id;
    latency_p50_us = pos 0;
    latency_p90_us = pos 0;
    latency_p95_us = pos 0;
    latency_p99_us = pos 0;
    total_requests = 0;
    success_rate = zero_float;
    status_codes = [];
    errors = [];
    created_at = r.created_at;
    completed_at = r.completed_at;
  }

  unfoldable pub scan_attack : AttackRow → Result Attack
  scan_attack r = elim (codec.read_headers r.target_headers) [
    | none ↦ err (new "unmarshal target_headers: %w")
    | some headers ↦ ok (read_attack r headers)
  ]

  -- `columns` are those of the table; an insert into a column that is not there fails.
  unfoldable pub create_attack :
      List String → (AttackRow → Bool) → Attack → AttackTables → Check × AttackTables
  unfolding find_key
  create_attack columns keyed a t = elim (validate_attack a) [
    | some cause ↦ (some cause, t)
    | none ↦
        if not (includes columns inserted_attack_columns)
          || has_key attack_key a.id t.attacks
          || not (keyed (attack_row a))
        then (some (new "insert attack: %w"), t)
        else (none, record t { attacks = attack_row a ∷ t.attacks })
  ]

  unfoldable pub get_attack : String → AttackTables → Result Attack
  unfolding find_key scan_attack
  get_attack id t = elim (find_key attack_key id t.attacks) [
    | none ↦ err not_found
    | some r ↦ scan_attack r
  ]

  abbrev pub attack_older : AttackRow → AttackRow → Bool
  attack_older a b = leb a.created_at b.created_at

  abbrev pub is_attack_of : String → AttackRow → Bool
  is_attack_of run r = elim r.experiment_run_id [ none ↦ false | some id ↦ id == run ]

  unfoldable pub list_attacks_by_run : String → AttackTables → Result (List Attack)
  unfolding select order_by scan_all scan_attack
  list_attacks_by_run run t =
      scan_all scan_attack (order_by attack_older (select (is_attack_of run) t.attacks))

-- The key of a result is its attack, which must be there.
abbrev pub result_key : AttackResult → String
result_key r = r.attack_id

unfoldable pub create_attack_result : AttackResult → AttackTables → Check × AttackTables
unfolding find_key
create_attack_result r t = elim (validate_attack_result r) [
  | some cause ↦ (some cause, t)
  | none ↦
      if has_key result_key r.attack_id t.results || not (has_key attack_key r.attack_id t.attacks)
      then (some (new "insert attack_result: %w"), t)
      else (none, record t { results = r ∷ t.results })
]

abbrev pub anchor_key : TraceAnchor → String
anchor_key a = a.id

-- `has_run` tells whether the anchor's run is there.
unfoldable pub create_anchor : (String → Bool) → TraceAnchor → AttackTables → Check × AttackTables
unfolding find_key
create_anchor has_run a t = elim (validate_trace_anchor a) [
  | some cause ↦ (some cause, t)
  | none ↦
      if has_key anchor_key a.id t.anchors || not (has_run a.experiment_run_id)
      then (some (new "insert trace_anchor: %w"), t)
      else (none, record t { anchors = a ∷ t.anchors })
]

module _ (text_le : String → String → Bool) where
  -- `ORDER BY service, backend`
  abbrev pub by_backend : TraceAnchor → TraceAnchor → Bool
  by_backend a b =
      text_le a.service b.service
      && (not (text_le b.service a.service) || text_le a.backend b.backend)

  unfoldable pub list_by_run : String → AttackTables → List TraceAnchor
  unfolding select order_by
  list_by_run run t = order_by by_backend (select (λ a. a.experiment_run_id == run) t.anchors)
