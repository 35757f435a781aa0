-- ===== src/Store/Rules.antt =====
-- internal/store/rule_repo.go and helpers.go: the table of rules and the version that each change of
-- it bumps, in one transaction. The JSON of the labels and the constraints of the table other than
-- its key are parameters; other database errors are not modelled.
pub mod RoundTrip
pub mod Versions
use manteion_go.Base.{
  ℕ, suc, String, ◌==◌, Bool, true, false, not, ◌&&◌, ◌||◌, Option, none, some, List, [], ◌∷◌,
  Error, new, Check, if◌then◌else◌, length, leb,
}
use manteion_go.Base.Int.{ℤ, ltz, lez}
use manteion_go.Base.Result.{Result, ok, err, ◌>>=◌}
use manteion_go.Model.Rule.{Rule, ActionType, CacheBoxRuleConfig, validate_rule}

-- sql.NullString is an Option.
abbrev pub null_string : String → Option String
null_string s = if s == "" then none else some s

abbrev pub from_null_string : Option String → String
from_null_string none = ""
from_null_string (some s) = s

abbrev pub Labels : Type 0
Labels = List (String × String)

-- jsonbMarshal and jsonbScan of the labels, through the column.
pub record Codec : Type 0 where
  pub encode : Labels → String
  pub decode : String → Option Labels

pub record RuleRow : Type 0 where
  pub id : String
  pub name : String
  pub service : String
  pub enabled : Bool
  pub priority : ℤ
  pub injection_point : Option String
  pub match_labels : Option String
  pub action_type : ActionType
  pub fault_spec_id : Option String
  pub fault_composition_id : Option String
  pub cachebox_mode : Option String
  pub cachebox_key_strategy : Option String
  pub mode : String
  pub start_policy : String
  pub created_at : ℕ
  pub updated_at : ℕ
  pub match_expr : String

abbrev pub null_cache_box_mode : Option CacheBoxRuleConfig → Option String
null_cache_box_mode none = none
null_cache_box_mode (some c) = some c.mode

abbrev pub null_cache_box_key_strategy : Option CacheBoxRuleConfig → Option String
null_cache_box_key_strategy none = none
null_cache_box_key_strategy (some c) = some c.key_strategy

-- The configuration that populateRuleAction reads.
abbrev pub scan_cache_box : Option String → Option String → Option CacheBoxRuleConfig
scan_cache_box none key = none
scan_cache_box (some mode) key = some (record { mode = mode; key_strategy = from_null_string key })

pub record RuleTable : Type 0 where
  pub rows : List RuleRow
  pub version : ℕ

abbrev pub not_found : Error
not_found = new "store: not found"

unfoldable pub find_row : String → List RuleRow → Option RuleRow
find_row id [] = none
find_row id (r ∷ rs) = let rest = find_row id rs in if r.id == id then some r else rest

abbrev pub has_row : String → List RuleRow → Bool
has_row id rs = elim (find_row id rs) [ none ↦ false | some _ ↦ true ]

unfoldable pub update_rows : String → (RuleRow → RuleRow) → List RuleRow → List RuleRow
update_rows id f [] = []
update_rows id f (r ∷ rs) = (if r.id == id then f r else r) ∷ update_rows id f rs

unfoldable pub delete_rows : String → List RuleRow → List RuleRow
delete_rows id [] = []
delete_rows id (r ∷ rs) = let rest = delete_rows id rs in if r.id == id then rest else r ∷ rest

-- `ORDER BY priority DESC`, and then by the time of creation where `by_creation` is set.
abbrev pub precedes : Bool → RuleRow → RuleRow → Bool
precedes by_creation a b =
    ltz b.priority a.priority
    || (lez b.priority a.priority && (not by_creation || leb a.created_at b.created_at))

unfoldable pub insert_row : Bool → RuleRow → List RuleRow → List RuleRow
insert_row by_creation r [] = r ∷ []
insert_row by_creation r (x ∷ xs) =
    let rest = insert_row by_creation r xs in
    if precedes by_creation r x then r ∷ x ∷ xs else x ∷ rest

unfoldable pub order_rows : Bool → List RuleRow → List RuleRow
unfolding insert_row
order_rows by_creation [] = []
order_rows by_creation (r ∷ rs) = insert_row by_creation r (order_rows by_creation rs)

-- `WHERE service = $1 AND enabled = true`
unfoldable pub select_service : String → List RuleRow → List RuleRow
select_service service [] = []
select_service service (r ∷ rs) =
    let rest = select_service service rs in
    if r.service == service && r.enabled then r ∷ rest else rest

module _ (codec : Codec) where
  -- The values of Create.
  abbrev pub to_row : Rule → RuleRow
  to_row r = record {
    id = r.id;
    name = r.name;
    service = r.service;
    enabled = r.enabled;
    priority = r.priority;
    injection_point = null_string r.match.injection_point;
    match_labels = some (codec.encode r.match.labels);
    action_type = r.action.type;
    fault_spec_id = null_string r.action.fault_spec_id;
    fault_composition_id = null_string r.action.fault_comp_id;
    cachebox_mode = null_cache_box_mode r.action.cache_box;
    cachebox_key_strategy = null_cache_box_key_strategy r.action.cache_box;
    mode = r.mode;
    start_policy = r.start_policy;
    created_at = r.created_at;
    updated_at = r.updated_at;
    match_expr = r.match_expr;
  }

  abbrev pub scan_labels : Option String → Result Labels
  scan_labels none = ok []
  scan_labels (some text) = elim (codec.decode text) [
    | some labels ↦ ok labels
    | none ↦ err (new "unmarshal match_labels: %w")
  ]

  abbrev pub scanned : RuleRow → Labels → Rule
  scanned row labels = record {
    id = row.id;
    name = row.name;
    service = row.service;
    enabled = row.enabled;
    priority = row.priority;
    match = record { injection_point = from_null_string row.injection_point; labels = labels };
    action = record {
      type = row.action_type;
      fault_spec_id = from_null_string row.fault_spec_id;
      fault_comp_id = from_null_string row.fault_composition_id;
      cache_box = scan_cache_box row.cachebox_mode row.cachebox_key_strategy;
    };
    mode = row.mode;
    match_expr = row.match_expr;
    start_policy = row.start_policy;
    created_at = row.created_at;
    updated_at = row.updated_at;
  }

  unfoldable pub scan_rule : RuleRow → Result Rule
  scan_rule row = scan_labels row.match_labels >>= λ labels. ok (scanned row labels)

  unfoldable pub scan_rules : List RuleRow → Result (List Rule)
  unfolding scan_rule
  scan_rules [] = ok []
  scan_rules (row ∷ rows) =
      let rest = scan_rules rows in scan_rule row >>= λ r. rest >>= λ rs. ok (r ∷ rs)

  unfoldable pub get : String → RuleTable → Result Rule
  unfolding find_row scan_rule
  get id t = elim (find_row id t.rows) [ none ↦ err not_found | some row ↦ scan_rule row ]

  unfoldable pub list : RuleTable → Result (List Rule)
  unfolding order_rows scan_rules
  list t = scan_rules (order_rows true t.rows)

  unfoldable pub for_service : String → RuleTable → Result (List Rule)
  unfolding order_rows scan_rules select_service
  for_service service t = scan_rules (order_rows false (select_service service t.rows))

  -- `UPDATE rules SET …`, which keeps the ID and the time of creation.
  abbrev pub set_row : Rule → ℕ → RuleRow → RuleRow
  set_row rule now old = record (to_row rule) {
    id = old.id;
    created_at = old.created_at;
    updated_at = now;
  }

  module _ (admits : RuleRow → Bool) where
    -- The answer, the rule as Validate leaves it, and the table after the transaction.
    unfoldable pub create : Rule → RuleTable → Check × Rule × RuleTable
    create rule t =
        let (rule', answer) = validate_rule rule in
        elim answer [
          | some e ↦ (some e, rule', t)
          | none ↦
              if has_row rule'.id t.rows || not (admits (to_row rule'))
              then (some (new "insert rule: %w"), rule', t)
              else (none, rule', record { rows = to_row rule' ∷ t.rows; version = suc t.version })
        ]

    unfoldable pub update : Rule → ℕ → RuleTable → Check × Rule × RuleTable
    update rule now t =
        let (rule', answer) = validate_rule rule in
        elim answer [
          | some e ↦ (some e, rule', t)
          | none ↦ elim (find_row rule'.id t.rows) [
            | none ↦ (some not_found, rule', t)
            | some old ↦
                if not (admits (set_row rule' now old))
                then (some (new "update rule: %w"), rule', t)
                else (
                  none,
                  rule',
                  record {
                    rows = update_rows rule'.id (set_row rule' now) t.rows;
                    version = suc t.version;
                  },
                )
          ]
        ]

unfoldable pub delete : String → RuleTable → Check × RuleTable
unfolding delete_rows find_row
delete id t =
    if has_row id t.rows
    then (none, record { rows = delete_rows id t.rows; version = suc t.version })
    else (some not_found, t)

abbrev pub count : RuleTable → ℕ
count t = length t.rows

abbrev pub bump_version : RuleTable → RuleTable
bump_version t = record t { version = suc t.version }
