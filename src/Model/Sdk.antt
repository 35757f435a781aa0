-- ===== src/Model/Sdk.antt =====
-- internal/model/sdk.go and internal/model/workflow.go: SDK instances with the routes they publish,
-- and workflow definitions.
use Prim.Native.Char.{code}
use manteion_go.Base.{
  ℕ, ◌+◌, String, ◌==◌, Bool, true, ◌&&◌, ◌||◌, none, List, [], ◌∷◌, new, wrap_at, Check, reject,
  context, ◌>>◌, is_nil, leb, eqb,
}
use manteion_go.Base.Int.{ℤ}
use manteion_go.Base.Float.{Float64}
use manteion_go.Model.Fault.{is_null_json}

-- `unicode.IsSpace`
abbrev is_space : ℕ → Bool
is_space c =
    (leb 9 c && leb c 13)
    || eqb c 32
    || eqb c 0x85
    || eqb c 0xA0
    || eqb c 0x1680
    || (leb 0x2000 c && leb c 0x200A)
    || eqb c 0x2028
    || eqb c 0x2029
    || eqb c 0x202F
    || eqb c 0x205F
    || eqb c 0x3000

-- `strings.TrimSpace(s) == ""`
unfoldable pub is_blank : String → Bool
is_blank String.[] = true
is_blank (String.◌∷◌ c s) = is_space (code c) && is_blank s

pub record SdkRoute : Type 0 where
  pub method : String
  pub path : String
  pub description : String
  pub depends_on : List String

unfoldable pub validate_route : SdkRoute → Check
unfolding is_blank
validate_route r = do
  reject (is_blank r.method) (new "sdk route: method required")
  reject (is_blank r.path) (new "sdk route: path required")

pub record SdkInstance : Type 0 where
  pub id : String
  pub service : String
  pub version : String
  pub address : String
  pub poll_interval_ms : ℤ
  pub registered_at : ℕ
  pub last_poll_at : ℕ
  pub status : String
  pub routes : List SdkRoute

unfoldable pub validate_routes : ℕ → List SdkRoute → Check
unfolding validate_route
validate_routes i [] = none
validate_routes i (r ∷ rs) = do
  context (wrap_at "sdk instance route[%d]: %w" i) (validate_route r)
  validate_routes (i + 1) rs

unfoldable pub validate_instance : SdkInstance → Check
unfolding validate_routes
validate_instance i = do
  reject (i.id == "") (new "sdk instance: id required")
  reject (i.service == "") (new "sdk instance: service required")
  validate_routes 0 i.routes

-- Steps and thresholds are opaque JSON.
pub record Workflow : Type 0 where
  pub id : String
  pub name : String
  pub description : String
  pub targets : List String
  pub estimated_rps_per_vu : Float64
  pub steps : String
  pub thresholds : String
  pub created_at : ℕ
  pub updated_at : ℕ

unfoldable pub validate_workflow : Workflow → Check
validate_workflow w = do
  reject (w.id == "") (new "workflow: id required")
  reject (w.name == "") (new "workflow: name required")
  reject (is_nil w.targets) (new "workflow: at least one target required")
  reject (is_null_json w.steps) (new "workflow: steps required")
