-- ===== src/Model/Trace.antt =====
-- internal/model/trace.go: trace anchors, cache-box configurations and synthetic delays.
use manteion_go.Base.{
  ℕ, String, ◌==◌, Bool, true, false, not, ◌&&◌, ◌||◌, Option, none, some, List, [], ◌∷◌, new,
  errorf, Check, reject, ◌>>◌, is_nil, has_text,
}
use manteion_go.Base.Int.{ℤ, pos, ltz}
use manteion_go.Base.Float.{Float64}

pub record TraceAnchor : Type 0 where
  pub id : String
  pub experiment_run_id : String
  pub meta_trace_id : String
  pub service : String
  pub backend : String
  pub query_hint : String
  pub collected_at : ℕ

abbrev valid_backends : List String
valid_backends = "jaeger" ∷ "prometheus" ∷ "tempo" ∷ []

unfoldable pub validate_trace_anchor : TraceAnchor → Check
validate_trace_anchor t = do
  reject (t.id == "") (new "trace anchor: id required")
  reject (t.experiment_run_id == "") (new "trace anchor: experiment_run_id required")
  reject (t.meta_trace_id == "") (new "trace anchor: meta_trace_id required")
  reject (t.service == "") (new "trace anchor: service required")
  reject (not (has_text t.backend valid_backends))
      (errorf "trace anchor: invalid backend %q" (t.backend ∷ []))

-- The texts of `Mode`; `other` stands for every other text.
pub data CacheBoxMode : Type 0 where
  passthrough replay replay_with_delay : CacheBoxMode
  other : String → CacheBoxMode

pub data MutationPolicy : Type 0 where
  deny allow : MutationPolicy
  other : String → MutationPolicy

pub record HistogramBucket : Type 0 where
  pub upper_bound_us : ℤ
  pub count : ℤ

pub record SyntheticDelayConfig : Type 0 where
  pub p50_us : ℤ
  pub p95_us : ℤ
  pub p99_us : ℤ
  pub histogram_buckets : List HistogramBucket
  pub fit_mu : Option Float64
  pub fit_sigma : Option Float64

pub record CacheBoxConfig : Type 0 where
  pub service : String
  pub mode : CacheBoxMode
  pub workflow_scope : String
  pub key_strategy : String
  pub mutation_policy : MutationPolicy
  pub safe_methods : List String
  pub synthetic_delay : Option SyntheticDelayConfig
  pub warmup_duration_ms : ℤ
  pub cache_ttl_ms : ℤ

abbrev pub valid_cache_box_mode : CacheBoxMode → Bool
valid_cache_box_mode (CacheBoxMode.other _) = false
valid_cache_box_mode _ = true

abbrev pub valid_mutation_policy : MutationPolicy → Bool
valid_mutation_policy (MutationPolicy.other _) = false
valid_mutation_policy _ = true

abbrev pub valid_key_strategies : List String
valid_key_strategies = "exact" ∷ "exact_with_host" ∷ "exact_with_body" ∷ []

abbrev pub is_deny : MutationPolicy → Bool
is_deny MutationPolicy.deny = true
is_deny _ = false

abbrev pub is_replay_with_delay : CacheBoxMode → Bool
is_replay_with_delay CacheBoxMode.replay_with_delay = true
is_replay_with_delay _ = false

-- `p == nil`
abbrev pub is_none {ℓ} : {A : Type ℓ} → Option A → Bool
is_none none = true
is_none (some _) = false

abbrev mode_text : CacheBoxMode → String
mode_text CacheBoxMode.passthrough = "passthrough"
mode_text CacheBoxMode.replay = "replay"
mode_text CacheBoxMode.replay_with_delay = "replay_with_delay"
mode_text (CacheBoxMode.other s) = s

abbrev policy_text : MutationPolicy → String
policy_text MutationPolicy.deny = "deny"
policy_text MutationPolicy.allow = "allow"
policy_text (MutationPolicy.other s) = s

unfoldable pub validate_cache_box : CacheBoxConfig → Check
validate_cache_box c = do
  reject (c.service == "") (new "cachebox config: service required")
  reject (not (valid_cache_box_mode c.mode))
      (errorf "cachebox config: invalid mode %q" (mode_text c.mode ∷ []))
  reject (not (has_text c.key_strategy valid_key_strategies))
      (errorf "cachebox config: invalid key_strategy %q" (c.key_strategy ∷ []))
  reject (not (valid_mutation_policy c.mutation_policy))
      (errorf "cachebox config: invalid mutation_policy %q" (policy_text c.mutation_policy ∷ []))
  reject (is_deny c.mutation_policy && not (is_nil c.safe_methods))
      (new "cachebox config: safe_methods only valid when mutation_policy=allow")
  reject (is_replay_with_delay c.mode && is_none c.synthetic_delay)
      (new "cachebox config: synthetic_delay required for replay_with_delay mode")

abbrev beq_bool : Bool → Bool → Bool
beq_bool true b = b
beq_bool false b = not b

unfoldable pub validate_synthetic_delay : SyntheticDelayConfig → Check
validate_synthetic_delay s = do
  reject (ltz s.p50_us (pos 0) || ltz s.p95_us (pos 0) || ltz s.p99_us (pos 0))
      (new "synthetic delay: percentiles must be non-negative")
  reject (not (beq_bool (is_none s.fit_mu) (is_none s.fit_sigma)))
      (new "synthetic delay: fit_mu and fit_sigma must both be present or both absent")
