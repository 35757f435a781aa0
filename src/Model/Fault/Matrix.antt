-- ===== src/Model/Fault/Matrix.antt =====
-- internal/model/fault.go: the compatibility matrix of faults.
use manteion_go.Base.{String, ◌==◌, List, [], ◌∷◌, if◌then◌else◌}

pub record FaultConstraint : Type 0 where
  pub kind : String
  pub subject : String
  pub object : String
  pub scope : String
  pub constraint_type : String
  pub reason : String

abbrev constraint : String → String → String → String → String → String → FaultConstraint
constraint kind subject object scope type reason = record {
  kind = kind;
  subject = subject;
  object = object;
  scope = scope;
  constraint_type = type;
  reason = reason;
}

unfoldable pub default_constraints : List FaultConstraint
default_constraints =
    constraint "pair" "network:blackhole" "network:*" "parallel" "hard"
      "blackhole hijacks pre-dial; second toxic's Pipe() never runs"
    ∷ constraint "pair" "network:drip" "network:throttle" "parallel" "hard"
        "both control stream timing; undefined which controls pacing"
    ∷ constraint "pair" "network:drip" "network:latency" "parallel" "hard"
        "both add per-chunk delays; double timing control"
    ∷ constraint "pair" "inline:hang" "network:blackhole" "parallel" "soft"
        "both block the request; redundant"
    ∷ constraint "pair" "network:retransmit_delay" "network:rst" "parallel" "soft"
        "both can reset connection; intent is ambiguous"
    ∷ constraint "pair" "inline:error" "inline:latency" "sequential" "soft"
        "error first makes subsequent latency meaningless"
    ∷ constraint "pair" "inline:error" "inline:hang" "parallel" "soft"
        "error completes immediately, hang blocks; conflicting intent"
    ∷ constraint "pair" "resource:cpu" "resource:memory" "parallel" "soft"
        "memory allocation triggers GC which skews CPU duty-cycle measurements"
    ∷ constraint "pair" "inline:latency" "inline:hang" "parallel" "soft"
        "hang blocks indefinitely, making the latency delay invisible"
    ∷ constraint "host_mode" "host:proxy" "mode:inline" "always" "hard"
        "inline mode blocks request for entire proxy listener lifetime"
    ∷ constraint "category_mode" "category:resource" "mode:inline" "always" "soft"
        "resource stress typically runs longer than a request; blocking is rarely intended"
    ∷ constraint "category_mode" "category:inline" "mode:background" "always" "soft"
        "inline faults are intended to affect the request; background mode means the request doesn't wait for them"
    ∷ []

-- The loop of DefaultIncompatibilities.
unfoldable pub only_pairs : List FaultConstraint → List FaultConstraint
only_pairs [] = []
only_pairs (c ∷ cs) = let pairs = only_pairs cs in if c.kind == "pair" then c ∷ pairs else pairs

unfoldable pub default_incompatibilities : List FaultConstraint
unfolding default_constraints only_pairs
default_incompatibilities = only_pairs default_constraints
