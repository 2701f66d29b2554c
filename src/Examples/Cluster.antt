-- ===== src/Examples/Cluster.antt =====
-- A small cluster: a rule that waits for the network of the workers, a node whose network is up
-- and one whose network is down, and selectors that compare labels.
use mathlib.Core.Bool.{false≢true}
use node_readiness_gate_cont.Prelude.{
  eq_iff, ◌≢◌, ◌≡◌, refl, String, Bool, true, false, [], ◌∷◌, Option, none, some, ok, ◌==◌, ◌<>◌,
  all,
}
use node_readiness_gate_cont.Prelude.GoMap.{GoMap, lookup}
use node_readiness_gate_cont.Core.{Node, Taint, LabelSelector, Selectors, IsLawful}
use node_readiness_gate_cont.Api.{
  NodeReadinessGateRule, NodeReadinessGateRuleSpec, NodeReadinessGateRuleStatus, TaintSpec,
  continuous,
}
use node_readiness_gate_cont.Finalizers.{finalizer_name}
use node_readiness_gate_cont.Controller.{State}
use node_readiness_gate_cont.Examples.Memory.{Memory, memory}

abbrev value_is : Option String → String → Bool
value_is none v = false
value_is (some w) v = w == v

abbrev has_labels : GoMap String → GoMap String → Bool
has_labels wanted labels = all (λ e. value_is (lookup e.0 labels) e.1) wanted

abbrev label_text : GoMap String → String
label_text [] = ""
label_text ((k, v) ∷ m) = k <> "=" <> v <> "," <> label_text m

abbrev pub by_labels : Selectors
by_labels = record {
  Selector = GoMap String;
  as_selector = λ s. ok s.match_labels;
  matches = has_labels;
  render = label_text;
}

has_labels_congr :
    (s a b : GoMap String)
    → ((k : String) → lookup k a ≡ lookup k b)
    → has_labels s a ≡ has_labels s b
has_labels_congr [] a b h = refl
has_labels_congr ((k, v) ∷ s) a b h = rw (h k, has_labels_congr s a b h)

pub by_labels_lawful : IsLawful by_labels
by_labels_lawful = record { matches_congr = has_labels_congr }

abbrev pub network : TaintSpec
network = record { key = "readiness/network"; effect = "NoSchedule"; value = "pending" }

abbrev network_taint : Taint
network_taint = record { key = "readiness/network"; value = "pending"; effect = "NoSchedule" }

abbrev pub workers : LabelSelector
workers = record { match_labels = ("role", "worker") ∷ []; match_expressions = [] }

abbrev pub masters : LabelSelector
masters = record { match_labels = ("role", "master") ∷ []; match_expressions = [] }

abbrev pub up_node : Node
up_node = record {
  name = "up";
  labels = ("role", "worker") ∷ [];
  annotations = none;
  taints = network_taint ∷ [];
  conditions = (record { kind = "NetworkReady"; status = "True" }) ∷ [];
}

abbrev pub marked_node : Node
marked_node = record up_node {
  annotations = some (("readiness.k8s.io/bootstrap-completed-network", "true") ∷ []);
}

-- A node that the cluster no longer has.
abbrev pub gone_node : Node
gone_node = record up_node {
  name = "gone";
  taints = [];
  conditions = (record { kind = "NetworkReady"; status = "False" }) ∷ [];
}

abbrev pub down_node : Node
down_node = record {
  name = "down";
  labels = ("role", "worker") ∷ [];
  annotations = none;
  taints = [];
  conditions = (record { kind = "NetworkReady"; status = "False" }) ∷ [];
}

abbrev pub spec : NodeReadinessGateRuleSpec
spec = record {
  conditions = (record { kind = "NetworkReady"; required_status = "True" }) ∷ [];
  enforcement_mode = continuous;
  taint = network;
  node_selector = some workers;
  grace_period = none;
  dry_run = false;
}

abbrev pub status : NodeReadinessGateRuleStatus
status = record {
  observed_generation = 0;
  conditions = [];
  applied_nodes = [];
  node_evaluations = [];
  failed_nodes = [];
  dry_run_results = none;
}

abbrev pub rule : NodeReadinessGateRule
rule = record {
  name = "network";
  generation = 1;
  resource_version = "7";
  finalizers = finalizer_name ∷ [];
  deletion_timestamp = none;
  spec = spec;
  status = status;
}

-- The rule after its selector was changed to nodes that the cluster does not have.
abbrev pub masters_rule : NodeReadinessGateRule
masters_rule = record rule { spec = record spec { node_selector = some masters } }

-- The rule with a status that is not stored yet.
abbrev pub applied_rule : NodeReadinessGateRule
applied_rule = record rule { status = record status { applied_nodes = "up" ∷ "down" ∷ [] } }

abbrev pub cluster : Memory
cluster = record { nodes = up_node ∷ down_node ∷ []; rule = some rule; time = 100 }

abbrev pub state : State memory
state = record { world = cluster; cache = []; global_dry_run = false }

abbrev pub deleted_rule : NodeReadinessGateRule
deleted_rule = record rule { deletion_timestamp = some 90 }

-- The state after a reconciliation of the rule, once the rule has been deleted.
abbrev pub deleting : State memory
deleting = record {
  world = record cluster { rule = some deleted_rule };
  cache = ("network", rule) ∷ [];
  global_dry_run = false;
}

-- The same where the nodes cannot be listed.
abbrev pub unlistable : Memory
unlistable = record cluster { nodes = up_node ∷ up_node ∷ []; rule = some deleted_rule }

abbrev pub held : State memory
held = record deleting { world = unlistable }

abbrev pub switched_off : State memory
switched_off = record { world = cluster; cache = ("network", rule) ∷ []; global_dry_run = true }

abbrev pub dry_rule : NodeReadinessGateRule
dry_rule = record rule { spec = record spec { dry_run = true } }

-- The rule has been set to a dry run since it was cached.
abbrev pub trying : State memory
trying = record deleting { world = record cluster { rule = some dry_rule } }

abbrev down : String
down = "down"

pub down-ne-up : down ≢ "up"
down-ne-up e = false≢true ((eq_iff down "up").1 e)

-- A later status has been stored since the rule was cached.
abbrev pub stored : State memory
stored = record deleting { world = record cluster { rule = some applied_rule } }
