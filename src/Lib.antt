-- ===== src/Lib.antt =====
-- The node readiness gate controller: a Kubernetes controller that keeps a taint on every node
-- that does not meet the conditions of a NodeReadinessGateRule, and takes it off once it does.
--
-- The parts of the program and their files.
-- * The resource (api/v1alpha1/nodereadinessgaterule_types.go): Api. The Kubernetes types that the
--   program reads or writes (Node, Taint, LabelSelector): Core.
-- * The API client that the program calls, as an interface over a state of the world: Client. What
--   the program relies on of the API server while nobody else writes to it: Client/Store.
-- * The evaluation of a rule for a node (evaluateRuleForNode, getConditionStatus, hasTaintBySpec,
--   addTaintBySpec, removeTaintBySpec, recordNodeFailure, updateNodeEvaluationStatus in
--   internal/controller): Taints, Conditions, Status, Evaluation.
-- * The bootstrap mark on a node (isBootstrapCompleted, markBootstrapCompleted): Bootstrap.
-- * Selectors (ruleAppliesTo, nodeSelectorChanged, stringMapEqual): Selection. Finalizers
--   (containsFinalizer, addFinalizer, removeFinalizer): Finalizers.
-- * The pass of a rule over all nodes (processAllNodesForRule): AllNodes. Its simulation
--   (processDryRun): DryRun.
-- * The removal of taints (cleanupTaintsForRule, cleanupNodesAfterSelectorChange): Cleanup.
-- * Writing the status (updateRuleStatus, cleanupDeletedNodes): RuleStatus.
-- * The state that the reconcilers share (ReadinessGateController, its rule cache): Controller.
-- * The reconcilers (RuleReconciler.Reconcile, NodeReconciler.Reconcile with
--   processNodeAgainstAllRules): RuleReconciler, NodeReconciler.
-- * Sequences of runs of both reconcilers, with changes by others in between: History.
-- * Which updates count as changes (conditionsEqual, taintsEqual, labelsEqual, the predicates of
--   SetupWithManager): Events.
-- * The admission webhook (internal/webhook/nodereadinessgaterule_webhook.go): Webhook.
-- * The deep copies of the resource (api/v1alpha1/zz_generated.deepcopy.go), over a heap with an
--   address for every slice, map and pointer: DeepCopy. Their registration with a scheme
--   (api/v1alpha1/groupversion_info.go and the init functions): Group.
-- * What the controllers and the webhook register with the manager (the three SetupWithManager):
--   Setup. The start of the program (cmd/main.go) and its watches while the reconcilers run: Main.
--   Its version (internal/info/version.go): Info.
-- * Prelude holds the shared names and lemmas, Examples an API server in memory and the theorems
--   on a small cluster.
--
-- How the parts interact. The rule reconciler reads a rule, adds its finalizer, cleans the nodes
-- that its selector has left, caches the rule, evaluates it for all nodes (or simulates that) and
-- stores its status; a deleted rule has its taints removed before its finalizer. The node
-- reconciler evaluates the cached rules for one node. Both call the same evaluation. A function
-- takes the world and returns the world after it; an error is a value (Fault); the early returns
-- of RuleReconciler.Reconcile are the steps of RuleReconciler/Steps.
--
-- Choices. A Go map is an association list that holds a key once (Prelude/GoMap); the order in
-- which range visits one is a parameter (visit). Pointers into the cache are written back to the
-- cache, a deep copy is taken as the value that it copies (but in DeepCopy), and calls that hold a
-- lock are single steps. Where Go modifies an object before a call that fails, the modified object
-- is what is left. The loops run over lists and need no fuel; decimal, which prints a number, has
-- the number itself as its fuel, which is enough since each round divides by ten. Times are natural
-- numbers.
--
-- Not modelled: the parsing of flags and the signal handler of cmd/main.go, logging and contexts,
-- runs of the two reconcilers that overlap (controller-runtime runs each of them once at a time,
-- but both at once), and the metadata of objects that the program does not read. controller-runtime
-- is a parameter (Runtime for the calls of the start, Watching for the events that a predicate lets
-- pass), and so are the deep copies of the types of apimachinery (MetaCopies). The API server, the
-- retry loop and the label selectors are parameters; the assumptions on them are the fields of
-- Store (reads return what is stored, a successful write stores what was sent, a conflict changes
-- nothing, a write of a status or one that keeps the spec keeps the generation, the retry loop runs
-- its function until the last attempt decides), of IsLawful, IsWatching and IsCopying (the deep
-- copies of apimachinery are equal to what they copy and reach new addresses only). Results that
-- name a Store are about times when nobody else writes. The deep copies that the cache makes
-- (updateRuleCache, getCachedRule) are not told from the rules that they copy.
pub mod Prelude
pub mod Core
pub mod Api
pub mod Taints
pub mod Conditions
pub mod Status
pub mod Finalizers
pub mod Selection
pub mod Events
pub mod Client
pub mod Bootstrap
pub mod DeepCopy
pub mod Evaluation
pub mod AllNodes
pub mod DryRun
pub mod Cleanup
pub mod RuleStatus
pub mod Controller
pub mod NodeReconciler
pub mod RuleReconciler
pub mod Webhook
pub mod Group
pub mod Setup
pub mod Info
pub mod Main
pub mod History
pub mod Examples
