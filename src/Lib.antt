-- ===== src/Lib.antt =====
-- Verification library of project-onboarding-operator: the core of a Kubernetes operator that turns
-- `ProjectOnboarding` resources into tenant namespaces with quotas, limit ranges, labels and access.
--
-- The program. A ProjectOnboarding lists namespace entries. Admission (internal/validation) checks
-- them; the reconciler (internal/onboarding) resolves the sizing of an entry from a T-shirt size,
-- builds the objects of the tenant, prunes what is no longer wanted, and cleans up the entries that
-- are marked `offboard`. When the resource is deleted, a finalizer tears down what may be torn down
-- and waits for the tenant namespaces that still exist.
--
-- The files.
--   Base          the shared names: texts, maps as association lists (Dict), outcomes of Go functions
--                 (a value, an error, a panic), Boolean tests.
--   Api           api/v1beta1: the spec structs, one record each.
--   Helpers       internal/onboarding/helpers.go: switches, names, storage class maps, messages and
--                 conditions of a status.
--   Sizing        internal/onboarding/tshirt_merge.go: Merge has the merge* functions, Resolve the
--                 choice between them, Catalogue ResolveNamespaceSpec with its read, and the
--                 admission checks of internal/validation/validate.go that read a size.
--   Validation    internal/validation: Quantity is quantity.go, Resources the rest of validate.go.
--   Quota         internal/onboarding/reconcile_quota.go: buildResourceQuotaHard and
--                 buildLimitRangeItems, with the panics of resource.MustParse.
--   Effects       calls that pass the state of the cluster on, and rules for what survives them.
--   Content       what the objects of a tenant hold beside their metadata.
--   Cluster       the API server as a record of calls (Client) with what the operator relies on in
--                 their answers (Lawful).
--   NetworkPolicies  internal/onboarding/reconcile_netpol.go: the policies as they are built.
--   Owners        internal/onboarding/owners.go, with the library functions on objects (Machinery).
--   Projects      internal/onboarding/argocd.go: the content of an Argo CD project.
--   Cleanup       internal/onboarding/cleanup.go and the deletion of Argo CD projects of argocd.go.
--   Prune         internal/onboarding/prune.go, PruneRemovedNamespaces.
--   Deletion      internal/onboarding/deletion.go.
--   Settings      namespace_settings.go and monitoring.go, and the labels that
--                 reconcileNamespaceObject of reconcile.go computes.
--   Defaults      internal/onboarding/defaults.go: loading, checking and merging GitOps defaults.
--   Requeue       internal/onboarding/errors.go, pause.go and the error counter of metrics.go.
--   Reconcile     internal/onboarding/reconcile.go, ReconcileNamespace: Tenant writes the objects in
--                 the namespace, Shared those outside it (reconcile_openshift.go, argocd.go), Prune is
--                 PruneNamespaceResources. Keys, Writes, Pruned and Beyond follow one stored object
--                 through these steps.
--   Controller    internal/controller/projectonboarding_controller.go: Subject has the resource and
--                 its calls (Runtime), Entries the loop over the entries.
--   References    internal/validation/validate.go: the references to a T-shirt size.
--   Watches       internal/controller: what each watch enqueues.
--   SizeController  internal/controller/tshirtsize_controller.go.
--   Tests         concrete parameters (a client that holds one object, one with room for an object of
--                 each kind, a parser, a map order) and the theorems at concrete inputs.
--
-- How the code is read. A pointer that may be nil is an Option; a nil map is an empty one; a struct is
-- a record, and its deep copy the record itself. A map of empty structs is the list of its keys, and
-- where the code visits a map the order is a parameter (MapOrder): any order that visits every entry
-- once. An int32 that is only printed is an unbounded integer. A status message is its bytes, since
-- it is cut at a byte offset; other texts are compared and cut at ASCII characters only. Loops are
-- recursion on their lists; the one fuel is that of `decimal`, the printing of a number, which is
-- above the number, and a round divides it by ten. The context of a call is left out.
--
-- The reconciler reads an object, computes the one that it is to become, and creates or patches it;
-- an object is its key, labels, annotations, owners and content. The labels of an existing unstructured
-- object are those that the parameter write_labels answers, since the source writes into the map that
-- GetLabels returns. Reconcile answers its result with the error label that it counts and what becomes
-- of the gauge. int32(n) wraps modulo 2^32.
--
-- Code that is not in the repository is a parameter: resource.ParseQuantity by the text of its error
-- (with the hypothesis IsQuantityParser where one is needed), IsDNS1123Subdomain, and the API server.
-- Lawful describes a client whose reads are current; a deletion by the server of further objects
-- (owner references, finalizers) after the call is outside it.
--
-- Not modelled. The set-up of the controllers with their manager, the webhooks, which hand their object
-- to the modelled checks, events and logs, the registration of the metrics, the entry point, generated
-- and test code are left out: they register, print or copy. The UIDs of owner references and the
-- interleaving of two reconciles are outside the model.
pub mod Base
pub mod Api
pub mod Helpers
pub mod Sizing
pub mod Validation
pub mod Quota
pub mod Effects
pub mod Content
pub mod Cluster
pub mod NetworkPolicies
pub mod Owners
pub mod Projects
pub mod Reconcile
pub mod Cleanup
pub mod Prune
pub mod Deletion
pub mod Requeue
pub mod Controller
pub mod References
pub mod Watches
pub mod SizeController
pub mod Tests
pub mod Settings
pub mod Defaults
