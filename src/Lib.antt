-- ===== src/Lib.antt =====
-- The upgrade accelerator operator preheats the nodes of an OpenShift cluster with the images of the release
-- to which the cluster is about to be upgraded. Its controller reconciles one kind of object, UpgradeAccelerator.
--
-- Parts, each with the files that model it (paths from the repository's root):
--   api/v1alpha1/upgradeaccelerator_types.go: Api, the spec and the status as records.
--   internal/controller/upgradeaccelerator_controller.go: Reconcile is the handler, Reconcile/Checks,
--     Reconcile/Scheduling and Reconcile/Run its sections in order, Reconcile/Reply what it returns; Schedule is
--     what it does to the lists of nodes, as functions without calls; Manager has the deletion predicate.
--   internal/controller/upgradeaccelerator_conditions.go: Conditions, with the constants in
--     Conditions/Constants.
--   internal/controller/upgradeaccelerator_nodeDetermination.go: Nodes, which nodes are targeted and which are
--     primer nodes, with the calls of the client in Nodes/Targets; Sorting is their order.
--   internal/controller/oc_get_release_images.go: Images, the command lines and the filter of images.
--   internal/controller/upgradeaccelerator_func.go: Versions, and the creation of the namespace in Setup.
--   internal/controller/upgradeaccelerator_setup.go: Setup.
--   internal/controller/upgradeaccelerator_job.go: Jobs.
--   internal/controller/upgradeaccelerator_configmap.go: ConfigMaps.
--   internal/controller/upgradeaccelerator_manager.go: Manager, the event filters, what events enqueue, and what
--     the builder of the controller is given.
--   api/v1alpha1/zz_generated.deepcopy.go: Copies, over a memory of cells at addresses. Structs has the types with
--     their pointers and slices as parameters, Memory and Cells what an address holds and how it is read and written,
--     Into the methods, Copying the steps that they share, Shapes and Pointers what is read at a type and through which
--     addresses. A slice has its offset and length in an array.
--   cmd/main.go and api/v1alpha1/groupversion_info.go: Entry, the flags, the registration of the types, the TLS
--     options of the two servers with the slices that hold them (Entry/Slices), and the calls that make and start
--     the manager.
--
-- A reconciliation fetches the object, finds the platform and the versions, determines the nodes, makes the
-- namespace and the ConfigMaps, fills the waiting list, creates Jobs for the primer nodes and then for the
-- waiting ones, and moves the nodes whose Jobs succeeded to the preheated list. Parts interact by the object in
-- memory, the API server, and errors that are returned.
--
-- Go code that changes the object is an action of Exec: it takes the object and the world outside, and ends with
-- a value, an early return or a panic, beside the new state. The record Env of Cluster is the interface to code
-- that is not in the repository: the client of controller-runtime, the shell, encoding/json, crypto/sha256,
-- sort, mergo and the order in which Go ranges over a map. Every definition takes it as a parameter; Samples has
-- a small cluster in memory as an instance. Theorems that need more of a client or of the sort name it as a
-- record of documented behaviour: JobStore, JobServer, ConfigMapClient, KeepsNames, RangesAll, HexDigest,
-- IsOffering and IsQueue, the last for the work queue of a controller.
-- IsScope, IsWarrant and IsJobWarrant say which property of the world the calls keep, for any such property.
--
-- Exec/Rules, Exec/Keeps, Exec/Preserves and Exec/Ensures are the rules by which the theorems go through the code:
-- what an action returns, what it keeps of the object, what it keeps of the whole state, and what it ensures of its
-- value. Reconcile/Reachable runs reconciliations among steps of others, as a step relation; Reconcile/Warrant carries
-- its invariant through every section, and Reconcile/Guard and Reconcile/Scoped follow the Jobs that are created.
--
-- Reconcile/Unbatched and Reconcile/Plan follow a reconciliation in which no call fails, up to the lists that it leaves.
--
-- The program that Entry models makes its calls in order, each recorded, and what a call answers may depend on all
-- calls before it. It ends by returning, by os.Exit or by a panic.
--
-- Maps are association lists. Loops are structural; the loop over the waiting nodes runs on the length that its
-- slice has at the start, which is how Go ranges, so it needs no fuel. Slices that share an array are modelled
-- in that loop (visit_shared, overwrite) and for the TLS options, where the code depends on it. A slice bound of
-- -1 and an index out of range are panics. Seconds are natural numbers; Parallelism is an integer, of which a
-- negative one counts no round.
--
-- Not modelled: logging, the parsing of flags, and metadata beyond names, namespaces, labels and owners. The
-- DeepCopyInto of metadata, label selectors, tolerations and conditions are not in the repository: they are parameters
-- of Copies, with the contract that they are deep copies (Copies/Fields).
--
-- The modules under a component's name hold its theorems; Tests holds them at concrete objects.
pub mod Prelude
pub mod Api
pub mod Entry
pub mod Exec
pub mod Cluster
pub mod Conditions
pub mod Sorting
pub mod Nodes
pub mod Images
pub mod Versions
pub mod Jobs
pub mod ConfigMaps
pub mod Setup
pub mod Schedule
pub mod Reconcile
pub mod Manager
pub mod Copies
pub mod Samples
pub mod Tests
