-- ===== src/Lib.antt =====
-- The CNWAN operator: it watches the namespaces and services of a Kubernetes cluster and keeps a
-- service registry (Google Service Directory, AWS Cloud Map or etcd, through the library serego) in
-- step with them. Two controllers turn what happens to namespaces and services into events on a
-- channel; a dispatcher hands each event to the worker of its namespace; the worker registers or
-- deregisters what the event names.
--
-- Files and sources (paths are from the repository's root):
--   Common, Common/*: names passed on from the libraries, Boolean tests, list predicates, orders that
--   rearrange, error results, calls that may panic, and the parts of Go's strings and fmt in use (strings.Split,
--   strings.LastIndex, strings.ToLower, "%d", slices of the first characters).
--   GoMap, GoMap/Laws: Go maps as association lists in the order of a `range`.
--   Settings: internal/types/settings.go and internal/utils/utils.go, ParseAndValidateSettings and
--   parseEtcdSettings. Settings/Endpoints says which endpoints of etcd are kept, Settings/Validity which
--   settings are accepted, Settings/Again that parsing again changes nothing, Settings/Parsed which
--   registry is left, Settings/Nil when a nil pointer among the endpoints is followed.
--   Cluster: pkg/cluster/kubernetes.go, the secrets and the configmap, and pkg/cluster/network.go, the
--   network on GKE and the region. Cluster/Platform has the package variable iAmIn and the network on
--   EKS, Cluster/Kubernetes the package variable kcli.
--   Startup: utils.go and main.go, the network configuration and the metadata for all objects
--   (Startup/Network, Startup/Metadata), the settings of Service Directory (Startup/ServiceDirectory) and
--   Cloud Map, and the addresses of etcd (Startup/Endpoints). A dereferenced nil pointer is an outcome.
--   Startup/Clients: getEtcdClient, getGSDClient and getAWSClient of utils.go.
--   Controllers/Objects: the fields of corev1.Service and corev1.Namespace in use.
--   Controllers/Annotations: pkg/controllers/utils.go, filterAnnotations; its reading of the wildcards
--   is in Annotations/Allowed.
--   Controllers/Addresses: pkg/controllers/utils.go, tryResolveHostnames and getIPsFromService.
--   Controllers/Check: pkg/controllers/utils.go, checkNsLabels, checkService and
--   getEndpointsMapFromSlice. Check/Passed says when a service passes, Check/Endpoints which endpoints
--   it has, Check/Names how they are named, Check/Labels which namespaces are watched.
--   Controllers/Handling: ControllerOptions of pkg/controllers/namespace.go, and the actions of a
--   handler. Handling/Ordered states in which order events have to come.
--   Controllers/Services: pkg/controllers/service.go. `handle_create`, `handle_update`,
--   `handle_deleted` and `handle_generic` are Create, Update, Delete and Generic, `handle_delete` is
--   handleDelete.
--   Controllers/Namespaces: pkg/controllers/namespace.go, with the same names.
--   Controllers/Registration: NewManager of pkg/controllers/manager.go and the constructors of the two
--   controllers.
--   Controllers/Samples: objects for the tests, which stand in the modules called Tests.
--   ServiceRegistry/Events: the events (pkg/serviceregistry/events_handler.go) and
--   pkg/serviceregistry/utils.go.
--   ServiceRegistry/Registry: the registry that serego shows, as a record of operations and laws;
--   Registry/Memory is an instance. Registry/Places compares places, Registry/Reliable says when a
--   registry never fails and what it shows, Registry/Answering that the instance is one of these.
--   ServiceRegistry/Worker: pkg/serviceregistry/namespace_worker.go over any such registry.
--   ServiceRegistry/Published: what the workers promise, as lists of published places, which forgets
--   metadata and owners; Worker/Refines relates the workers to it.
--   ServiceRegistry/Dispatcher: WatchForEvents and getOrCreateNamespaceWorker of
--   pkg/serviceregistry/events_handler.go and the goroutines of the workers, as a step relation.
--   Dispatcher/Invariant is about every reachable state, Dispatcher/Returns about what follows for the
--   workers, Dispatcher/Shutdown, Dispatcher/Terminates and Dispatcher/Blocked about the end of the
--   dispatcher, Dispatcher/Losing about events that the clean-up loses,
--   Dispatcher/Working and Dispatcher/Queued about the dispatcher before a shutdown.
--   ServiceRegistry/System: the dispatcher, its workers and the registry in one state. System/Apart says
--   that the events of one namespace do not touch another, System/Logged what the workers have taken
--   (with System/Histories), System/Shown what the registry shows.
--   ServiceRegistry/Pipeline: main.go, the channel of 100 events before the dispatcher.
--   Pipeline/Received is about each step, Pipeline/Delivered about what arrives, Pipeline/Settles (with
--   Pipeline/Advances) about what still can.
--   Publication: a handler of services and the worker together, Publication/Created when a service is
--   created, Publication/Updated (over Publication/Visited) when it is updated, Publication/Withdrawn
--   when it is marked for deletion, Publication/Arrives with the channel and the dispatcher in between.
--   Operator: main.go, `run` up to the controllers as a chain of stages. Operator/Cause and
--   Operator/Exit are about its exit codes, Operator/Steps and Operator/Starting about what it starts
--   with, Operator/Crash about nil pointers. Operator/Ending is the end of `run`, as a step relation.
--
-- How code becomes definitions: a handler is a function to the list of the events it sends, in order,
-- and of its calls of wq.Done; the calls that `defer` puts off come last. A loop over a Go slice or map
-- is structural recursion over a list; for a map that the code itself has built, a `range` visits any
-- rearrangement of it. `tryResolveHostnames` recurs on the attempts left, of which `checkService`
-- allows 10, and decimal digits come by recursion on accessibility, so nothing runs out of fuel. Errors
-- are values. The dispatcher's steps interleave freely with those of the workers, each of which takes an
-- event from its channel of 25, comes to the end of handling it, or ends; the history of a worker records
-- what it was sent and what it has handled. The calls of one handling change the registry together, at its
-- end; they concern the worker's own namespace, so only a removed worker of the same namespace could see
-- the difference. The handlers' sends interleave with these steps; one waits while the channel of 100 is
-- full.
-- Pipeline/Settles recurs on a bound of the work that the events under way still make, which each of its
-- steps lowers. The answers of the cluster, the name service and SHA-256 are arguments.
--
-- The end of `run` is a relation between states of the signal, the two goroutines that close the exit
-- channel, and main; WatchForEvents and manager.Start are a step each. What the libraries return, the
-- temporary file of the AWS credentials included, is an argument.
--
-- Not modelled: logging, deadlines and sleeps; what controller-runtime, serego, YAML and the cloud SDKs
-- do; the effect of a cancelled context on the calls of a worker that still runs, which may then fail
-- where a reliable registry would not; amIInGKE and amIInEKS, whose answers are arguments.
pub mod Common
pub mod GoMap
pub mod Settings
pub mod Cluster
pub mod Startup
pub mod Controllers
pub mod ServiceRegistry
pub mod Publication
pub mod Operator
