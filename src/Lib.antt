-- ===== src/Lib.antt =====
-- The lifecycle manager of Kyma: a controller manager that installs the modules which a Kyma
-- resource on the control plane (KCP) names into a Kyma runtime (SKR), and removes them again.
--
-- The parts and their files:
--   Prelude     names of the libraries, Boolean tests on numbers, lists, membership, maps with text
--               keys.
--   Errors      Go's error values with errors.Is and errors.Join (Defs), and pkg/util/error.go, which
--               says of an error whether it means "not found" or a broken connection (Classify).
--   Api         api/v1beta2 and api/shared: States (State, labels, channels), Meta (metadata,
--               conditions), Kymas, Manifests, Modules; KymaStates is about DetermineState.
--   Deletion    internal/service/kyma/deletion: the loop of Delete, the order check of NewService
--               (Defs), the twelve use cases and cmd/composition/service/kyma/deletion (UseCases),
--               and processDeletion of internal/controller/kyma/controller.go (Controller). View is
--               an abstract machine of the deletion.
--   Windows     maintenancewindows/resolver (Time, Policy) and internal/maintenancewindows (Active).
--   Manifests   internal/controller/manifest/controller.go (Endings, Steps,
--               Install, Delete, Reconcile) and what it calls:
--               internal/manifest/status and finalizer (Status), internal/manifest/modulecr
--               (ModuleCrs), internal/pkg/resources and internal/manifest/skrresources (Resources,
--               Cleanup), internal/service/manifest/orphan (Steps), pkg/queue (Requeue). Env is
--               their surroundings.
--   Templates   pkg/templatelookup: moduleinfo.go (Infos), regular.go (Lookup), with
--               internal/service/restrictedmodule/match.go, and moduletemplateinfolookup with
--               modulereleasemeta.go (Strategy).
--   Modules     pkg/module: common/module.go (Defs, Names) and sync/runner.go (Sync, Runner).
--   Statuses    internal/service/kyma/status/modules: generator (Generate), handler.go (Update).
--   Kymas       internal/controller/kyma/controller.go (Processing, Removal, Remote, Deleting,
--               Reconcile) and what it calls: pkg/status and the conditions of the Kyma
--               (Conditions, Status), internal/pkg/metrics/kyma.go and the surroundings (Env).
--   StateChecks internal/manifest/statecheck, by which the Manifest controller sets the state.
--   Images      internal/imagerewrite/rewrite.go: the references of images and their rewriting.
--   Certificates internal/service/watcher/certificate (Bundles, Renewal), internal/gatewaysecret and
--               internal/controller/istiogatewaysecret (Gateway).
--   Catalog     internal/remote: which templates and release metas a Kyma sees (Selection), the
--               syncers with their workers and internal/util/collections (Sync), remote_catalog.go
--               (Remote).
--   Samples     concrete objects that the tests of several parts use.
-- The Kyma controller looks up the template of each module (Templates), makes a manifest of each,
-- runs the sync runner on them (Modules), updates the statuses of the modules (Statuses), and sets
-- the state of the Kyma by them. For a Kyma that is deleted it calls the deletion service, whose
-- use cases delete the Manifests; the Manifest controller then removes the resources of each
-- module from the runtime, and the Manifest with its last finalizer. The last use case waits for
-- that.
--
-- State. The deletion service works on a world W, a parameter, through the repositories, which are
-- the fields of Deletion.UseCases.Repos; a read gives a value or an error, a write a new world and
-- perhaps an error. The Manifest controller works on the Manifest in memory and on the list of the
-- calls that it has made; what the two clusters, the registry and the caches answer is a function
-- of those calls (Manifests.Env.Env), so that every behaviour of them is covered that is a
-- function of the history. Early returns of Go are the constructor stop of Step. The Kyma
-- controller works in the same way on the Kyma in memory and its calls (Kymas.Env.KymaSt), with
-- the answers of Kymas.Env.KymaEnv and the monad K of state and errors. The sync runner passes its
-- calls on as well (Modules.Sync.Sync). Kyma.Status.Modules is a Slice in the handler of the
-- statuses: the entries behind the pointers, those that were appended, and the capacity that is
-- left. The gateway secret and the runtime's catalog change by the calls that are returned in their
-- order; the catalog's client answers by the calls made before. A reconciliation of the gateway
-- secret reads the time from Certificates.Gateway.Clock.
--
-- Parameters. Code of other repositories is a parameter: the error predicates of client-go
-- (ErrorLib), controllerutil and apimachinery's conditions (Machinery), semver and selectors
-- (Templates.Lookup.Source), the reader and the component identities of the lookup
-- (Templates.Strategy.Reader), the client and the conversions of the state checks
-- (StateChecks.Defs.Client), the parser of image references (Images.Defs.ImageLib), the API
-- servers, the fnv hash and the digits of a number in the names of modules, encoding/pem, crypto/x509
-- and the format of times in annotations (Certificates.Bundles.Pem, Certificates.Gateway.GatewayLib),
-- with the laws that what is encoded is decoded again. Catalog.Server.Carries says of the API server
-- of a runtime that it tells objects apart by namespace and name and carries out each call.
-- Deletion.Convergence.Behaves says that no call fails, and what the API servers and the other
-- controllers do until the next reconciliation: they complete the deletion asked for, which may take
-- until then, and a Kyma goes with its CRD.
--
-- Bounds. NextWindow looks eight days ahead, as the code does. The times of windows are natural
-- numbers of seconds on the clock of their zone, days have 24 hours, and a Time has one offset to
-- UTC; the times of certificates are natural numbers of nanoseconds.
-- Deletion.Rounds runs twelve reconciliations, one for each use case. The loop over a PEM bundle has
-- as many rounds as the bundle has bytes, which is enough because each round takes a byte at least.
--
-- Simplifications. Goroutines that delete resources or reconcile manifests run in the order of
-- their list, and so do those that apply or delete the objects of the catalog. DropExpiredCerts
-- reads the time once for all certificates. The goroutines of handleProcessingState run as wholes,
-- in any of their six orders. The sync runner and the parser enter the Kyma controller as answers of
-- its environment. Arguments that are formatted into the texts of errors are left out, and so are
-- logging, events, and the times of operations and transitions.
--
-- Not modelled: mandatory modules, the CRDs and the pull secret that are copied to the runtime, the
-- webhook of the watcher, the parser of manifests and of component descriptors, the rendering, the
-- repositories, the set-up, and generated code.
pub mod Prelude
pub mod Errors
pub mod Api
pub mod Deletion
pub mod Windows
pub mod Manifests
pub mod Templates
pub mod Modules
pub mod Statuses
pub mod StateChecks
pub mod Images
pub mod Certificates
pub mod Catalog
pub mod Samples
pub mod Kymas
