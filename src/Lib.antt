-- ===== src/Lib.antt =====
-- virtrigaud is a Kubernetes operator that manages virtual machines on several hypervisors. Its manager
-- reconciles custom resources and calls one gRPC provider per hypervisor. This library models how a
-- virtual machine is created, kept in its desired state, cloned and deleted, how a migration of one between
-- providers is validated, carried out, failed, retried, cleaned up and deleted, and how the calls of a
-- provider are protected and retried.
--
-- The parts, and how they interact:
--   Contracts/Errors           internal/providers/contracts/errors.go: the errors that all parts exchange.
--   Resilience/Breaker         internal/resilience/circuitbreaker.go: CircuitBreaker with allowCall,
--                              recordResult, Call and Reset. Each method that takes the lock is one
--                              function; an interleaving of callers is a list of these steps.
--   Resilience/Registry        the same file: Registry, which shares breakers by pointer.
--   Resilience/Retry           internal/resilience/retry.go: Retry, calculateDelay, IsRetryable.
--   Resilience/Policy          the same file: RetryableCall, Policy and PolicyBuilder, which put the breaker
--                              around each attempt of Retry.
--   Transport/Status           internal/transport/grpc/client.go: isInfraFailure and mapGRPCError, which
--                              turn what a provider answers into the errors that Retry and the controllers
--                              look at.
--   Transport/Breaker          providerCircuitBreakerInterceptor, which wraps each RPC in the breaker.
--   Transport/Tasks            trackTaskStart and trackTaskDone with their gauge.
--   K8s/Conditions             internal/k8s/conditions.go and internal/util/k8s/conditions.go: the condition
--                              lists that the migration controller reads back as its durable guard.
--   Machine/Types              api/infra.virtrigaud.io/v1beta1: the fields of VirtualMachine, VMClass, VMImage and
--                              VMNetworkAttachment that the VirtualMachine controller uses.
--   Machine/Env                the answers that one reconcile of a VM meets, and the calls that it makes.
--   Machine/Request            internal/controller/virtualmachine_controller.go: buildCreateRequest by its
--                              parts, and internal/controller/cloudinit.go.
--   Machine/Dependencies       getDependencies.
--   Machine/Resources          needsReconfigure, updateCurrentResources and getRequeueInterval.
--   Machine/Prepare            internal/controller/virtualmachine_image_prepare.go: EnsureImageOnProvider.
--   Machine/Creating           buildCreateRequest as a whole, and createVM.
--   Machine/Running            adjustPowerState, reconfigureVM and the end of reconcileVM.
--   Machine/Deletion           handleDeletion.
--   Machine/Reconcile          Reconcile and reconcileVM, in stages that end it or let it go on.
--   Machine/Once               rounds of reconciles, each of which meets what the one before it has stored,
--                              and the clone and adoption controllers' VMs in them.
--   Cloning                    internal/controller/vmclone_controller.go: Target builds the VM and ends a
--                              reconcile, Binding clones and binds, Reconcile dispatches, Once has rounds of
--                              reconciles. The VM that it makes is a Machine, which the VirtualMachine
--                              controller reconciles too.
--   Migration/Types            api/infra.virtrigaud.io/v1beta1: the fields of VMMigration and Provider that
--                              the handlers use.
--   Migration/Gate             internal/storage/migration/backend.go, and gateMigrationStorageBackend with
--                              its helpers of internal/controller/vmmigration_controller.go.
--   Migration/Machines         the fields of VirtualMachine that the handlers use, and the calls they make.
--   Migration/Phases           which phase may follow which.
--   Migration/Failed           transitionToFailed, handleFailedPhase with its backoff, and the part of
--                              Reconcile that handles an object in the phase Failed, for any handlers of
--                              the other phases.
--   Migration/Validating       handlePendingPhase and handleValidatingPhase.
--   Migration/PowerOff         ensureSourcePoweredOff, on which the validation waits.
--   Migration/StorageConfig    validateStorageConfig, for any policy of the hosts that may be reached.
--   Migration/Mount            migrationProvidersMounted with providerMountReady.
--   Migration/Snapshotting     handleSnapshottingPhase.
--   Migration/Guard            longOpInFlight and gateProviderCapability, which the next two share.
--   Migration/Exporting        handleExportingPhase.
--   Migration/ImportRequest    the request that handleImportingPhase sends.
--   Migration/Importing        handleImportingPhase, handleTransferringPhase
--                              and handleConvertingPhase.
--   Migration/Creating         handleCreatingPhase and handleValidatingTargetPhase.
--   Migration/Cleanup          handleReadyPhase, cleanupIntermediateStorage, deleteSourceSnapshot and
--                              deleteSourceVM.
--   Migration/Deletion         handleDeletion.
--   Migration/Reconcile        Reconcile with its dispatch on the phase, the graph of the phases, and runs
--                              of reconciles, each of which meets what the one before it has stored.
--   Migration/StatusUpdate     updateStatus, the status write of all handlers.
--   Migration/StagingKey       the object names that generateStorageURL builds for each storage backend.
--   Migration/Once             any sequence of passes of the two handlers in one manager process.
--   Providers/Mock             internal/providers/mock/provider.go: the provider of tests and demos, whose
--                              goroutines are jobs that run at any later time.
--   Sdk                        sdk/provider/errors/errors.go: the errors of provider services, and what
--                              the manager's client makes of them.
--   Prelude                    Boolean tests, lists, texts, maps with string keys and 64-bit words.
--
-- Conventions. A method that changes its receiver returns the new one. Every call of the API server, a
-- provider, the clock, the random generator or the context is an argument that stands for its answer, so
-- each error return is a branch of the model. Logging, events and tracing are left out. A pointer is an
-- optional value, or an index into a heap where it is shared. An `int` counter is a natural number; the
-- counters of the breaker grow by one per event at most. Durations are int64 bit patterns, with
-- wrap-around and signed comparison written out. Retry's loop is recursion on MaxAttempts, and the digits
-- of a number are produced with one more unit of fuel than the number, which is never used up.
--
-- Parameters. float64 arithmetic is the record Floats; the function that is retried, the random numbers
-- and the wait act on a state of the caller's choice; the package google.golang.org/grpc/status is the
-- record StatusApi with the documented behaviour of FromError and Code on status errors.
--
-- In Machine/Prepare and Cloning/Binding, retry.RetryOnConflict is one answer, the object that it read and
-- wrote at last, and meta.SetStatusCondition and the JSON texts are functions of the environment.
--
-- Not modelled: the controllers of snapshots, sets, adoption and providers, the other providers, the
-- transfer of disks, and the configuration, commands and manifests; that circuit breakers of different
-- names for one provider share a metric; and the escapes of %q in messages. loadS3Credentials,
-- ensureMigrationPVC and the host policy of internal/storage/migration/addrpolicy.go are answers that the
-- validation takes. The migration that a handler returns is the object in memory; the calls by which a
-- handler changes something outside it are a list, the last one first.
pub mod Prelude
pub mod Contracts
pub mod Resilience
pub mod K8s
pub mod Cloning
pub mod Machine
pub mod Migration
pub mod Transport
pub mod Providers
pub mod Sdk
