-- ===== src/Lib.antt =====
-- A model of the Terraform provider for OpenShift Cluster Manager, with the theorems that make it
-- correct. The paths below are the repository's.
--
-- The provider's resources are handlers that Terraform calls with a plan and a saved state. A handler
-- validates the plan, sends requests to the OCM API, copies the answer into the state and saves it, or
-- adds diagnostics and returns early. The parts and where they are modelled:
--
--   Prelude       Booleans, integers, lists, maps and results, shared by all parts; Prelude/Text
--                 splits texts.
--   Common        provider/common: attribute values that are null, unknown or known (Attribute), the
--                 conversions that call the plugin framework (Framework, tfconversions.go), the patch
--                 tests of helpers.go (Patch), and the response of a handler (Response).
--   Sdk           the objects of the API that the provider reads, and the outcome of a request.
--   Client        actions on the history of requests, which the clients of the API are written in, and
--                 the loop over the pages of a list (Paging).
--   Handler       the handlers' own actions, which end with diagnostics.
--   Waiter        provider/common/cluster_waiter.go: the two waits and their polling loop;
--                 Waiter/Resource is provider/clusterwaiter.
--   MachinePool   provider/machinepool/classic: the state and the API's object (State), the zones
--                 (Zones, validateAZConfig), autoscaling, spot instances and taints (Scaling), the
--                 pool that Create builds (Builder), the copy into the state (Populate,
--                 populateState), and the handlers Create (with magicImport), Read and ImportState,
--                 Update and Delete. Server is the API they call.
--   HcpMachinePool
--                 provider/machinepool/hcp: the node pool of a cluster with a hosted control plane,
--                 in the same parts (State, Scaling, Populate, Builder, Immutable, and the handlers).
--                 Its Update runs the upgrade of the pool before it sends the patch.
--   Upgrade       provider/clusterrosa/classic/upgrade/cluster_upgrade.go (Policies, Versions, Gates)
--                 and upgradeClusterIfNeeded, validateUpgrade and scheduleUpgrade of
--                 provider/clusterrosa/classic/cluster_rosa_classic_resource.go (Cluster).
--                 Hosted is the same for provider/clusterrosa/hcp (ControlPlane, upgrade/upgrade.go
--                 and resource.go) and for provider/machinepool/hcp (NodePool, upgrade/upgrade.go and
--                 machine_pool_resource.go), which copy the classic code over other policies. A PoliciesClient
--                 says whose policies a request is about: the cluster's, its control plane's or a node
--                 pool's.
--   RosaCluster   provider/clusterrosa/classic/cluster_rosa_classic_resource.go: Delete with the wait
--                 for the cluster's end (Destroy), validateChannelGroupAndVersionChanges (Channel), and
--                 shouldPatchProperties with the patch of Update and ValidatePatchProperties of
--                 provider/clusterrosa/common/properties.go (Properties). Versions is
--                 provider/clusterrosa/common/types/cluster.go. Hosted is the same code of
--                 provider/clusterrosa/hcp/resource.go.
--   OcmCluster    internal/ocm/resource/cluster.go: the cluster that is created (Nodes, Aws), and the
--                 pattern of a role (Arn).
--   IdentityProvider
--                 provider/identityprovider/htpasswd.go: the validator of unique names and the maps
--                 of users (Users), and UpdateHTPasswd with the loops of
--                 provider/identityprovider/htpasswd (Htpasswd).
--   Autoscaler    provider/autoscaler/hcp (State, Handlers), and provider/autoscaler/validators.go
--                 (Validators).
--   MutexKv       provider/common/mutex.go: Lock, Unlock and get as a step relation.
--   Samples       what the tests of several parts run on.
--
-- Numbers: int64 attributes and Go's 64-bit int are unbounded integers where the code only copies,
-- compares and takes remainders of them by 3. The timeout of a deletion is multiplied into a
-- time.Duration, which wraps around in an int64 (timeout_in_minutes of RosaCluster/Destroy); the same
-- product of the waits in provider/common is inside the client's Poll. A float64 is its bits.
--
-- State and effects: a handler is an action on the history of the requests sent so far, newest first.
-- An answer of the API may depend on the whole history, so that no two answers are tied to each other.
-- An action ends with a value or with the list of diagnostics it returns with. Diagnostics are kept by
-- summary and severity; their formatted details are not modelled, and neither is logging. The
-- requests of an upgrade inside another handler are put on that handler's history. Where the code
-- reads a field of a nil pointer, the handler ends with a diagnostic of its own.
--
-- Threads: the map of locks is shared by any number of threads. Each acquisition or release of a lock
-- and each access of the map is a step of one thread, and the steps come in any order.
--
-- Fuel: the polling loop runs on fuel. Its three attempts are used up by the polls that fail, and a
-- poll that succeeds ends it, if the client polls as documented: fuel 3 is enough. The listings of
-- upgrade policies and of versions run on fuel, one for each page
-- of 100; `upgrade_fuel` is that of a handler which runs an upgrade.
--
-- Parameters: the plugin framework's conversions (Framework, with IsStandard for what it documents),
-- the client's Poll (with Stops), the API's answers, Build and Empty of the client's builders (with
-- Builds and SeesFields), versions as the package go-version parses and compares them (Semver), the
-- clock, the order in which Go ranges over a map, the version and commit of
-- the build, and the validations of ocm-common (disk sizes, zones, replicas, keys).
--
-- Not modelled: schemas and their plan modifiers, the configuration of the provider, logging, the
-- data sources, and the other resources of provider/.
pub mod Prelude
pub mod Common
pub mod Sdk
pub mod Client
pub mod Handler
pub mod Waiter
pub mod MachinePool
pub mod Samples
pub mod Upgrade
pub mod HcpMachinePool
pub mod OcmCluster
pub mod IdentityProvider
pub mod RosaCluster
pub mod Autoscaler
pub mod MutexKv
