-- ===== src/Lib.antt =====
-- Verification of site-operator, a Kubernetes operator for WordPress sites written in Go.
--
-- A Site (api/v1alpha1/site_types.go) describes one WordPress site. For each request the controller
-- (internal/controller) reads the Site, writes the objects that it wants one after another (Secret,
-- MariaDB objects, ConfigMaps and Deployment, Service, Ingress, claim), and at the end, on every way
-- out, writes the Site's status conditions. The same binary runs once on a schedule to trigger
-- wp-cron.php of every Site (cmd/wpcron.go).
--
-- Files and code:
--   Common: tests, lists, maps as association lists, texts, numbers, and Go's results as values:
--     Outcome is a value, an error or a panic.
--   Api/Site, Api/Validation, Api/Defaults: the types of api/v1alpha1/site_types.go, the validation
--     rule on the credentials and the defaults of its markers. A pointer is an Option.
--   Api/DeepCopy: api/v1alpha1/zz_generated.deepcopy.go over a heap, where structs hold addresses.
--     Heap has the memory, Into and New the methods, Shows and Sound what an address leads to; Copies,
--     Slices and Deep build up copies, and Separate is about those of a Site and of a list.
--   Kube: what the operator uses of Kubernetes. Meta, Pod and Objects are the fields it reads or
--     sets. Library holds the pure functions of apimachinery and controller-runtime, and Client the
--     API client over an unknown World, as parameters, with their documented behaviour as records of
--     laws (OwnerLaws, ErrorLaws, ConditionLaws; Server has those of an API server that answers and
--     that nobody else writes to). Action is a call that changes the World and ends in an Outcome;
--     what was written before an error stays written. Owned is deleteOwnedPVC and its twin for an
--     Ingress; Keeps is about properties that calls keep.
--   Helpers: internal/controller/helpers.go, provisionEnabled and provisionedUsername. Helpers/Names
--     is about the names of variables, Helpers/Own has the names of a Site's objects.
--   Secret: internal/controller/secret.go; rand.Read is a parameter that may fail. Keys, Strength,
--     Base64 and Fresh are about the keys, their lengths, their encoding and the bytes they come from.
--   Provision: the rest of internal/controller/provision.go; Cluster and Username are its theorems.
--   Deployment: internal/controller/deployment.go, with Config, Scripts and Containers; SHA-256 is a
--     parameter. Checksum is about the configuration's hash.
--   Service, Ingress, Pvc: the files of these names in internal/controller; Pvc/Claim is about a
--     claim that exists and about a malformed size.
--   Status: internal/controller/status.go; Verdict says what the conditions should be, Rollout says
--     it without the code's own tests, and Times is about their transition times.
--   Controller: Reconcile and updateSiteStatus of internal/controller/site_controller.go, with the
--     deferred call. Safety is about any server, Independent about one without mariadb-operator,
--     Permissions about one that refuses what the RBAC markers do not allow, Spares about what is not
--     the Site's, Report about the status, and Histories about requests for several Sites; Converge,
--     EndToEnd, Twice, NoCluster, Refused and Malformed are about a server that answers.
--     Converge/Shapes says what the cluster should hold, and Converge/Created what a claim is made
--     with; Rest and Again are about a cluster that holds it already.
--   Manager: cmd/main.go and SetupWithManager, with controller-runtime's calls as parameters.
--     CommandLine has the flags, Servers the options of the two servers, Watches what is watched and
--     what is not cached, Types what the scheme knows; Exits, Follows and Defaults are about the
--     process, the kinds and the default MariaDB cluster. Api/Group is groupversion_info.go.
--   WpCron: cmd/wpcron.go; a GET of a URL is a parameter. Runs is about the runs.
--   Wiring: where the parts must agree: variables and the Secret, ports, volumes, TLS, the URL of the
--     wp-cron run, and the code's own fallbacks with the defaults.
--   Tests: a small library (Owners, Conditions), a cluster in memory (Memory, Answers) and a
--     recording client (Runs), at which the theorems are applied.
--
-- There is no fuel: the loops run over lists. The integers of the source are only compared or
-- written, so they are ℤ with no wrap-around.
--
-- Not modelled: the logger and its flags, the flag kubeconfig of controller-runtime, contexts and time limits, the fields of Kubernetes objects
-- that the operator neither reads nor sets (so that a callback that changes no modelled field counts
-- as one that changes nothing), and the conflicts behind RetryOnConflict beyond that a call without a
-- conflict is not repeated and that nothing happens between two attempts.
pub mod Common
pub mod Api
pub mod Kube
pub mod Helpers
pub mod Secret
pub mod Provision
pub mod Deployment
pub mod Service
pub mod Ingress
pub mod Pvc
pub mod Status
pub mod Controller
pub mod Manager
pub mod WpCron
pub mod Wiring
pub mod Tests
