-- ===== src/Tests/Passes.antt =====
-- A whole run of Reconcile on the cluster in memory.
use site_operator.Common.{String, true, none, some, ◌≡◌, refl, ◌<>◌, arith}
use site_operator.Common.Int.{pos}
use site_operator.Common.Outcome.{ok, panic}
use site_operator.Api.Site.{Site, PersistenceSpec}
use site_operator.Kube.Meta.{Key, object_key}
use site_operator.Kube.Objects.{Kind}
use site_operator.Provision.{resolve_maria_db_ref}
use site_operator.Helpers.{provision_enabled}
use site_operator.Deployment.Config.{text_or}
use site_operator.Pvc.{managed_persistence}
use site_operator.Controller.{SiteReconciler, reconcile, reconcile_objects}
use site_operator.Controller.Converge.Stages.{Granted, Grants, AllOurs}
use site_operator.Controller.Converge.Created.{Claimed}
use site_operator.Controller.Converge.Shapes.{key, front_wishes, wishes}
use site_operator.Controller.Converge.Pass.{Resolves}
use site_operator.Controller.Converge.Claim.{SizeParses, objects-Grants, reconcile_objects-Grants}
use site_operator.Controller.Report.{Reports}
use site_operator.Controller.Malformed.{reconcile-malformed}
use site_operator.Controller.EndToEnd.{reconcile-Converges}
use site_operator.Tests.Fixtures.{full_site, full_spec, own_cluster, zero_entropy}
use site_operator.Tests.Owners.{small_library, small_owners, small_errors}
use site_operator.Tests.Conditions.{small_conditions}
use site_operator.Tests.Memory.{Cluster, found, memory, memory_server}
use site_operator.Tests.Answers.{memory_laws}
use site_operator.Tests.SiteOnly.{site_only, site_only-site, site_only-AllOurs}

abbrev pub operator : SiteReconciler
operator = record { default_maria_db_ref = none; default_storage_class_name = "standard" }

abbrev pub hash : String → String
hash s = "digest-" <> s

abbrev pub start : Cluster
start = site_only full_site

abbrev pub full_key : Key
full_key = object_key full_site.meta

pub start-site : found Kind.site full_key start ≡ some full_site
start-site = site_only-site full_site refl

pub resolves : Resolves full_site none own_cluster
unfolding provision_enabled resolve_maria_db_ref
resolves = refl

pub parses : SizeParses small_library (managed_persistence full_site.spec.persistence)
unfolding managed_persistence
parses = (record { unscaled = pos 10; scale = pos 0 }, refl)

pub ours :
    AllOurs small_library full_site memory_server
      (wishes small_library full_site hash own_cluster)
      start
unfolding provision_enabled
ours =
    site_only-AllOurs full_site small_library (wishes small_library full_site hash own_cluster)
      (ground arith)

abbrev claim_key : Key
claim_key = key small_library full_site (full_site.meta.name <> "-data")

reconcile_objects-Grants_example :
    (g : Grants memory_server start
      (reconcile_objects small_library memory operator hash zero_entropy full_site start)
      (wishes small_library full_site hash own_cluster))
    × Claimed full_site "standard"
        (found Kind.pvc claim_key start)
        (found Kind.pvc claim_key g.after)
reconcile_objects-Grants_example =
    reconcile_objects-Grants small_library small_owners small_errors full_site memory_server
      memory_laws operator hash zero_entropy own_cluster resolves parses start tt ours

reconcile-Converges_example :
    (worked w' : Cluster) × (reconcile small_library memory operator hash zero_entropy full_key
        start
      ≡ (ok tt, w'))
    × Granted memory_server (wishes small_library full_site hash own_cluster) w'
    × Claimed full_site "standard" (found Kind.pvc claim_key start) (found Kind.pvc claim_key w')
    × Reports memory_server full_site worked none w'
reconcile-Converges_example =
    reconcile-Converges small_library small_owners small_errors small_conditions memory_server
      memory_laws operator hash zero_entropy own_cluster full_key full_site start tt start-site
      resolves parses ours

abbrev pub objects_done :
    Grants memory_server start
      (reconcile_objects small_library memory operator hash zero_entropy full_site start)
      (wishes small_library full_site hash own_cluster)
objects_done =
    objects-Grants small_library small_owners small_errors full_site memory_server memory_laws
      operator hash zero_entropy own_cluster resolves parses start tt ours

-- A size that is no quantity.
abbrev bad_persistence : PersistenceSpec
bad_persistence = record {
  enabled = true;
  existing_claim = "";
  size = "lots";
  storage_class_name = none;
}

abbrev bad_site : Site
bad_site = record full_site { spec = record full_spec { persistence = some bad_persistence } }

bad_size : small_library.parse_quantity (text_or "1Gi" "lots") ≡ none
bad_size = refl

managed_bad : managed_persistence bad_site.spec.persistence ≡ some bad_persistence
unfolding managed_persistence
managed_bad = refl

bad_start-site : found Kind.site full_key (site_only bad_site) ≡ some bad_site
bad_start-site = site_only-site bad_site refl

bad-Resolves : Resolves bad_site none own_cluster
unfolding provision_enabled resolve_maria_db_ref
bad-Resolves = refl

bad_ours :
    AllOurs small_library bad_site memory_server
      (front_wishes small_library bad_site hash own_cluster)
      (site_only bad_site)
unfolding provision_enabled
bad_ours =
    site_only-AllOurs bad_site small_library (front_wishes small_library bad_site hash own_cluster)
      (ground arith)

reconcile-malformed_example :
    (t : String) × (worked w' : Cluster) × (reconcile small_library memory operator hash
        zero_entropy full_key
        (site_only bad_site)
      ≡ (panic t, w'))
    × Granted memory_server (front_wishes small_library bad_site hash own_cluster) w'
    × (found Kind.pvc claim_key w' ≡ found Kind.pvc claim_key (site_only bad_site))
    × Reports memory_server bad_site worked none w'
reconcile-malformed_example =
    reconcile-malformed small_library small_owners small_errors small_conditions memory_server
      memory_laws operator hash zero_entropy own_cluster full_key bad_site bad_persistence
      (site_only bad_site) tt bad_start-site bad-Resolves managed_bad bad_size bad_ours
