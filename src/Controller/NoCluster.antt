-- ===== src/Controller/NoCluster.antt =====
-- A Site that wants a database where no cluster is known.
use site_operator.Common.{true, none, some, ◌≡◌, refl, ◌∙◌, ap, String}
use site_operator.Common.Outcome.{ok, err}
use site_operator.Api.Site.{Site}
use site_operator.Kube.Objects.{Kind}
use site_operator.Kube.Library.{Library, OwnerLaws}
use site_operator.Kube.Action.{◌>>=◌}
use site_operator.Kube.Client.{Client}
use site_operator.Kube.Server.{Server, ServerLaws, Frame}
use site_operator.Helpers.{provision_enabled, site_secret}
use site_operator.Secret.{Entropy}
use site_operator.Provision.{resolve_maria_db_ref, reconcile_database_provision, no_cluster}
use site_operator.Provision.Cluster.{first_named, named, own_ref, resolve_maria_db_ref_cases}
use site_operator.Controller.{SiteReconciler, reconcile_objects}
use site_operator.Controller.Converge.Ensure.{Ours, Is}
use site_operator.Controller.Converge.Shapes.{key, IsSecretOf}
use site_operator.Controller.Converge.Objects.{secret-Done}

-- At an API server that answers, the work on a Site that wants a database, where neither the Site
-- nor the operator names a cluster and the name of the Secret is free or the Site's own, ends in the
-- error that says so. The Secret is then complete, and nothing else was touched.
pub reconcile_objects-no_cluster :
    (lib : Library)
    → OwnerLaws lib
    → (site : Site) {c : Client} (s : Server c) → ServerLaws s
    → (r : SiteReconciler) (hash : String → String) (e : Entropy) (w : c.World)
    → provision_enabled site ≡ true
    → first_named (named (own_ref site)) (named r.default_maria_db_ref) ≡ none
    → s.Serves w
    → Ours lib s site Kind.secret (key lib site (site_secret site)) w
    → (w' : c.World) × (reconcile_objects lib c r hash e site w ≡ (err no_cluster, w'))
      × Is (IsSecretOf lib site) (s.stored Kind.secret (key lib site (site_secret site)) w')
      × Frame s Kind.secret (key lib site (site_secret site)) w w'
unfolding reconcile_objects reconcile_database_provision ◌>>=◌ no_cluster
reconcile_objects-no_cluster lib laws site {c} s sl r hash e w wanted unnamed up ours =
    let d = secret-Done lib laws site s sl w up e ours in
    let unresolved : resolve_maria_db_ref site r.default_maria_db_ref ≡ err no_cluster =
      resolve_maria_db_ref_cases site r.default_maria_db_ref wanted
      ∙ ap (λ o. elim o [ some q ↦ ok q | none ↦ err no_cluster ]) unnamed in
    (
      d.after,
      rw (d.succeeds, reconcile_objects, ◌>>=◌)
          (rw (wanted, reconcile_database_provision) (rw (unresolved, ◌>>=◌) refl)),
      d.good,
      d.frame,
    )
