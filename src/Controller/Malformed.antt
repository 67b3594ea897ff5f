-- ===== src/Controller/Malformed.antt =====
-- A whole run of Reconcile for a Site whose claim has a malformed size.
use site_operator.Common.{String, none, some, [], ◌∷◌, ◌≡◌, sym, ap, ◌∙◌, ◌<>◌, subst, arith}
use site_operator.Common.Outcome.{Outcome, panic}
use site_operator.Api.Site.{Site, PersistenceSpec, MariaDbClusterRef}
use site_operator.Kube.Meta.{Key, object_key}
use site_operator.Kube.Objects.{Kind}
use site_operator.Kube.Action.{◌>>=◌, continue}
use site_operator.Kube.Library.{Library, OwnerLaws, ErrorLaws, ConditionLaws}
use site_operator.Kube.Client.{Client}
use site_operator.Kube.Server.{Server, ServerLaws}
use site_operator.Secret.{Entropy}
use site_operator.Deployment.Config.{text_or}
use site_operator.Pvc.{managed_persistence, reconcile_pvc}
use site_operator.Pvc.Claim.{reconcile_pvc-malformed}
use site_operator.Controller.{SiteReconciler, reconcile, reconcile_objects}
use site_operator.Controller.Converge.Stages.{Granted, AllOurs, Granted-others}
use site_operator.Controller.Converge.Shapes.{key, front_wishes}
use site_operator.Controller.Converge.Pass.{Resolves, front-Stage}
use site_operator.Controller.Report.{Reports, reconcile-Reports}
use site_operator.Controller.EndToEnd.{site_wish}

-- At an API server that answers and that nobody else writes to, a request for a stored Site that
-- wants a claim of the operator's whose size is no quantity, whose database has a cluster and whose
-- other names are free or its own, ends in a panic. All objects but the claim are then as the Site
-- wants them, the claim is as it was, and the status says of the Deployment found what the verdict
-- says when there is no error.
pub reconcile-malformed :
    (lib : Library)
    → OwnerLaws lib
    → ErrorLaws lib
    → ConditionLaws lib
    → {c : Client} (s : Server c) → ServerLaws s
    → (r : SiteReconciler) (hash : String → String) (e : Entropy) (ref : MariaDbClusterRef)
      (n : Key) (site : Site) (p : PersistenceSpec) (w : c.World)
    → s.Serves w
    → s.stored Kind.site n w ≡ some site
    → Resolves site r.default_maria_db_ref ref
    → managed_persistence site.spec.persistence ≡ some p
    → lib.parse_quantity (text_or "1Gi" p.size) ≡ none
    → AllOurs lib site s (front_wishes lib site hash ref) w
    → let m = key lib site (site.meta.name <> "-data") in
      (t : String) × (worked w' : c.World) × (reconcile lib c r hash e n w ≡ (panic t, w'))
      × Granted s (front_wishes lib site hash ref) w'
      × (s.stored Kind.pvc m w' ≡ s.stored Kind.pvc m w)
      × Reports s site worked none w'
unfolding reconcile_objects ◌>>=◌
reconcile-malformed lib laws errors conditions {c} s sl r hash e ref n site p w up there resolves
      managed bad ours =
    let default = r.default_storage_class_name in
    let m = key lib site (site.meta.name <> "-data") in
    let a = front-Stage lib laws errors site s sl r hash e ref resolves w up ours in
    let (t, stops) = reconcile_pvc-malformed lib s sl site default p a.after a.serves managed bad in
    let worked : reconcile_objects lib c r hash e site w ≡ (panic t, a.after) =
      ap
        (λ (q : Outcome (Unit {0}) × c.World).
          continue q.0 (λ _. reconcile_pvc lib c site default) q.1)
        a.succeeds
      ∙ stops in
    let same : object_key site.meta ≡ n = sl.stored_key Kind.site n w site there in
    let still : s.stored Kind.site (object_key site.meta) a.after ≡ some site =
      a.others Kind.site (object_key site.meta) (ground arith)
      ∙ subst (λ m. s.stored Kind.site m w ≡ some site) (sym same) there in
    let (w', ran, reports) =
      reconcile-Reports lib conditions s sl r hash e n w w a.after site site (panic t)
        (sl.get_found Kind.site n w site up there) worked a.serves still in
    (
      t,
      a.after,
      w',
      ran,
      Granted-others s a.after w' (front_wishes lib site hash ref)
          (site_wish (object_key site.meta) ∷ []) (λ k m apart. reports.frame k m apart.0)
          (ground arith) a.granted,
      reports.frame Kind.pvc m (ground arith) ∙ a.others Kind.pvc m (ground arith),
      reports,
    )
