-- ===== src/Controller/EndToEnd.antt =====
-- One whole run of Reconcile that nothing disturbs.
use site_operator.Common.{String, Option, none, some, ◌<>◌, [], ◌∷◌, ◌≡◌, sym, ◌∙◌, subst, arith}
use site_operator.Common.Outcome.{ok}
use site_operator.Api.Site.{Site, MariaDbClusterRef}
use site_operator.Kube.Meta.{Key, object_key}
use site_operator.Kube.Objects.{Kind, PersistentVolumeClaim}
use site_operator.Kube.Library.{Library, OwnerLaws, ErrorLaws, ConditionLaws}
use site_operator.Kube.Client.{Client}
use site_operator.Kube.Server.{Server, ServerLaws}
use site_operator.Secret.{Entropy}
use site_operator.Pvc.{managed_persistence}
use site_operator.Controller.{SiteReconciler, reconcile}
use site_operator.Controller.Converge.Stages.{Wish, Granted, AllOurs, Granted-others}
use site_operator.Controller.Converge.Created.{Claimed}
use site_operator.Controller.Converge.Shapes.{key, wishes}
use site_operator.Controller.Converge.Pass.{Resolves}
use site_operator.Controller.Converge.Claim.{SizeParses, reconcile_objects-Grants}
use site_operator.Controller.Report.{Reports, reconcile-Reports}

abbrev pub site_wish : Key → Wish
site_wish n = record { kind = Kind.site; name = n; Holds = λ o. Unit }

-- At an API server that answers and that nobody else writes to, a request for a stored Site whose
-- names are free or its own, whose database has a cluster and whose claim has a size, succeeds.
-- Afterwards all objects are as the Site wants them, its claim among them: a new one has the access
-- mode and the storage class that the Site and the operator ask for, and one that was there keeps
-- its access modes and its class. The status says of the Deployment found what the verdict says when
-- there is no error.
pub reconcile-Converges :
    (lib : Library)
    → OwnerLaws lib
    → ErrorLaws lib
    → ConditionLaws lib
    → {c : Client} (s : Server c) → ServerLaws s
    → (r : SiteReconciler) (hash : String → String) (e : Entropy) (ref : MariaDbClusterRef)
      (n : Key) (site : Site) (w : c.World)
    → s.Serves w
    → s.stored Kind.site n w ≡ some site
    → Resolves site r.default_maria_db_ref ref
    → SizeParses lib (managed_persistence site.spec.persistence)
    → AllOurs lib site s (wishes lib site hash ref) w
    → (worked w' : c.World) × (reconcile lib c r hash e n w ≡ (ok tt, w'))
      × Granted s (wishes lib site hash ref) w'
      × Claimed site r.default_storage_class_name
          (s.stored Kind.pvc (key lib site (site.meta.name <> "-data")) w)
          (s.stored Kind.pvc (key lib site (site.meta.name <> "-data")) w')
      × Reports s site worked none w'
reconcile-Converges lib laws errors conditions {c} s sl r hash e ref n site w up there resolves
      sized ours =
    let (g, claimed) =
      reconcile_objects-Grants lib laws errors site s sl r hash e ref resolves sized w up ours in
    let same : object_key site.meta ≡ n = sl.stored_key Kind.site n w site there in
    let still : s.stored Kind.site (object_key site.meta) g.after ≡ some site =
      g.others Kind.site (object_key site.meta) (ground arith)
      ∙ subst (λ m. s.stored Kind.site m w ≡ some site) (sym same) there in
    let (w', ran, reports) =
      reconcile-Reports lib conditions s sl r hash e n w w g.after site site (ok tt)
        (sl.get_found Kind.site n w site up there) g.succeeds g.serves still in
    (
      g.after,
      w',
      ran,
      Granted-others s g.after w' (wishes lib site hash ref) (site_wish (object_key site.meta) ∷ [])
          (λ k m apart. reports.frame k m apart.0) (ground arith) g.granted,
      subst
          (λ (v : Option PersistentVolumeClaim).
            Claimed site r.default_storage_class_name
              (s.stored Kind.pvc (key lib site (site.meta.name <> "-data")) w) v)
          (sym (reports.frame Kind.pvc (key lib site (site.meta.name <> "-data")) (ground arith)))
          claimed,
      reports,
    )
