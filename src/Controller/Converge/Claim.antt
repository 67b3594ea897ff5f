-- ===== src/Controller/Converge/Claim.antt =====
-- One whole pass over the objects of a Site, and what it leaves of the claim that it found.
use site_operator.Common.{
  String, Option, none, some, [], ◌∷◌, ◌≡◌, refl, ap, ◌<>◌, ◌∙◌, sym, All-split, subst, arith,
}
use site_operator.Common.Outcome.{Outcome, ok}
use site_operator.Api.Site.{Site, PersistenceSpec, MariaDbClusterRef}
use site_operator.Kube.Objects.{Kind, Quantity, PersistentVolumeClaim}
use site_operator.Kube.Action.{◌>>=◌, continue}
use site_operator.Kube.Library.{Library, OwnerLaws, ErrorLaws}
use site_operator.Kube.Client.{Client}
use site_operator.Kube.Server.{Server, ServerLaws}
use site_operator.Secret.{Entropy}
use site_operator.Deployment.Config.{text_or}
use site_operator.Pvc.{new_pvc, reconcile_pvc, managed_persistence, storage_class}
use site_operator.Controller.{SiteReconciler, reconcile_objects}
use site_operator.Controller.Converge.Ensure.{Done, Is, Ours, map-Done, retry-Done}
use site_operator.Controller.Converge.Pass.{Resolves, front-Stage}
use site_operator.Controller.Converge.Stages.{
  Grants, Stage, AllOurs, AllOurs-others, done-Grants, seq-Stage,
}
use site_operator.Controller.Converge.Shapes.{
  key, pvc_wish, front_wishes, wishes, AsWanted, IsPvcOf,
}
use site_operator.Controller.Converge.Created.{Created, Claimed, storage_class-IsClass}
use site_operator.Controller.Converge.Optional.{delete-Done, pvc-write}

-- The size of the claim that the operator keeps, if it keeps one, is well formed.
abbrev pub SizeParses : Library → Option PersistenceSpec → Type 0
SizeParses lib none = Unit
SizeParses lib (some p) = (q : Quantity) × (lib.parse_quantity (text_or "1Gi" p.size) ≡ some q)

module _ (lib : Library) (laws : OwnerLaws lib) (errors : ErrorLaws lib) (site : Site) {c : Client}
    (s : Server c) (sl : ServerLaws s) where
  claimed :
      (default : String) (v : Option PersistentVolumeClaim) (o : Option PersistenceSpec)
      (x : Option PersistentVolumeClaim)
      → AsWanted (λ p y. IsPvcOf lib site p y × Created default v p y) o x
      → AsWanted (IsPvcOf lib site) o x × AsWanted (Created default v) o x
  claimed default v none x gone = (gone, gone)
  claimed default v (some p) x (y, e, (good, made)) = ((y, e, good), (y, e, made))

  -- The claim is kept or deleted, and a kept one comes from what was there.
  pub pvc-Done :
      (default : String)
      → SizeParses lib (managed_persistence site.spec.persistence)
      → (w : c.World) → s.Serves w
      → Ours lib s site Kind.pvc (key lib site (site.meta.name <> "-data")) w
      → Done s Kind.pvc
          (key lib site (site.meta.name <> "-data"))
          w
          (reconcile_pvc lib c site default w)
          (λ x.
            (pvc_wish lib site).Holds x
            × Claimed site default
                (s.stored Kind.pvc (key lib site (site.meta.name <> "-data")) w)
                x)
  unfolding reconcile_pvc
  pvc-Done default sized w up ours =
      map-Done lib laws site s sl (AsWanted Made (managed_persistence site.spec.persistence)) _
        (claimed default old (managed_persistence site.spec.persistence))
        (go (managed_persistence site.spec.persistence) refl)
    where
      old : Option PersistentVolumeClaim
      old = s.stored Kind.pvc (key lib site (site.meta.name <> "-data")) w

      Made : PersistenceSpec → PersistentVolumeClaim → Type 0
      Made p y = IsPvcOf lib site p y × Created default old p y

      go :
          (x : Option PersistenceSpec)
          → managed_persistence site.spec.persistence ≡ x
          → Done s Kind.pvc
              (key lib site (site.meta.name <> "-data"))
              w
              (reconcile_pvc lib c site default w)
              (AsWanted Made (managed_persistence site.spec.persistence))
      go none e =
          rw (e, reconcile_pvc)
            (delete-Done lib laws errors site s sl Kind.pvc (new_pvc site) w up ours)
      go (some p) e =
          let (q, parsed) = subst (SizeParses lib) e sized in
          rw (e, reconcile_pvc)
            (retry-Done lib laws site s sl _ (
              map-Done lib laws site s sl _ (Is (Made p))
                (λ o (y, is, (good, from)).
                  (y, is, (good, (storage_class p default, storage_class-IsClass p default, from))))
                (pvc-write lib laws errors site s sl w up p (storage_class p default) q parsed
                  ours)))

  pvc-Stage :
      (default : String)
      → SizeParses lib (managed_persistence site.spec.persistence)
      → Stage lib site s (reconcile_pvc lib c site default) (pvc_wish lib site ∷ [])
  pvc-Stage default sized w up ours = done-Grants s (pvc_wish lib site) (
      map-Done lib laws site s sl _ (pvc_wish lib site).Holds (λ o (good, made). good)
        (pvc-Done default sized w up ours.0))

  pub objects-Grants :
      (r : SiteReconciler) (hash : String → String) (e : Entropy) (ref : MariaDbClusterRef)
      → Resolves site r.default_maria_db_ref ref
      → SizeParses lib (managed_persistence site.spec.persistence)
      → (w : c.World) → s.Serves w
      → AllOurs lib site s (wishes lib site hash ref) w
      → Grants s w (reconcile_objects lib c r hash e site w) (wishes lib site hash ref)
  unfolding reconcile_objects
  objects-Grants r hash e ref resolves sized =
      seq-Stage lib site s _ _ _ _ (front-Stage lib laws errors site s sl r hash e ref resolves)
        (pvc-Stage r.default_storage_class_name sized) (ground arith) (ground arith)

-- At an API server that answers and that nobody else writes to, where no object under one of the
-- Site's names belongs to anybody else, the work on a Site whose database has a cluster and whose
-- claim has a size succeeds. Afterwards each of its objects is there, controlled by the Site and
-- as the Site's spec wants it, the Ingress and the claim are gone where the Site wants none, and
-- no other object has changed. A new claim has the access mode and the storage class that the Site
-- and the operator ask for, the server choosing the class where they ask for none; a claim that was
-- there keeps its access modes and its class.
pub reconcile_objects-Grants :
    (lib : Library)
    → OwnerLaws lib
    → ErrorLaws lib
    → (site : Site) {c : Client} (s : Server c) → ServerLaws s
    → (r : SiteReconciler) (hash : String → String) (e : Entropy) (ref : MariaDbClusterRef)
    → Resolves site r.default_maria_db_ref ref
    → SizeParses lib (managed_persistence site.spec.persistence)
    → (w : c.World) → s.Serves w
    → AllOurs lib site s (wishes lib site hash ref) w
    → let n = key lib site (site.meta.name <> "-data") in
      (g : Grants s w (reconcile_objects lib c r hash e site w) (wishes lib site hash ref))
      × Claimed site r.default_storage_class_name
          (s.stored Kind.pvc n w)
          (s.stored Kind.pvc n g.after)
unfolding reconcile_objects ◌>>=◌
reconcile_objects-Grants lib laws errors site {c} s sl r hash e ref resolves sized w up ours =
    let n = key lib site (site.meta.name <> "-data") in
    let default = r.default_storage_class_name in
    let g = objects-Grants lib laws errors site s sl r hash e ref resolves sized w up ours in
    let (ours_front, ours_pvc) =
      All-split _ (front_wishes lib site hash ref) (pvc_wish lib site ∷ []) ours in
    let a = front-Stage lib laws errors site s sl r hash e ref resolves w up ours_front in
    let still =
      AllOurs-others lib site s w a.after (pvc_wish lib site ∷ []) (front_wishes lib site hash ref)
        a.others (ground arith) ours_pvc in
    let d = pvc-Done lib laws errors site s sl default sized a.after a.serves still.0 in
    let ran : reconcile_objects lib c r hash e site w ≡ (ok tt, d.after) =
      ap
        (λ (q : Outcome (Unit {0}) × c.World).
          continue q.0 (λ _. reconcile_pvc lib c site default) q.1)
        a.succeeds
      ∙ d.succeeds in
    let same : d.after ≡ g.after =
      ap (λ (q : Outcome (Unit {0}) × c.World). q.1) (sym ran ∙ g.succeeds) in
    (
      g,
      subst
          (λ (w' : c.World). Claimed site default (s.stored Kind.pvc n w) (s.stored Kind.pvc n w'))
          same
          (subst
            (λ (v : Option PersistentVolumeClaim).
              Claimed site default v (s.stored Kind.pvc n d.after))
            (a.others Kind.pvc n (ground arith)) d.good.1),
    )
