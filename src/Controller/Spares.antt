-- ===== src/Controller/Spares.antt =====
-- What belongs to others is left alone.
pub mod Withstands
use site_operator.Common.{
  some-injective, String, true, false, Option, none, some, ◌≡◌, ◌≢◌, ◌⊎◌, inl, inr, refl, sym, ap,
  ◌∙◌, subst,
}
use site_operator.Common.Outcome.{Outcome, ok, err, panic, err-not-ok, same_read}
use site_operator.Api.Site.{Site, SiteStatus}
use site_operator.Kube.Meta.{Key, ObjectMeta, object_key}
use site_operator.Kube.Objects.{Kind, Obj, meta_of, key_of}
use site_operator.Kube.Equality.{Kind-discrete, Key-discrete}
use site_operator.Kube.Library.{Library, OwnerLaws}
use site_operator.Kube.Client.{Client}
use site_operator.Kube.Keeps.{Keeps, Claims, Permits}
use site_operator.Kube.Server.{Server, ServerLaws, current}
use site_operator.Helpers.Own.{IsOwnName}
use site_operator.Secret.{Entropy}
use site_operator.Controller.{SiteReconciler, reconcile}
use site_operator.Controller.Safety.{reconcile-Keeps}
use Withstands.{IsGuarded, IsApart, Spared-Permits}

pub reconcile-Leaves :
    (lib : Library)
    → OwnerLaws lib
    → {c : Client} (s : Server c) → ServerLaws s
    → (r : SiteReconciler) (hash : String → String) (e : Entropy) (key : Key) (site : Site)
      (k : Kind) (n : Key) (w : c.World)
    → s.Serves w
    → s.stored Kind.site key w ≡ some site
    → IsApart site k n
    → IsGuarded lib site k n (s.stored k n w)
    → s.Serves (reconcile lib c r hash e key w).1
      × (s.stored k n (reconcile lib c r hash e key w).1 ≡ s.stored k n w)
reconcile-Leaves lib laws {c} s sl r hash e key site k n w up there apart guarded =
    reconcile-Keeps lib laws c r hash e key w w site
      {P = λ u. s.Serves u × (s.stored k n u ≡ s.stored k n w)}
      (sl.get_found Kind.site key w site up there)
      (Spared-Permits lib site s sl k n (s.stored k n w) apart guarded) (up, refl)

-- At an API server that answers and that nobody else writes to, a request for a stored Site leaves
-- every object that another owner controls and the Site does not as it was, whatever its kind and
-- name, and however the request ends. Only the status of Sites is left out.
pub reconcile-Spares :
    (lib : Library)
    → OwnerLaws lib
    → {c : Client} (s : Server c) → ServerLaws s
    → (r : SiteReconciler) (hash : String → String) (e : Entropy) (key : Key) (site : Site)
      (k : Kind) (n : Key) (o : Obj k) (other : ObjectMeta) (w : c.World)
    → s.Serves w
    → s.stored Kind.site key w ≡ some site
    → k ≢ Kind.site
    → lib.is_controlled_by (meta_of k o) other ≡ true
    → lib.is_controlled_by (meta_of k o) site.meta ≡ false
    → s.stored k n w ≡ some o
    → s.stored k n (reconcile lib c r hash e key w).1 ≡ some o
reconcile-Spares lib laws s sl r hash e key site k n o other w up there no_site held free at =
    (reconcile-Leaves lib laws s sl r hash e key site k n w up there (inl no_site)
      (λ own. (o, other, at, held, free))).1
    ∙ at

-- At an API server that answers and that nobody else writes to, a request for a stored Site leaves
-- every object that is not the Site and does not have one of the names that the operator gives to
-- the Site's objects as it was, whoever controls it and however the request ends.
pub reconcile-Confined :
    (lib : Library)
    → OwnerLaws lib
    → {c : Client} (s : Server c) → ServerLaws s
    → (r : SiteReconciler) (hash : String → String) (e : Entropy) (key : Key) (site : Site)
      (k : Kind) (n : Key) (w : c.World)
    → s.Serves w
    → s.stored Kind.site key w ≡ some site
    → IsApart site k n
    → (IsOwnName site k n → ⊥)
    → s.stored k n (reconcile lib c r hash e key w).1 ≡ s.stored k n w
reconcile-Confined lib laws s sl r hash e key site k n w up there apart foreign =
    (reconcile-Leaves lib laws s sl r hash e key site k n w up there apart
      (λ own. absurd (foreign own))).1
