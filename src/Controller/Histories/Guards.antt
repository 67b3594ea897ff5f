-- ===== src/Controller/Histories/Guards.antt =====
-- What one Site wants is not disturbed by a request for another.
use site_operator.Common.{
  String, true, false, Option, none, some, List, [], ◌∷◌, ◌<>◌, ◌≡◌, ◌≢◌, inl, sym, ap, ◌∙◌, subst,
  All, arith,
}
use Prim.Native.String.{len, slice}
use text.Mathlib.TextPositions.{len-append, slice-append_left}
use site_operator.Api.Site.{Site, MariaDbClusterRef}
use site_operator.Kube.Meta.{Key, ObjectMeta, object_key}
use site_operator.Kube.Objects.{Kind, Obj, meta_of}
use site_operator.Kube.Library.{Library, OwnerLaws}
use site_operator.Kube.Client.{Client}
use site_operator.Kube.Server.{Server, ServerLaws}
use site_operator.Helpers.Own.{own_key, IsOwnName}
use site_operator.Secret.{Entropy}
use site_operator.Ingress.{wanted_of}
use site_operator.Pvc.{managed_persistence}
use site_operator.Controller.{SiteReconciler, reconcile, site_labels}
use site_operator.Controller.Spares.{reconcile-Leaves}
use site_operator.Controller.Spares.Withstands.{IsGuarded}
use site_operator.Controller.Histories.Each.{wishes-All}
use site_operator.Controller.Converge.Ensure.{Is}
use site_operator.Controller.Converge.Stages.{Wish, Granted}
use site_operator.Controller.Converge.Shapes.{wishes, AsWanted, IsIngressOf, IsPvcOf}

append_cancel_right : (t s s' : String) → s <> t ≡ s' <> t → s ≡ s'
append_cancel_right t s s' e =
    let same : len s ≡ len s' = omega (arith, ap len e, len-append s t, len-append s' t) in
    sym (slice-append_left s t) ∙ (λ i. slice (e i) 0 (same i)) ∙ slice-append_left s' t

-- The controller reference of an object says which of the two owns it.
abbrev pub IsDistinct : Library → Site → Site → Type 0
IsDistinct lib site other =
    (m : ObjectMeta)
    → lib.is_controlled_by m site.meta ≡ true
    → lib.is_controlled_by m other.meta ≡ false

module _ (lib : Library) (site other : Site) (distinct : IsDistinct lib site other)
    (elsewhere : object_key other.meta ≢ object_key site.meta) where
  -- An object that the wish allows is guarded from the other Site.
  abbrev Guards : Wish → Type 0
  Guards v =
      (v.kind ≢ Kind.site)
      × ((o : Option (Obj v.kind)) → v.Holds o → IsGuarded lib other v.kind v.name o)

  owned-Guards :
      (k : Kind) (n : Key) (P : Obj k → Type 0)
      → ((x : Obj k) → P x → lib.is_controlled_by (meta_of k x) site.meta ≡ true)
      → (o : Option (Obj k)) → Is P o
      → IsGuarded lib other k n o
  owned-Guards k n P own o (x, there, holds) named =
      (x, site.meta, there, own x holds, distinct (meta_of k x) (own x holds))

  -- Names with the same ending differ as those of the Sites do.
  apart :
      (ending : String)
      → own_key site (site.meta.name <> ending) ≢ own_key other (other.meta.name <> ending)
  apart ending e =
      let names = append_cancel_right ending site.meta.name other.meta.name (ap (λ n. n.name) e) in
      elsewhere (λ i. record { namespace = (sym e i).namespace; name = sym names i })

  wanted-Guards :
      {A : Type 0} (k : Kind) (n : Key) (P : A → Obj k → Type 0)
      → ((a : A) (x : Obj k) → P a x → lib.is_controlled_by (meta_of k x) site.meta ≡ true)
      → (IsOwnName other k n → ⊥)
      → (wanted : Option A) (o : Option (Obj k)) → AsWanted P wanted o
      → IsGuarded lib other k n o
  wanted-Guards k n P own foreign none o gone named = absurd (foreign named)
  wanted-Guards k n P own foreign (some a) o holds named =
      owned-Guards k n (P a) (own a) o holds named

  -- An object that is owned by the Site in any case.
  always-Guards :
      (k : Kind) (n : Key) (P : Obj k → Type 0)
      → k ≢ Kind.site
      → ((x : Obj k) → P x → lib.is_controlled_by (meta_of k x) site.meta ≡ true)
      → Guards (record { kind = k; name = n; Holds = Is P })
  always-Guards k n P no_site own = (no_site, owned-Guards k n P own)

  wishes-Guards :
      (hash : String → String) (ref : MariaDbClusterRef) → All Guards (wishes lib site hash ref)
  wishes-Guards hash ref =
      wishes-All lib site hash ref Guards (always-Guards _ _ _ (ground arith) (λ x h. h.0))
        (
          always-Guards _ _ _ (ground arith) (λ x h. h.0),
          (
            always-Guards _ _ _ (ground arith) (λ x h. h.0),
            (always-Guards _ _ _ (ground arith) (λ x h. h.0), tt),
          ),
        )
        (always-Guards _ _ _ (ground arith) (λ x h. h.0))
        (always-Guards _ _ _ (ground arith) (λ x h. h.0))
        (always-Guards _ _ _ (ground arith) (λ x h. h.0))
        (always-Guards _ _ _ (ground arith) (λ x h. h.0))
        (
          ground arith,
          wanted-Guards Kind.ingress (own_key site (site.meta.name <> "-ingress"))
              (IsIngressOf lib site (site_labels site)) (λ i x h. h.0) (apart "-ingress")
              (wanted_of site.spec.ingress),
        )
        (
          ground arith,
          wanted-Guards Kind.pvc (own_key site (site.meta.name <> "-data")) (IsPvcOf lib site)
              (λ p x h. h.0) (apart "-data") (managed_persistence site.spec.persistence),
        )

  -- A request for the other Site leaves what the Site wants as it is.
  module _ (laws : OwnerLaws lib) {c : Client} (s : Server c) (sl : ServerLaws s)
      (r : SiteReconciler) (hash : String → String) (e : Entropy) (key : Key) (w : c.World)
      (up : s.Serves w) (there : s.stored Kind.site key w ≡ some other) where
    guarded-Stay :
        (ws : List Wish)
        → All Guards ws
        → Granted s ws w
        → Granted s ws (reconcile lib c r hash e key w).1
    guarded-Stay [] guards granted = tt
    guarded-Stay (v ∷ ws) guards granted = (
      subst v.Holds
          (sym
            (reconcile-Leaves lib laws s sl r hash e key other v.kind v.name w up there
              (inl guards.0.0) (guards.0.1 (s.stored v.kind v.name w) granted.0)).1)
          granted.0,
      guarded-Stay ws guards.1 granted.1,
    )

    pub wishes-Stay :
        (ref : MariaDbClusterRef)
        → Granted s (wishes lib site hash ref) w
        → Granted s (wishes lib site hash ref) (reconcile lib c r hash e key w).1
    wishes-Stay ref = guarded-Stay (wishes lib site hash ref) (wishes-Guards hash ref)
