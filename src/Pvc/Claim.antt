-- ===== src/Pvc/Claim.antt =====
-- What a reconcile does to a claim that is there, and what a malformed size does.
use site_operator.Common.{
  String, true, Option, none, some, [], ◌∷◌, ◌≡◌, refl, sym, ap, ◌∙◌, ◌<>◌, subst, lookup, insert,
  or_empty, lookup-insert,
}
use site_operator.Common.Outcome.{Outcome, ok, panic, map_ok, map_ok-inverse}
use site_operator.Api.Site.{Site, PersistenceSpec}
use site_operator.Kube.Meta.{ObjectMeta, object_key}
use site_operator.Kube.Objects.{Kind, PersistentVolumeClaim, Quantity}
use site_operator.Kube.Library.{Library, OwnerLaws}
use site_operator.Kube.Client.{Client}
use site_operator.Kube.Server.{Server, ServerLaws, is_conflict}
use site_operator.Deployment.Config.{text_or}
use site_operator.Pvc.{
  mutate_pvc, reconcile_pvc, managed_persistence, storage_class, created_class, new_pvc,
}

-- A claim that exists keeps its name, its access modes and its storage class, which the API server
-- does not let change, and takes the size that the Site asks for.
pub mutate_pvc-created :
    (lib : Library)
    → OwnerLaws lib
    → (site : Site) (size : String) (class : Option String) (x y : PersistentVolumeClaim)
    → x.meta.created ≡ true
    → mutate_pvc lib site size class x ≡ ok y
    → (object_key y.meta ≡ object_key x.meta)
      × (y.access_modes ≡ x.access_modes)
      × (y.storage_class_name ≡ x.storage_class_name)
      × (lookup "storage" (or_empty y.requests) ≡ lib.parse_quantity size)
unfolding mutate_pvc created_class
mutate_pvc-created lib laws site size class x y created e = go (lib.parse_quantity size) refl
  where
    labelled : ObjectMeta
    labelled = record (x.meta) { labels = ("app", site.meta.name) ∷ [] }

    kept : Quantity → ObjectMeta → PersistentVolumeClaim
    kept q m = record {
      meta = m;
      access_modes = x.access_modes;
      requests = some (insert "storage" q (or_empty x.requests));
      storage_class_name = x.storage_class_name;
    }

    Keeps : PersistentVolumeClaim → Type 0
    Keeps z =
        (object_key z.meta ≡ object_key x.meta)
        × (z.access_modes ≡ x.access_modes)
        × (z.storage_class_name ≡ x.storage_class_name)
        × (lookup "storage" (or_empty z.requests) ≡ lib.parse_quantity size)

    go : (o : Option Quantity) → lib.parse_quantity size ≡ o → Keeps y
    go none parsed =
        let bad : panic ("cannot parse '" <> (size <> "'")) ≡ ok y =
          sym (rw (parsed, mutate_pvc) refl) ∙ e in
        absurd (cc)
    go (some q) parsed =
        let shape : map_ok (kept q) (lib.set_controller_reference site.meta labelled) ≡ ok y =
          sym (rw (parsed, mutate_pvc) (rw created refl)) ∙ e in
        let (m, set, is_y) = map_ok-inverse (kept q) _ shape in
        subst Keeps is_y (
          ap object_key (laws.set_only site.meta labelled set),
          refl,
          refl,
          lookup-insert "storage" "storage" q (or_empty x.requests) ∙ sym parsed,
        )

-- With a size that does not parse, reconcilePVC panics at a serving API server, before it writes.
pub reconcile_pvc-malformed :
    (lib : Library) {c : Client} (s : Server c)
    → ServerLaws s
    → (site : Site) (default : String) (p : PersistenceSpec) (w : c.World) → s.Serves w
    → managed_persistence site.spec.persistence ≡ some p
    → lib.parse_quantity (text_or "1Gi" p.size) ≡ none
    → (t : String) × (reconcile_pvc lib c site default w ≡ (panic t, w))
unfolding reconcile_pvc mutate_pvc
reconcile_pvc-malformed lib {c} s sl site default p w up managed malformed =
    let t = "cannot parse '" <> (text_or "1Gi" p.size <> "'") in
    let f = mutate_pvc lib site (text_or "1Gi" p.size) (storage_class p default) in
    let panics : c.create_or_update Kind.pvc (new_pvc site) f w ≡ (panic t, w) =
      sl.panics Kind.pvc (new_pvc site) f w t up (rw (malformed, mutate_pvc) refl) in
    (
      t,
      rw (managed, reconcile_pvc)
          (sl.retries_no_more (c.create_or_update Kind.pvc (new_pvc site) f) w
              (ap (λ (r : Outcome (Unit {0}) × c.World). is_conflict r.0) panics)
            ∙ panics),
    )
