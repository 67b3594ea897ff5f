-- ===== src/Controller/Converge/Optional.antt =====
-- The Ingress and the claim, which are written or deleted as the Site wants them.
use site_operator.Common.{
  String, Bool, true, false, Option, none, some, [], ◌∷◌, Dict, ◌≡◌, refl, sym, ap, ◌∙◌, ◌<>◌,
  lookup, insert, lookup-insert, insert_same, subst, or_empty, if◌then◌else◌,
}
use site_operator.Common.Outcome.{Outcome, ok, map_ok}
use site_operator.Api.Site.{Site, IngressSpec, PersistenceSpec}
use site_operator.Kube.Meta.{ObjectMeta}
use site_operator.Kube.Objects.{
  Kind, Obj, key_of, Ingress, PersistentVolumeClaim, Quantity, read_write_once,
}
use site_operator.Kube.Library.{Library, OwnerLaws, ErrorLaws}
use site_operator.Kube.Client.{Client}
use site_operator.Kube.Server.{Server, ServerLaws, Defaulted}
use site_operator.Kube.Owned.{delete_owned, delete_found, delete_if_controlled, ignoring_not_found}
use site_operator.Deployment.Config.{text_or}
use site_operator.Ingress.{new_ingress, mutate_ingress, ingress_paths, ingress_tls}
use site_operator.Pvc.{new_pvc, mutate_pvc, created_class}
use site_operator.Controller.Converge.Ensure.{Ours, Done, Is, write-Done, update-Done}
use site_operator.Controller.Converge.Objects.{relabelled, relabelled-again, labels_of}
use site_operator.Controller.Converge.Created.{ClaimFrom, written-ClaimFrom}
use site_operator.Controller.Converge.Shapes.{key, IsIngressOf, IsPvcOf}

abbrev annotated : Dict String → Dict String → ObjectMeta → ObjectMeta
annotated labels annotations m = record m { labels = labels; annotations = annotations }

named-Defaulted :
    (b : Bool) (class : String) (old new : Option String)
    → Defaulted (if b then old else some class) new
    → Defaulted (if b then none else some class) new
named-Defaulted true class old new h = tt
named-Defaulted false class old new h = h

named_again :
    (b : Bool) (class : String) (old new : Option String)
    → Defaulted (if b then old else some class) new
    → (if b then new else some class) ≡ new
named_again true class old new h = refl
named_again false class old new h = sym h

annotated-again :
    (labels annotations : Dict String) (m n : ObjectMeta)
    → n.labels ≡ (annotated labels annotations m).labels
    → n.annotations ≡ (annotated labels annotations m).annotations
    → annotated labels annotations n ≡ n
annotated-again labels annotations m n l a = rw (← l, ← a) refl

-- Setting the size that is set changes nothing.
resized :
    (q : Quantity) (old : Dict Quantity) (o : Option (Dict Quantity))
    → o ≡ some (insert "storage" q old)
    → some (insert "storage" q (or_empty o)) ≡ o
resized q old o set =
    subst (λ (z : Option (Dict Quantity)). some (insert "storage" q (or_empty z)) ≡ z) (sym set)
      (ap (λ (d : Dict Quantity). some d)
        (insert_same "storage" q (insert "storage" q old)
          (lookup-insert "storage" "storage" q old)))

-- A claim that exists and has its size is left as it is.
pvc_again :
    (lib : Library) (site : Site) (size : String) (class : Option String) (q : Quantity)
    (y : PersistentVolumeClaim) (old : Dict Quantity)
    → lib.parse_quantity size ≡ some q
    → y.meta.created ≡ true
    → y.requests ≡ some (insert "storage" q old)
    → lib.set_controller_reference site.meta (relabelled (("app", site.meta.name) ∷ []) y.meta)
      ≡ ok y.meta
    → mutate_pvc lib site size class y ≡ ok y
unfolding mutate_pvc created_class
pvc_again lib site size class q y old parsed created requested sets =
    rw (parsed, mutate_pvc) (ap (map_ok _) sets ∙ go y.meta.created created)
  where
    go :
        (b : Bool)
        → b ≡ true
        → ◌≡◌ {A = Outcome PersistentVolumeClaim}
            (ok (record {
              meta = y.meta;
              access_modes = if b then y.access_modes else read_write_once ∷ [];
              requests = some (insert "storage" q (or_empty y.requests));
              storage_class_name = created_class b class y.storage_class_name;
            }))
            (ok y)
    go true e =
        ap (λ (z : Option (Dict Quantity)). ok (record y { requests = z }))
          (resized q old y.requests requested)
    go false e = cc

module _ (lib : Library) (laws : OwnerLaws lib) (errors : ErrorLaws lib) (site : Site) {c : Client}
    (s : Server c) (sl : ServerLaws s) where
  -- An object of the Site is deleted, and one that is not there is no error.
  pub delete-Done :
      (k : Kind) (o : Obj k) (w : c.World)
      → s.Serves w
      → Ours lib s site k (key_of k o) w
      → Done s k (key_of k o) w (delete_owned lib c k o site w) (λ x. x ≡ none)
  unfolding delete_owned delete_found delete_if_controlled ignoring_not_found
  delete-Done k o w up ours = go (s.stored k (key_of k o) w) refl
    where
      go :
          (x : Option (Obj k))
          → s.stored k (key_of k o) w ≡ x
          → Done s k (key_of k o) w (delete_owned lib c k o site w) (λ x. x ≡ none)
      go none e =
          let (t, missing) = sl.get_missing k (key_of k o) w up e in
          record {
            after = w;
            succeeds = rw (missing, delete_owned, delete_found) (rw (errors.ignore_missing t) refl);
            serves = up;
            good = e;
            frame = λ j m h. refl;
          }
      go (some x) e =
          let (w', deleted, up', gone, frame) = sl.deletes k (key_of k o) x w up e in
          record {
            after = w';
            succeeds =
                rw
                  (
                    sl.get_found k (key_of k o) w x up e,
                    delete_owned,
                    delete_found,
                    delete_if_controlled,
                  )
                  (rw (ours x e) (rw (deleted, ignoring_not_found) (rw errors.ignore_none refl)));
            serves = up';
            good = gone;
            frame = frame;
          }

module _ (lib : Library) (laws : OwnerLaws lib) (errors : ErrorLaws lib) (site : Site) {c : Client}
    (s : Server c) (sl : ServerLaws s) (w : c.World) (up : s.Serves w) where
  pub ingress-write :
      (labels : Dict String) (i : IngressSpec)
      → Ours lib s site Kind.ingress (key lib site (site.meta.name <> "-ingress")) w
      → Done s Kind.ingress
          (key lib site (site.meta.name <> "-ingress"))
          w
          (c.create_or_update Kind.ingress (new_ingress site) (mutate_ingress lib site i labels) w)
          (Is (IsIngressOf lib site labels i))
  unfolding mutate_ingress
  ingress-write labels i ours =
      write-Done lib laws site s sl Kind.ingress _ w _ _ (annotated labels i.annotations) _
        (λ x. refl) (λ x m. refl) (λ m. refl) refl refl up ours
        (annotated-again labels i.annotations)
        (λ m' x y (stamped, same, class) kept. (
          kept.owned,
          ap (λ (q : ObjectMeta). q.labels) (sym kept.relabels),
          ap (λ (q : ObjectMeta). q.annotations) (sym kept.relabels),
          ap (λ (q : Ingress). q.rules) same,
          ap (λ (q : Ingress). q.tls) same,
          named-Defaulted _ _ _ _ class,
          ap (map_ok _) kept.sets
              ∙ ap
                  (λ (q : Option String). ok (record {
                    meta = y.meta;
                    ingress_class_name = q;
                    rules = record { host = site.spec.domain; paths = ingress_paths site i } ∷ [];
                    tls = ingress_tls site i;
                  }))
                  (named_again _ _ _ _ class)
              ∙ ap ok (sym same),
        ))

  pub pvc-write :
      (p : PersistenceSpec) (class : Option String) (q : Quantity)
      → lib.parse_quantity (text_or "1Gi" p.size) ≡ some q
      → Ours lib s site Kind.pvc (key lib site (site.meta.name <> "-data")) w
      → Done s Kind.pvc
          (key lib site (site.meta.name <> "-data"))
          w
          (c.create_or_update Kind.pvc
            (new_pvc site)
            (mutate_pvc lib site (text_or "1Gi" p.size) class)
            w)
          (Is λ x.
            IsPvcOf lib site p x
            × ClaimFrom class (s.stored Kind.pvc (key lib site (site.meta.name <> "-data")) w) x)
  unfolding mutate_pvc
  pvc-write p class q parsed ours =
      let labels = ("app", site.meta.name) ∷ [] in
      update-Done lib laws site s sl Kind.pvc _ w _
        (λ (pvc : PersistentVolumeClaim) (m : ObjectMeta). record {
          meta = m;
          access_modes = if pvc.meta.created then pvc.access_modes else read_write_once ∷ [];
          requests = some (insert "storage" q (or_empty pvc.requests));
          storage_class_name = created_class pvc.meta.created class pvc.storage_class_name;
        })
        (relabelled labels) _ (λ x. rw (parsed, mutate_pvc) refl) (λ x m. refl) (λ m. refl) refl
        refl up ours (relabelled-again labels)
        (λ m' x y found (stamped, same, named) kept. (
          (
            kept.owned,
            labels_of labels y.meta kept.relabels,
            ap (λ (z : PersistentVolumeClaim). lookup "storage" (or_empty z.requests)) same
                ∙ (lookup-insert "storage" "storage" q (or_empty x.requests) ∙ sym parsed),
            λ class'.
                pvc_again lib site (text_or "1Gi" p.size) class' q y (or_empty x.requests) parsed
                  stamped.0 (ap (λ (z : PersistentVolumeClaim). z.requests) same) kept.sets,
          ),
          written-ClaimFrom site class _ x y found
              (sl.stored_created Kind.pvc (key lib site (site.meta.name <> "-data")) w)
              (ap (λ (z : PersistentVolumeClaim). z.access_modes) same) named,
        ))
