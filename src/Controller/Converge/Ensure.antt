-- ===== src/Controller/Converge/Ensure.antt =====
-- Writing one object of a Site at an API server that answers.
use site_operator.Common.{true, Option, none, some, [], ◌≡◌, ◌⊎◌, inl, inr, refl, ap, ◌∙◌, subst}
use site_operator.Common.Outcome.{Outcome, ok, map_ok}
use site_operator.Api.Site.{Site}
use site_operator.Kube.Meta.{Key, ObjectMeta, object_key}
use site_operator.Kube.Objects.{Kind, Obj, meta_of, key_of}
use site_operator.Kube.Library.{Library, OwnerLaws}
use site_operator.Kube.Client.{Client, M}
use site_operator.Kube.Server.{Server, ServerLaws, Frame, Admitted, current, Stamped, is_conflict}

-- An object that the Site may take: it has no owner yet, or is the Site's.
abbrev pub Claimable : Library → Site → ObjectMeta → Type 0
Claimable lib site m =
    (m.owner_references ≡ []) × (m.namespace ≡ site.meta.namespace)
    ⊎ (lib.is_controlled_by m site.meta ≡ true)

-- What is stored under a name, if anything is, is the Site's.
abbrev pub Ours : {c : Client} → Library → Server c → Site → (k : Kind) → Key → c.World → Type 0
Ours {c} lib s site k n w =
    (x : Obj k) → s.stored k n w ≡ some x → lib.is_controlled_by (meta_of k x) site.meta ≡ true

-- A call succeeded; afterwards the object under a name is as it should be, and all others are as
-- they were.
pub record Done {c : Client} (s : Server c) (k : Kind) (n : Key) (w : c.World)
    (r : Outcome (Unit {0}) × c.World) (Q : Option (Obj k) → Type 0) : Type 0 where
  pub after : c.World
  pub succeeds : r ≡ (ok tt, after)
  pub serves : s.Serves after
  pub good : Q (s.stored k n after)
  pub frame : Frame s k n w after

-- The object is there and has a property.
abbrev pub Is : {A : Type 0} → (A → Type 0) → Option A → Type 0
Is {A} P o = (x : A) × (o ≡ some x) × P x

Admitted-Stamped :
    (k : Kind) (o o' : Obj k) → Admitted k o o' → Stamped (meta_of k o) (meta_of k o')
Admitted-Stamped Kind.site o o' a = a.0
Admitted-Stamped Kind.secret o o' a = a.0
Admitted-Stamped Kind.config_map o o' a = a.0
Admitted-Stamped Kind.deployment o o' a = a.0
Admitted-Stamped Kind.service o o' a = a.0
Admitted-Stamped Kind.ingress o o' a = a.0
Admitted-Stamped Kind.pvc o o' a = a.0
Admitted-Stamped Kind.database o o' a = a.0
Admitted-Stamped Kind.user o o' a = a.0
Admitted-Stamped Kind.grant o o' a = a.0

-- The callback's next call will find the object as it wants it: the Site is the owner, and setting
-- the labels and the owner again gives the same metadata.
pub record Kept (lib : Library) (site : Site) (relabel : ObjectMeta → ObjectMeta) (m : ObjectMeta)
    : Type 0 where
  pub owned : lib.is_controlled_by m site.meta ≡ true
  pub relabels : relabel m ≡ m
  pub sets : lib.set_controller_reference site.meta (relabel m) ≡ ok m

module _ (lib : Library) (laws : OwnerLaws lib) (site : Site) where
  -- The metadata may be relabelled first: what counts are the owner references and the namespace.
  Stamped-Kept :
      (relabel : ObjectMeta → ObjectMeta) (m m' n : ObjectMeta)
      → ((l : ObjectMeta)
          → l.labels ≡ (relabel m).labels
          → l.annotations ≡ (relabel m).annotations
          → relabel l ≡ l)
      → lib.set_controller_reference site.meta (relabel m) ≡ ok m'
      → Stamped m' n
      → Kept lib site relabel n
  Stamped-Kept relabel m m' n again set (created, same) =
      let refs = ap (λ (q : ObjectMeta). q.owner_references) same in
      let only = laws.set_only site.meta (relabel m) set in
      let relabels =
        again n (ap (λ (q : ObjectMeta). q.labels) same ∙ ap (λ (q : ObjectMeta). q.labels) only) (
          ap (λ (q : ObjectMeta). q.annotations) same
          ∙ ap (λ (q : ObjectMeta). q.annotations) only) in
      record {
        owned =
            laws.controlled_by_refs site.meta n m' refs
            ∙ laws.set_controls site.meta (relabel m) set;
        relabels = relabels;
        sets = rw relabels (
            laws.set_again site.meta (relabel m) n set refs (
              ap (λ (q : ObjectMeta). q.namespace) same
              ∙ ap (λ (q : ObjectMeta). q.namespace) only));
      }

  pub claim :
      (m n : ObjectMeta)
      → Claimable lib site m
      → n.owner_references ≡ m.owner_references
      → n.namespace ≡ m.namespace
      → (m' : ObjectMeta) × (lib.set_controller_reference site.meta n ≡ ok m')
  claim m n (inl (fresh, ns)) refs same = laws.set_fresh site.meta n (refs ∙ fresh) (same ∙ ns)
  claim m n (inr ours) refs same =
      laws.set_owned site.meta n (laws.controlled_by_refs site.meta n m refs ∙ ours)

module _ (lib : Library) (laws : OwnerLaws lib) (site : Site) {c : Client} (s : Server c)
    (sl : ServerLaws s) where
  current-Claimable :
      (k : Kind) (o : Obj k) (w : c.World)
      → (meta_of k o).owner_references ≡ []
      → (meta_of k o).namespace ≡ site.meta.namespace
      → Ours lib s site k (key_of k o) w
      → Claimable lib site (meta_of k (current s k o w)) × (key_of k (current s k o w) ≡ key_of k o)
  current-Claimable k o w fresh ns ours = go (s.stored k (key_of k o) w) refl
    where
      pick : Option (Obj k) → Obj k
      pick x = elim x [ none ↦ o | some y ↦ y ]

      go :
          (x : Option (Obj k))
          → s.stored k (key_of k o) w ≡ x
          → Claimable lib site (meta_of k (pick x)) × (key_of k (pick x) ≡ key_of k o)
      go none e = (inl (fresh, ns), refl)
      go (some y) e = (inr (ours y e), sl.stored_key k (key_of k o) w y e)

  -- A callback that relabels an object, sets the Site as its owner and builds the rest around that
  -- succeeds, and what it built is stored.
  pub update-Done :
      (k : Kind) (o : Obj k) (w : c.World) (f : Obj k → Outcome (Obj k))
      (g : Obj k → ObjectMeta → Obj k) (relabel : ObjectMeta → ObjectMeta) (Q : Obj k → Type 0)
      → ((x : Obj k)
          → f x ≡ map_ok (g x) (lib.set_controller_reference site.meta (relabel (meta_of k x))))
      → ((x : Obj k) (m : ObjectMeta) → meta_of k (g x m) ≡ m)
      → ((m : ObjectMeta)
          → relabel m
            ≡ record m { labels = (relabel m).labels; annotations = (relabel m).annotations })
      → (meta_of k o).owner_references ≡ []
      → (meta_of k o).namespace ≡ site.meta.namespace
      → s.Serves w
      → Ours lib s site k (key_of k o) w
      → ((m n : ObjectMeta)
          → n.labels ≡ (relabel m).labels
          → n.annotations ≡ (relabel m).annotations
          → relabel n ≡ n)
      → ((m' : ObjectMeta) (x y : Obj k)
          → x ≡ current s k o w
          → Admitted k (g x m') y
          → Kept lib site relabel (meta_of k y)
          → Q y)
      → Done s k (key_of k o) w (c.create_or_update k o f w) (Is Q)
  update-Done k o w f g relabel Q shape meta keeps fresh ns up ours again good =
      let x = current s k o w in
      let m = meta_of k x in
      let (claimable, key) = current-Claimable k o w fresh ns ours in
      let (m', set) =
        claim lib laws site m (relabel m) claimable
          (ap (λ (q : ObjectMeta). q.owner_references) (keeps m))
          (ap (λ (q : ObjectMeta). q.namespace) (keeps m)) in
      let result : f x ≡ ok (g x m') = shape x ∙ ap (map_ok (g x)) set in
      let same_key : key_of k (g x m') ≡ key_of k o =
        ap object_key (meta x m')
        ∙ ap object_key (laws.set_only site.meta (relabel m) set)
        ∙ ap object_key (keeps m)
        ∙ key in
      let stores = sl.writes k o (g x m') f w up result same_key in
      record {
        after = stores.after;
        succeeds = stores.succeeds;
        serves = stores.serves;
        good = (
          stores.object,
          subst (λ n. s.stored k n stores.after ≡ some stores.object) same_key stores.is_stored,
          good m' x stores.object refl stores.admitted (
              Stamped-Kept lib laws site relabel m m' (meta_of k stores.object) (again m) set (
                subst (λ q. Stamped q (meta_of k stores.object)) (meta x m')
                  (Admitted-Stamped k (g x m') stores.object stores.admitted))),
        );
        frame = subst (λ n. Frame s k n w stores.after) same_key stores.frame;
      }

  -- The same, whatever was there before.
  pub write-Done :
      (k : Kind) (o : Obj k) (w : c.World) (f : Obj k → Outcome (Obj k))
      (g : Obj k → ObjectMeta → Obj k) (relabel : ObjectMeta → ObjectMeta) (Q : Obj k → Type 0)
      → ((x : Obj k)
          → f x ≡ map_ok (g x) (lib.set_controller_reference site.meta (relabel (meta_of k x))))
      → ((x : Obj k) (m : ObjectMeta) → meta_of k (g x m) ≡ m)
      → ((m : ObjectMeta)
          → relabel m
            ≡ record m { labels = (relabel m).labels; annotations = (relabel m).annotations })
      → (meta_of k o).owner_references ≡ []
      → (meta_of k o).namespace ≡ site.meta.namespace
      → s.Serves w
      → Ours lib s site k (key_of k o) w
      → ((m n : ObjectMeta)
          → n.labels ≡ (relabel m).labels
          → n.annotations ≡ (relabel m).annotations
          → relabel n ≡ n)
      → ((m' : ObjectMeta) (x y : Obj k)
          → Admitted k (g x m') y
          → Kept lib site relabel (meta_of k y)
          → Q y)
      → Done s k (key_of k o) w (c.create_or_update k o f w) (Is Q)
  write-Done k o w f g relabel Q shape meta keeps fresh ns up ours again good =
      update-Done k o w f g relabel Q shape meta keeps fresh ns up ours again
        (λ m' x y found a kept. good m' x y a kept)

  pub map-Done :
      {k : Kind} {n : Key} {w : c.World} {r : Outcome (Unit {0}) × c.World}
      (P Q : Option (Obj k) → Type 0)
      → ((o : Option (Obj k)) → P o → Q o)
      → Done s k n w r P
      → Done s k n w r Q
  map-Done P Q f d = record {
    after = d.after;
    succeeds = d.succeeds;
    serves = d.serves;
    good = f _ d.good;
    frame = d.frame;
  }

  -- The same under RetryOnConflict, which has nothing to retry.
  pub retry-Done :
      {k : Kind} {n : Key} {w : c.World} {Q : Option (Obj k) → Type 0} (m : M c (Unit {0}))
      → Done s k n w (m w) Q
      → Done s k n w (c.retry_on_conflict m w) Q
  retry-Done {w} m d = record {
    after = d.after;
    succeeds =
        sl.retries_no_more m w
          (ap (λ (r : Outcome (Unit {0}) × c.World). is_conflict r.0) d.succeeds)
        ∙ d.succeeds;
    serves = d.serves;
    good = d.good;
    frame = d.frame;
  }
