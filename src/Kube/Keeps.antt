-- ===== src/Kube/Keeps.antt =====
-- Properties of the cluster that calls keep, whatever they return.
use site_operator.Common.{Bool-cases, inl, inr, ◌≡◌, refl, sym, ap, ◌∙◌, true, subst}
use site_operator.Common.Outcome.{Outcome, ok, err, panic, Error, map_ok, map_ok-inverse}
use site_operator.Api.Site.{Site, SiteStatus}
use site_operator.Kube.Meta.{Key, ObjectMeta, object_key}
use site_operator.Kube.Objects.{Kind, Obj, meta_of, key_of}
use site_operator.Kube.Library.{Library, OwnerLaws}
use site_operator.Kube.Action.{Action, continue, ◌>>=◌, wrap_err}
use site_operator.Kube.Client.{Client, M}
use site_operator.Helpers.Own.{IsOwnName}
use site_operator.Kube.Owned.{delete_owned, delete_found, delete_if_controlled}

abbrev pub Keeps : {W A : Type 0} → (W → Type 0) → Action W A → Type 0
Keeps {W} P m = (w : W) → P w → P (m w).1

module _ {W A B : Type 0} {P : W → Type 0} where
  continue-Keeps :
      (o : Outcome A) (f : A → Action W B) → ((a : A) → Keeps P (f a)) → Keeps P (continue o f)
  continue-Keeps (ok a) f h w p = h a w p
  continue-Keeps (err e) f h w p = p
  continue-Keeps (panic s) f h w p = p

  pub bind-Keeps :
      (m : Action W A) (f : A → Action W B)
      → Keeps P m
      → ((a : A) → Keeps P (f a))
      → Keeps P (m >>= f)
  unfolding ◌>>=◌
  bind-Keeps m f hm hf w p = let (o, w') = m w in continue-Keeps o f hf w' (hm w p)

module _ {W A : Type 0} {P : W → Type 0} where
  pub wrap_err-Keeps : (f : Error → Error) (m : Action W A) → Keeps P m → Keeps P (wrap_err f m)
  unfolding wrap_err
  wrap_err-Keeps f m h w p = h w p

-- A callback that made of the metadata `m` of an object the metadata `m'`: the owner controls the
-- result, nobody else did control the object, and it keeps its name.
abbrev pub Claims : Library → ObjectMeta → ObjectMeta → ObjectMeta → Type 0
Claims lib owner m m' =
    (lib.is_controlled_by m' owner ≡ true)
    × ((other : ObjectMeta)
        → lib.is_controlled_by m other ≡ true
        → lib.is_controlled_by m owner ≡ true)
    × (object_key m' ≡ object_key m)

-- What a property of the cluster must withstand to be kept by the work on one Site: reads, writes
-- under the Site's own names by which the Site claims the object, deletions under such names of
-- objects that were just read and that the Site controls, updates of the status of the Site as it
-- was read, and waiting between the attempts of a retried call.
pub record Permits (lib : Library) (c : Client) (site : Site) (P : c.World → Type 0) : Type 0 where
  pub get_keeps : (k : Kind) (n : Key) → Keeps P (c.get k n)
  pub write_keeps :
      (k : Kind) (o : Obj k) (f : Obj k → Outcome (Obj k))
      → IsOwnName site k (key_of k o)
      → ((x y : Obj k) → f x ≡ ok y → Claims lib site.meta (meta_of k x) (meta_of k y))
      → Keeps P (c.create_or_update k o f)
  pub delete_keeps :
      (k : Kind) (n : Key) (o : Obj k) (w w' : c.World)
      → c.get k n w ≡ (ok o, w')
      → IsOwnName site k n
      → lib.is_controlled_by (meta_of k o) site.meta ≡ true
      → P w
      → P w'
      → P (c.delete k o w').1
  pub status_keeps :
      (old : Site) (status : SiteStatus) (w w' w'' : c.World)
      → c.get Kind.site (object_key site.meta) w ≡ (ok old, w')
      → P w
      → P w''
      → P (c.update_status (record old { status = status }) w'').1
  pub retry_keeps : (m : M c (Unit {0})) → Keeps P m → Keeps P (c.retry_on_conflict m)

-- A callback that only sets the owner, which it refuses for an object of another's, and builds the
-- object around the metadata, claims it.
pub map_ok-Claims :
    (lib : Library)
    → OwnerLaws lib
    → (k : Kind) (g : ObjectMeta → Obj k) → ((m : ObjectMeta) → meta_of k (g m) ≡ m)
    → (owner m n : ObjectMeta) → m.owner_references ≡ n.owner_references
    → object_key m ≡ object_key n
    → (y : Obj k) → map_ok g (lib.set_controller_reference owner m) ≡ ok y
    → Claims lib owner n (meta_of k y)
map_ok-Claims lib laws k g meta owner m n refs key y e =
    let (m', set, made) = map_ok-inverse g (lib.set_controller_reference owner m) e in
    let same : meta_of k y ≡ m' = ap (meta_of k) (sym made) ∙ meta m' in
    (
      rw same (laws.set_controls owner m set),
      λ other held. elim (Bool-cases (lib.is_controlled_by n owner)) [
        | inl own ↦ own
        | inr free ↦
            let (t, refused) =
              laws.set_refused owner m other (laws.controlled_by_refs other m n refs ∙ held)
                (laws.controlled_by_refs owner m n refs ∙ free) in
            cc
      ],
      ap object_key (same ∙ laws.set_only owner m set) ∙ key,
    )

module _ (lib : Library) (c : Client) (site : Site) {P : c.World → Type 0}
    (h : Permits lib c site P) where
  delete_if_controlled-Keeps :
      (k : Kind) (n : Key) (o : Obj k) (w w' : c.World)
      → c.get k n w ≡ (ok o, w')
      → IsOwnName site k n
      → P w
      → P w'
      → P (delete_if_controlled lib c k site o w').1
  unfolding delete_if_controlled
  delete_if_controlled-Keeps k n o w w' got own p p' =
      elim (Bool-cases (lib.is_controlled_by (meta_of k o) site.meta)) [
        | inl yes' ↦ rw yes' (h.delete_keeps k n o w w' got own yes' p p')
        | inr no' ↦ rw no' p'
      ]

  -- Only objects that the Site controls are deleted.
  pub delete_owned-Keeps :
      (k : Kind) (o : Obj k) → IsOwnName site k (key_of k o) → Keeps P (delete_owned lib c k o site)
  unfolding delete_owned delete_found
  delete_owned-Keeps k o own w p = go (c.get k (key_of k o) w) refl
    where
      go :
          (r : Outcome (Obj k) × c.World)
          → c.get k (key_of k o) w ≡ r
          → P (delete_found lib c k site r.0 r.1).1
      go (ok x, w') got =
          delete_if_controlled-Keeps k (key_of k o) x w w' got own p
            (subst (λ (r : Outcome (Obj k) × c.World). P r.1) got (h.get_keeps k (key_of k o) w p))
      go (err e, w') got =
          subst (λ (r : Outcome (Obj k) × c.World). P r.1) got (h.get_keeps k (key_of k o) w p)
      go (panic t, w') got =
          subst (λ (r : Outcome (Obj k) × c.World). P r.1) got (h.get_keeps k (key_of k o) w p)
