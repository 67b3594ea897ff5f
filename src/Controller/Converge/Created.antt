-- ===== src/Controller/Converge/Created.antt =====
-- What a claim is made with, and what of it stays: its access modes and its storage class.
use site_operator.Common.{
  String, true, false, Option, none, some, [], ◌∷◌, ◌≡◌, ◌≢◌, ◌⊎◌, inl, inr, refl, ap, ◌∙◌, subst,
  ◌==◌, eq_iff, Bool-cases, if◌then◌else◌,
}
use site_operator.Api.Site.{Site, PersistenceSpec}
use site_operator.Kube.Objects.{PersistentVolumeClaim, read_write_once}
use site_operator.Kube.Server.{Defaulted}
use site_operator.Pvc.{new_pvc, managed_persistence, storage_class, created_class}
use site_operator.Controller.Converge.Shapes.{AsWanted}

-- The class to ask for: the one that the Site names, or else the operator's own if it has one.
abbrev pub IsClass : PersistenceSpec → String → Option String → Type 0
IsClass p default class =
    ((own : String) × (p.storage_class_name ≡ some own) × (class ≡ some own))
    ⊎ ((p.storage_class_name ≡ none) × (default ≢ "") × (class ≡ some default))
    ⊎ ((p.storage_class_name ≡ none) × (default ≡ "") × (class ≡ none))

-- A claim that was not there is made for one node, with the class asked for, or any that the server
-- chooses where none is. One that was there keeps its modes and its class.
abbrev pub ClaimFrom : Option String → Option PersistentVolumeClaim → PersistentVolumeClaim → Type 0
ClaimFrom class none x =
    (x.access_modes ≡ read_write_once ∷ []) × Defaulted class x.storage_class_name
ClaimFrom class (some old) x =
    (x.access_modes ≡ old.access_modes) × Defaulted old.storage_class_name x.storage_class_name

abbrev pub Created :
    String → Option PersistentVolumeClaim → PersistenceSpec → PersistentVolumeClaim → Type 0
Created default old p x = (class : Option String) × IsClass p default class × ClaimFrom class old x

-- The claim that the Site wants comes from what was there under its name; one it does not want is
-- not there.
abbrev pub Claimed :
    Site → String → Option PersistentVolumeClaim → Option PersistentVolumeClaim → Type 0
Claimed site default old new =
    AsWanted (Created default old) (managed_persistence site.spec.persistence) new

pub storage_class-IsClass :
    (p : PersistenceSpec) (default : String) → IsClass p default (storage_class p default)
unfolding storage_class
storage_class-IsClass p default = go p.storage_class_name refl
  where
    go :
        (o : Option String) → p.storage_class_name ≡ o → IsClass p default (storage_class p default)
    go (some own) e = inl (own, e, rw (e, storage_class) refl)
    go none e = elim (Bool-cases (default == "")) [
      | inl empty ↦
          inr (inr (e, (eq_iff default "").0 empty, rw (e, storage_class) (rw empty refl)))
      | inr given ↦ inr (
          inl (
            e,
            λ same. no given ((eq_iff default "").1 same),
            rw (e, storage_class) (rw given refl),
          ))
    ]
      where
        no : (default == "") ≡ false → (default == "") ≡ true → ⊥
        no h h' = cc

fresh-Defaulted :
    (class : Option String) (new : Option String)
    → Defaulted (created_class false class none) new
    → Defaulted class new
unfolding created_class
fresh-Defaulted none new h = tt
fresh-Defaulted (some x) new h = h

kept-Defaulted :
    (class old new : Option String)
    → Defaulted (created_class true class old) new
    → Defaulted old new
unfolding created_class
kept-Defaulted class old new h = h

-- What the callback makes of the claim that it found, or of a new one.
pub written-ClaimFrom :
    (site : Site) (class : Option String) (v : Option PersistentVolumeClaim)
    (x y : PersistentVolumeClaim)
    → x ≡ elim v [ none ↦ new_pvc site | some old ↦ old ]
    → ((old : PersistentVolumeClaim) → v ≡ some old → old.meta.created ≡ true)
    → y.access_modes ≡ (if x.meta.created then x.access_modes else read_write_once ∷ [])
    → Defaulted (created_class x.meta.created class x.storage_class_name) y.storage_class_name
    → ClaimFrom class v y
written-ClaimFrom site class none x y is created modes named = (
  modes
      ∙ ap
          (λ (z : PersistentVolumeClaim).
            if z.meta.created then z.access_modes else read_write_once ∷ [])
          is,
  fresh-Defaulted class y.storage_class_name (
      subst
        (λ (z : PersistentVolumeClaim).
          Defaulted (created_class z.meta.created class z.storage_class_name) y.storage_class_name)
        is named),
)
written-ClaimFrom site class (some old) x y is created modes named = (
  modes
      ∙ ap
          (λ (z : PersistentVolumeClaim).
            if z.meta.created then z.access_modes else read_write_once ∷ [])
          is
      ∙ ap (λ b. if b then old.access_modes else read_write_once ∷ []) (created old refl),
  kept-Defaulted class old.storage_class_name y.storage_class_name (
      subst (λ b. Defaulted (created_class b class old.storage_class_name) y.storage_class_name)
        (created old refl)
        (subst
          (λ (z : PersistentVolumeClaim).
            Defaulted (created_class z.meta.created class z.storage_class_name)
              y.storage_class_name)
          is named)),
)
