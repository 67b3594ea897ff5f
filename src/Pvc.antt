-- ===== src/Pvc.antt =====
-- internal/controller/pvc.go
pub mod Claim
use site_operator.Common.{
  String, Bool, true, false, Option, none, some, [], ◌∷◌, ◌==◌, ◌<>◌, insert, or_empty, ◌&&◌,
  if◌then◌else◌,
}
use site_operator.Common.Outcome.{Outcome, panic, map_ok}
use site_operator.Api.Site.{Site, PersistenceSpec}
use site_operator.Kube.Objects.{PersistentVolumeClaim, read_write_once, Kind}
use site_operator.Kube.Library.{Library}
use site_operator.Kube.Client.{Client, M}
use site_operator.Kube.Owned.{delete_owned}
use site_operator.Helpers.{new_meta}
use site_operator.Deployment.Config.{text_or}

abbrev pub new_pvc : Site → PersistentVolumeClaim
new_pvc site = record {
  meta = new_meta (site.meta.name <> "-data") site;
  access_modes = [];
  requests = none;
  storage_class_name = none;
}

-- The Site's own class wins over the operator's default, and neither may be set.
unfoldable pub storage_class : PersistenceSpec → String → Option String
storage_class p default = elim p.storage_class_name [
  | some own ↦ some own
  | none ↦ if default == "" then none else some default
]

-- The class is written on creation alone, and only if there is one.
unfoldable pub created_class : Bool → Option String → Option String → Option String
created_class true class old = old
created_class false none old = old
created_class false (some class) old = some class

-- Persistence that is enabled and brings no claim of its own.
unfoldable pub managed_persistence : Option PersistenceSpec → Option PersistenceSpec
managed_persistence none = none
managed_persistence (some p) = if p.enabled && p.existing_claim == "" then some p else none

module _ (lib : Library) where
  -- The size is parsed after the labels and modes are set; a malformed size panics.
  unfoldable pub mutate_pvc :
      Site → String → Option String → PersistentVolumeClaim → Outcome PersistentVolumeClaim
  unfolding created_class
  mutate_pvc site size class pvc = elim (lib.parse_quantity size) [
    | none ↦ panic ("cannot parse '" <> (size <> "'"))
    | some q ↦
        map_ok
          (λ m. record {
            meta = m;
            access_modes = if created then pvc.access_modes else read_write_once ∷ [];
            requests = some (insert "storage" q (or_empty pvc.requests));
            storage_class_name = created_class created class pvc.storage_class_name;
          })
          (lib.set_controller_reference site.meta
            (record (pvc.meta) { labels = ("app", site.meta.name) ∷ [] }))
  ]
    where
      open pvc.meta use {created}

  unfoldable pub reconcile_pvc : (c : Client) → Site → String → M c (Unit {0})
  reconcile_pvc c site default_class = elim (managed_persistence site.spec.persistence) [
    | none ↦ delete_owned lib c Kind.pvc (new_pvc site) site
    | some p ↦ c.retry_on_conflict (
        c.create_or_update Kind.pvc (new_pvc site)
          (mutate_pvc site (text_or "1Gi" p.size) (storage_class p default_class)))
  ]
