-- ===== src/Kube/Owned.antt =====
-- Deleting an object of a Site only if the Site controls it: deleteOwnedPVC of
-- internal/controller/pvc.go, and the first branch of reconcileIngress in
-- internal/controller/ingress.go, which is the same text for an Ingress.
use site_operator.Common.{none, some, if◌then◌else◌}
use site_operator.Common.Outcome.{Outcome, ok, err, panic, from_error}
use site_operator.Api.Site.{Site}
use site_operator.Kube.Objects.{Kind, Obj, meta_of, key_of}
use site_operator.Kube.Library.{Library}
use site_operator.Kube.Client.{Client, M}

-- `return client.IgnoreNotFound(err)`, where `err` may be nil.
unfoldable pub ignoring_not_found : Library → Outcome (Unit {0}) → Outcome (Unit {0})
ignoring_not_found lib (ok u) = from_error (lib.ignore_not_found none)
ignoring_not_found lib (err e) = from_error (lib.ignore_not_found (some e))
ignoring_not_found lib (panic s) = panic s

module _ (lib : Library) (c : Client) (k : Kind) where
  unfoldable pub delete_if_controlled : Site → Obj k → M c (Unit {0})
  delete_if_controlled owner o w =
      if lib.is_controlled_by (meta_of k o) owner.meta
      then (let (r, w') = c.delete k o w in (ignoring_not_found lib r, w'))
      else (ok tt, w)

  unfoldable pub delete_found : Site → Outcome (Obj k) → M c (Unit {0})
  unfolding delete_if_controlled ignoring_not_found
  delete_found owner (ok o) w = delete_if_controlled owner o w
  delete_found owner (err e) w = (from_error (lib.ignore_not_found (some e)), w)
  delete_found owner (panic s) w = (panic s, w)

  unfoldable pub delete_owned : Obj k → Site → M c (Unit {0})
  unfolding delete_found
  delete_owned named owner w = let (r, w') = c.get k (key_of k named) w in delete_found owner r w'
