-- ===== src/Kube/Client.antt =====
-- The client of the API server, over an unknown state of the cluster and its clock.
use site_operator.Common.{List}
use site_operator.Common.Int.{ℤ}
use site_operator.Common.Outcome.{Outcome}
use site_operator.Kube.Action.{Action}
use site_operator.Kube.Meta.{Key}
use site_operator.Kube.Objects.{Kind, Obj}
use site_operator.Api.Site.{Site}

-- `get` is `client.Get`, `list_sites` a `client.List` of Sites, `delete` is `client.Delete`,
-- `update_status` is `Status().Update`, `create_or_update` is `controllerutil.CreateOrUpdate` and
-- `retry_on_conflict` is `retry.RetryOnConflict` with the default backoff.
pub record Client : Type 1 where
  pub World : Type 0
  pub now : World → ℤ
  pub get : (k : Kind) → Key → World → Outcome (Obj k) × World
  pub list_sites : World → Outcome (List Site) × World
  pub create_or_update :
      (k : Kind) → Obj k → (Obj k → Outcome (Obj k)) → World → Outcome (Unit {0}) × World
  pub delete : (k : Kind) → Obj k → World → Outcome (Unit {0}) × World
  pub update_status : Site → World → Outcome (Unit {0}) × World
  pub retry_on_conflict : (World → Outcome (Unit {0}) × World) → World → Outcome (Unit {0}) × World

-- A call that may change the cluster and may fail.
abbrev pub M : Client → Type 0 → Type 0
M c A = Action c.World A
