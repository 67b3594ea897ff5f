-- ===== src/Controller/Histories/Each.antt =====
-- What each object that a Site may want has, all that it wants have.
use site_operator.Common.{
  String, Bool, true, false, List, [], ◌∷◌, ◌++◌, All, All-append, if◌then◌else◌,
}
use site_operator.Api.Site.{Site, MariaDbClusterRef}
use site_operator.Kube.Library.{Library}
use site_operator.Helpers.{provision_enabled}
use site_operator.Controller.Converge.Stages.{Wish}
use site_operator.Controller.Converge.Shapes.{
  wishes, database_wishes, secret_wish, nginx_wish, php_wish, deployment_wish, service_wish,
  ingress_wish, pvc_wish,
}

record Every (P : Wish → Type 0) (ws : List Wish) : Type 0 where
  all : All P ws

seq-Every : {P : Wish → Type 0} {ws vs : List Wish} → Every P ws → Every P vs → Every P (ws ++ vs)
seq-Every {P = P} {ws = ws} {vs = vs} g f = record { all = All-append P ws vs g.all f.all }

module _ (lib : Library) (site : Site) (hash : String → String) (ref : MariaDbClusterRef)
    (P : Wish → Type 0) where
  database-Every :
      (b : Bool)
      → All P (database_wishes lib site ref)
      → Every P (if b then database_wishes lib site ref else [])
  database-Every true all = record { all = all }
  database-Every false all = record { all = tt }

  one : {v : Wish} → P v → Every P (v ∷ [])
  one p = record { all = (p, tt) }

  pub wishes-All :
      P (secret_wish lib site)
      → All P (database_wishes lib site ref)
      → P (nginx_wish lib site)
      → P (php_wish lib site)
      → P (deployment_wish lib site hash)
      → P (service_wish lib site)
      → P (ingress_wish lib site)
      → P (pvc_wish lib site)
      → All P (wishes lib site hash ref)
  wishes-All secret databases nginx php deployment service ingress pvc =
      let pods : Every P
          (nginx_wish lib site ∷ php_wish lib site ∷ deployment_wish lib site hash ∷ []) =
        record { all = (nginx, (php, (deployment, tt))) } in
      let whole : Every P (wishes lib site hash ref) =
        seq-Every
          (seq-Every
            (seq-Every
              (seq-Every
                (seq-Every (one secret) (database-Every (provision_enabled site) databases)) pods)
              (one service))
            (one ingress))
          (one pvc) in
      whole.all
