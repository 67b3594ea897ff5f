-- ===== src/Manager/Follows.antt =====
-- Which of its objects the controller hears of.
use site_operator.Common.{
  String, Bool, true, false, List, [], ◌∷◌, ◌++◌, ◌≡◌, ◌≢◌, ◌⊎◌, inl, inr, refl, All, arith,
  if◌then◌else◌,
}
use site_operator.Api.Site.{Site, MariaDbClusterRef}
use site_operator.Kube.Objects.{Kind}
use site_operator.Kube.Library.{Library}
use site_operator.Helpers.{provision_enabled}
use site_operator.Controller.Converge.Stages.{Wish}
use site_operator.Controller.Converge.Shapes.{
  secret_wish, database_wishes, nginx_wish, php_wish, deployment_wish, service_wish, ingress_wish,
  pvc_wish, wishes,
}
use site_operator.Controller.Independent.{maria_db}
use site_operator.Manager.Watches.{site_builder, disable_for}

abbrev pub Among : Kind → List Kind → Type 0
Among k [] = ⊥
Among k (j ∷ js) = (k ≡ j) ⊎ Among k js

-- The controller owns the kind, and the client reads it through the cache, which watches it; or it
-- is one of mariadb-operator's kinds, is not owned, and is read from the API server.
abbrev pub IsFollowed : Kind → Type 0
IsFollowed k =
    if maria_db k
    then Among k disable_for × (¬ Among k site_builder.owns)
    else Among k site_builder.owns × (¬ Among k disable_for)

follows : (k : Kind) → k ≢ Kind.site → IsFollowed k
unfolding site_builder disable_for
follows Kind.site h = absurd (h refl)
follows Kind.secret h = (inr (inr (inr (inr (inr (inl refl))))), λ m. ground arith)
follows Kind.config_map h = (inr (inr (inr (inl refl))), λ m. ground arith)
follows Kind.deployment h = (inl refl, λ m. ground arith)
follows Kind.service h = (inr (inl refl), λ m. ground arith)
follows Kind.ingress h = (inr (inr (inl refl)), λ m. ground arith)
follows Kind.pvc h = (inr (inr (inr (inr (inl refl)))), λ m. ground arith)
follows Kind.database h = (inl refl, λ m. ground arith)
follows Kind.user h = (inr (inl refl), λ m. ground arith)
follows Kind.grant h = (inr (inr (inl refl)), λ m. ground arith)

All-IsFollowed :
    (ws : List Wish)
    → All (λ (v : Wish). v.kind ≢ Kind.site) ws
    → All (λ (v : Wish). IsFollowed v.kind) ws
All-IsFollowed [] h = tt
All-IsFollowed (w ∷ ws) h = (follows w.kind h.0, All-IsFollowed ws h.1)

module _ (lib : Library) (site : Site) (hash : String → String) (r : MariaDbClusterRef) where
  abbrev wishes_if : Bool → List Wish
  wishes_if b =
      (((((secret_wish lib site ∷ []) ++ (if b then database_wishes lib site r else []))
            ++ (nginx_wish lib site ∷ php_wish lib site ∷ deployment_wish lib site hash ∷ []))
          ++ (service_wish lib site ∷ []))
        ++ (ingress_wish lib site ∷ []))
      ++ (pvc_wish lib site ∷ [])

  none_a_site : (b : Bool) → All (λ (v : Wish). v.kind ≢ Kind.site) (wishes_if b)
  none_a_site true = ground arith
  none_a_site false = ground arith

  -- Of every kind that Reconcile writes for a Site, the controller is told when an object that the
  -- Site controls changes, and its reads come from the watched cache; but for the kinds of
  -- mariadb-operator, which are neither watched nor cached.
  pub wishes-IsFollowed : All (λ (v : Wish). IsFollowed v.kind) (wishes lib site hash r)
  wishes-IsFollowed = All-IsFollowed (wishes lib site hash r) (none_a_site (provision_enabled site))
