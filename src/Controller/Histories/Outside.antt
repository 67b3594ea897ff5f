-- ===== src/Controller/Histories/Outside.antt =====
-- What a Site wants is not disturbed by others that leave its objects alone, but for the status of
-- its Deployment.
use site_operator.Common.{
  String, Option, none, some, List, [], ◌∷◌, Dict, ◌≡◌, refl, sym, ap, ◌∙◌, subst, All, inl, inr,
}
use site_operator.Common.Outcome.{ok, map_ok, map_ok-inverse}
use site_operator.Api.Site.{Site, MariaDbClusterRef}
use site_operator.Kube.Meta.{Key, ObjectMeta}
use site_operator.Kube.Pod.{EnvVar}
use site_operator.Kube.Objects.{Kind, Obj, Deployment, DeploymentStatus}
use site_operator.Kube.Library.{Library}
use site_operator.Kube.Client.{Client}
use site_operator.Kube.Server.{Server}
use site_operator.Helpers.Own.{IsOwnName}
use site_operator.Deployment.{mutate_deployment, build_deployment_spec}
use site_operator.Controller.Histories.Each.{wishes-All}
use site_operator.Controller.Converge.Stages.{Wish, Granted}
use site_operator.Controller.Converge.Ensure.{Is}
use site_operator.Controller.Converge.Shapes.{
  wishes, IsDeploymentOf, secret_wish, database_wish, user_wish, grant_wish, nginx_wish, php_wish,
  service_wish, ingress_wish, pvc_wish,
}

-- A Deployment may have another status.
abbrev with_status : DeploymentStatus → Option Deployment → Option Deployment
with_status status none = none
with_status status (some d) = some (record d { status = status })

-- How an object of the Site may change under the hands of others.
abbrev pub Untouched : (k : Kind) → Option (Obj k) → Option (Obj k) → Type 0
Untouched Kind.deployment o o' = (status : DeploymentStatus) × (o' ≡ with_status status o)
Untouched k o o' = o' ≡ o

-- None of the Site's objects was changed by others.
abbrev pub LeftAlone : {c : Client} → Server c → Site → c.World → c.World → Type 0
LeftAlone s site w w' =
    (k : Kind) (n : Key) → IsOwnName site k n → Untouched k (s.stored k n w) (s.stored k n w')

module _ (lib : Library) (site : Site) where
  abbrev Endures : Wish → Type 0
  Endures v =
      IsOwnName site v.kind v.name
      × ((o o' : Option (Obj v.kind)) → Untouched v.kind o o' → v.Holds o → v.Holds o')

  mutate_deployment-status :
      (labels : Dict String) (envs : List EnvVar) (config_hash : String) (x : Deployment)
      (status : DeploymentStatus)
      → mutate_deployment lib site labels envs config_hash x ≡ ok x
      → mutate_deployment lib site labels envs config_hash (record x { status = status })
        ≡ ok (record x { status = status })
  unfolding mutate_deployment
  mutate_deployment-status labels envs config_hash x status e =
      let (m, set, same) =
        map_ok-inverse
          (λ (m : ObjectMeta). record x {
            meta = m;
            spec = build_deployment_spec site labels envs config_hash;
          })
          (lib.set_controller_reference site.meta (record (x.meta) { labels = labels })) e in
      ap
        (map_ok (λ (m : ObjectMeta). record x {
          meta = m;
          spec = build_deployment_spec site labels envs config_hash;
          status = status;
        }))
        set
      ∙ (λ i. ok (record (same i) { status = status }))

  deployment-Endures :
      (labels : Dict String) (envs : List EnvVar) (config_hash : String) (o o' : Option Deployment)
      → Untouched Kind.deployment o o'
      → Is (IsDeploymentOf lib site labels envs config_hash) o
      → Is (IsDeploymentOf lib site labels envs config_hash) o'
  deployment-Endures labels envs config_hash o o' (status, changed) (x, there, holds) = (
    record x { status = status },
    changed ∙ ap (with_status status) there,
    (holds.0, holds.1, holds.2, mutate_deployment-status labels envs config_hash x status holds.3),
  )

  still-Endures :
      (v : Wish)
      → IsOwnName site v.kind v.name
      → ((o o' : Option (Obj v.kind)) → Untouched v.kind o o' → o' ≡ o)
      → Endures v
  still-Endures v own same = (own, λ o o' u. subst v.Holds (sym (same o o' u)))

  wishes-Endure :
      (hash : String → String) (ref : MariaDbClusterRef) → All Endures (wishes lib site hash ref)
  wishes-Endure hash ref =
      wishes-All lib site hash ref Endures (still-Endures (secret_wish lib site) refl (λ o o' e. e))
        (
          still-Endures (database_wish lib site ref) refl (λ o o' e. e),
          (
            still-Endures (user_wish lib site ref) refl (λ o o' e. e),
            (still-Endures (grant_wish lib site ref) refl (λ o o' e. e), tt),
          ),
        )
        (still-Endures (nginx_wish lib site) (inl refl) (λ o o' e. e))
        (still-Endures (php_wish lib site) (inr refl) (λ o o' e. e))
        (refl, deployment-Endures _ _ _) (still-Endures (service_wish lib site) refl (λ o o' e. e))
        (still-Endures (ingress_wish lib site) refl (λ o o' e. e))
        (still-Endures (pvc_wish lib site) refl (λ o o' e. e))

  module _ {c : Client} (s : Server c) (w w' : c.World) (alone : LeftAlone s site w w') where
    Granted-Endures : (ws : List Wish) → All Endures ws → Granted s ws w → Granted s ws w'
    Granted-Endures [] endures granted = tt
    Granted-Endures (v ∷ ws) endures granted = (
      endures.0.1 (s.stored v.kind v.name w) (s.stored v.kind v.name w')
          (alone v.kind v.name endures.0.0) granted.0,
      Granted-Endures ws endures.1 granted.1,
    )

    pub wishes-Alone :
        (hash : String → String) (ref : MariaDbClusterRef)
        → Granted s (wishes lib site hash ref) w
        → Granted s (wishes lib site hash ref) w'
    wishes-Alone hash ref = Granted-Endures (wishes lib site hash ref) (wishes-Endure hash ref)
