-- ===== src/Controller/Converge/Objects.antt =====
-- Each object of a Site as it should be, and that one call of its reconcile function makes it so.
use site_operator.Common.{
  String, List, Option, some, subst, Dict, ◌≡◌, refl, sym, ap, ◌∙◌, ◌<>◌, All-elem, lookup,
  or_empty, is_some,
}
use site_operator.Common.Outcome.{ok, map_ok}
use site_operator.Api.Site.{Site, MariaDbClusterRef}
use site_operator.Kube.Meta.{ObjectMeta}
use site_operator.Kube.Pod.{EnvVar}
use site_operator.Kube.Objects.{
  Kind, Bytes, Secret, ConfigMap, Deployment, DeploymentSpec, Service, Database, User, Grant,
}
use site_operator.Kube.Library.{Library, OwnerLaws}
use site_operator.Kube.Client.{Client}
use site_operator.Kube.Server.{Server, ServerLaws}
use site_operator.Helpers.{site_secret}
use site_operator.Secret.{Entropy, Filling, populate, mutate_secret, reconcile_secret}
use site_operator.Secret.Keys.{generated_keys, has-populate, populate-populate}
use site_operator.Provision.{
  mutate_database, mutate_user, mutate_grant, reconcile_database, reconcile_user, reconcile_grant,
  to_maria_db_ref,
}
use site_operator.Deployment.{
  mutate_config_map, mutate_deployment, reconcile_config_map, reconcile_deployment_object,
}
use site_operator.Service.{mutate_service, reconcile_service}
use site_operator.Controller.Converge.Shapes.{
  key, IsSecretOf, IsConfigMapOf, IsDeploymentOf, IsServiceOf, IsDatabaseOf, IsUserOf, IsGrantOf,
}
use site_operator.Controller.Converge.Ensure.{Ours, Done, Is, write-Done, retry-Done}

abbrev pub relabelled : Dict String → ObjectMeta → ObjectMeta
relabelled labels m = record m { labels = labels }

pub relabelled-again :
    (labels : Dict String) (m n : ObjectMeta)
    → n.labels ≡ (relabelled labels m).labels
    → n.annotations ≡ (relabelled labels m).annotations
    → relabelled labels n ≡ n
relabelled-again labels m n l a = ap (λ (q : Dict String). record n { labels = q }) (sym l)

-- Filling data that was filled changes nothing, whatever entropy there is.
refilled :
    (site : Site) (e e' : Entropy) (f : Filling) (o : Option (Dict Bytes))
    → o ≡ some (populate e site f).contents
    → some (populate e' site (record { contents = or_empty o; calls = 0 })).contents ≡ o
refilled site e e' f o filled =
    subst
      (λ (q : Option (Dict Bytes)).
        some (populate e' site (record { contents = or_empty q; calls = 0 })).contents ≡ q)
      (sym filled) (ap (λ (q : Filling). some q.contents) (populate-populate e e' site f))

pub labels_of :
    (labels : Dict String) (m : ObjectMeta) → relabelled labels m ≡ m → m.labels ≡ labels
labels_of labels m e = ap (λ (q : ObjectMeta). q.labels) (sym e)

module _ (lib : Library) (laws : OwnerLaws lib) (site : Site) {c : Client} (s : Server c)
    (sl : ServerLaws s) (w : c.World) (up : s.Serves w) where
  pub secret-Done :
      (e : Entropy)
      → Ours lib s site Kind.secret (key lib site (site_secret site)) w
      → Done s Kind.secret
          (key lib site (site_secret site))
          w
          (reconcile_secret lib c e site w)
          (Is (IsSecretOf lib site))
  unfolding reconcile_secret mutate_secret
  secret-Done e ours =
      write-Done lib laws site s sl Kind.secret _ w _ _ (λ m. m) _ (λ x. refl) (λ x m. refl)
        (λ m. refl) refl refl up ours (λ m n l a. refl)
        (λ m' x y (stamped, same, _) kept. (
          kept.owned,
          All-elem _ (generated_keys site) λ j needed.
              ap (λ (q : Secret). is_some (lookup j (or_empty q.contents))) same
              ∙ (has-populate e site j (record { contents = or_empty x.contents; calls = 0 })
                  ∙ rw needed),
          λ e'.
              ap (map_ok _) kept.sets
              ∙ ap (λ (q : Option (Dict Bytes)). ok (record { meta = y.meta; contents = q }))
                  (refilled site e e' (record { contents = or_empty x.contents; calls = 0 })
                    y.contents (ap (λ (q : Secret). q.contents) same)),
        ))

  pub service-Done :
      (labels : Dict String)
      → Ours lib s site Kind.service (key lib site site.meta.name) w
      → Done s Kind.service
          (key lib site site.meta.name)
          w
          (reconcile_service lib c site labels w)
          (Is (IsServiceOf lib site labels))
  unfolding reconcile_service mutate_service
  service-Done labels ours = retry-Done lib laws site s sl _ (
      write-Done lib laws site s sl Kind.service _ w _ _ (relabelled labels) _ (λ x. refl)
        (λ x m. refl) (λ m. refl) refl refl up ours (relabelled-again labels)
        (λ m' x y (stamped, same, _) kept. (
          kept.owned,
          labels_of labels y.meta kept.relabels,
          ap (λ (q : Service). q.selector) same,
          ap (λ (q : Service). q.ports) same,
          ap (map_ok _) kept.sets ∙ ap ok (sym same),
        )))

  pub config_map-Done :
      (name : String) (contents : Dict String)
      → Ours lib s site Kind.config_map (key lib site name) w
      → Done s Kind.config_map
          (key lib site name)
          w
          (reconcile_config_map lib c site name contents w)
          (Is (IsConfigMapOf lib site contents))
  unfolding reconcile_config_map mutate_config_map
  config_map-Done name contents ours = retry-Done lib laws site s sl _ (
      write-Done lib laws site s sl Kind.config_map _ w _ _ (λ m. m) _ (λ x. refl) (λ x m. refl)
        (λ m. refl) refl refl up ours (λ m n l a. refl)
        (λ m' x y (stamped, same, _) kept. (
          kept.owned,
          ap (λ (q : ConfigMap). q.contents) same,
          ap (map_ok _) kept.sets ∙ ap ok (sym same),
        )))

  pub deployment-Done :
      (labels : Dict String) (envs : List EnvVar) (config_hash : String)
      → Ours lib s site Kind.deployment (key lib site site.meta.name) w
      → Done s Kind.deployment
          (key lib site site.meta.name)
          w
          (reconcile_deployment_object lib c site labels envs config_hash w)
          (Is (IsDeploymentOf lib site labels envs config_hash))
  unfolding reconcile_deployment_object mutate_deployment
  deployment-Done labels envs config_hash ours = retry-Done lib laws site s sl _ (
      write-Done lib laws site s sl Kind.deployment _ w _ _ (relabelled labels) _ (λ x. refl)
        (λ x m. refl) (λ m. refl) refl refl up ours (relabelled-again labels)
        (λ m' x y (stamped, same, _) kept. (
          kept.owned,
          labels_of labels y.meta kept.relabels,
          ap (λ (q : Deployment). q.spec) same,
          ap (map_ok _) kept.sets
              ∙ ap (λ (q : DeploymentSpec). ok (record y { spec = q }))
                  (sym (ap (λ (q : Deployment). q.spec) same)),
        )))

module _ (lib : Library) (laws : OwnerLaws lib) (site : Site) {c : Client} (s : Server c)
    (sl : ServerLaws s) (w : c.World) (up : s.Serves w) (r : MariaDbClusterRef) where
  pub database-Done :
      Ours lib s site Kind.database (key lib site site.meta.name) w
      → Done s Kind.database
          (key lib site site.meta.name)
          w
          (reconcile_database lib c site (to_maria_db_ref r) w)
          (Is (IsDatabaseOf lib site r))
  unfolding reconcile_database mutate_database
  database-Done ours = retry-Done lib laws site s sl _ (
      write-Done lib laws site s sl Kind.database _ w _ _ (λ m. m) _ (λ x. refl) (λ x m. refl)
        (λ m. refl) refl refl up ours (λ m n l a. refl)
        (λ m' x y (stamped, same, _) kept. (
          kept.owned,
          ap (λ (q : Database). q.maria_db_ref) same,
          ap (λ (q : Database). q.name) same,
          ap (map_ok _) kept.sets ∙ ap ok (sym same),
        )))

  pub user-Done :
      Ours lib s site Kind.user (key lib site (site.meta.name <> "-db-user")) w
      → Done s Kind.user
          (key lib site (site.meta.name <> "-db-user"))
          w
          (reconcile_user lib c site (to_maria_db_ref r) w)
          (Is (IsUserOf lib site r))
  unfolding reconcile_user mutate_user
  user-Done ours = retry-Done lib laws site s sl _ (
      write-Done lib laws site s sl Kind.user _ w _ _ (λ m. m) _ (λ x. refl) (λ x m. refl)
        (λ m. refl) refl refl up ours (λ m n l a. refl)
        (λ m' x y (stamped, same, _) kept. (
          kept.owned,
          ap (λ (q : User). q.maria_db_ref) same,
          ap (λ (q : User). q.name) same,
          ap (λ (q : User). q.password_secret_key_ref) same,
          ap (map_ok _) kept.sets ∙ ap ok (sym same),
        )))

  pub grant-Done :
      Ours lib s site Kind.grant (key lib site (site.meta.name <> "-db-grant")) w
      → Done s Kind.grant
          (key lib site (site.meta.name <> "-db-grant"))
          w
          (reconcile_grant lib c site (to_maria_db_ref r) w)
          (Is (IsGrantOf lib site r))
  unfolding reconcile_grant mutate_grant
  grant-Done ours = retry-Done lib laws site s sl _ (
      write-Done lib laws site s sl Kind.grant _ w _ _ (λ m. m) _ (λ x. refl) (λ x m. refl)
        (λ m. refl) refl refl up ours (λ m n l a. refl)
        (λ m' x y (stamped, same, _) kept. (
          kept.owned,
          ap (λ (q : Grant). q.maria_db_ref) same,
          ap (λ (q : Grant). q.privileges) same,
          ap (λ (q : Grant). q.database) same,
          ap (λ (q : Grant). q.table) same,
          ap (λ (q : Grant). q.username) same,
          ap (map_ok _) kept.sets ∙ ap ok (sym same),
        )))
