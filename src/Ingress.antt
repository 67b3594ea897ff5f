-- ===== src/Ingress.antt =====
-- internal/controller/ingress.go
use site_operator.Common.{
  String, Option, none, some, List, [], ◌∷◌, ◌++◌, ◌==◌, ◌<>◌, Dict, if◌then◌else◌,
}
use site_operator.Common.Int.{pos}
use site_operator.Common.Outcome.{Outcome, map_ok}
use site_operator.Api.Site.{Site, IngressSpec}
use site_operator.Kube.Objects.{Ingress, IngressTls, HttpIngressPath, prefix, Kind}
use site_operator.Kube.Library.{Library}
use site_operator.Kube.Client.{Client, M}
use site_operator.Helpers.{new_meta, bool_ptr_val}
use site_operator.Secret.{file_browser_enabled}
use site_operator.Kube.Owned.{delete_owned}

unfoldable pub ingress_paths : Site → IngressSpec → List HttpIngressPath
ingress_paths site ingress =
    (record { path = ingress.path; path_type = prefix; service = site.meta.name; port = pos 80 }
      ∷ [])
    ++ (if file_browser_enabled site.spec.file_browser
        then record {
          path = "/filebrowser";
          path_type = prefix;
          service = site.meta.name;
          port = pos 8080;
        }
          ∷ []
        else [])

unfoldable pub ingress_tls : Site → IngressSpec → List IngressTls
ingress_tls site ingress =
    if bool_ptr_val ingress.tls
    then record { hosts = site.spec.domain ∷ []; secret_name = site.meta.name <> "-tls" } ∷ []
    else []

abbrev pub new_ingress : Site → Ingress
new_ingress site = record {
  meta = new_meta (site.meta.name <> "-ingress") site;
  ingress_class_name = none;
  rules = [];
  tls = [];
}

-- `site.Spec.Ingress` if it is there and enabled.
unfoldable pub wanted_of : Option IngressSpec → Option IngressSpec
wanted_of none = none
wanted_of (some i) = if i.enabled then some i else none

module _ (lib : Library) where
  -- The class of the Ingress is only written when the Site names one.
  unfoldable pub mutate_ingress : Site → IngressSpec → Dict String → Ingress → Outcome Ingress
  mutate_ingress site ingress labels ing =
      map_ok
        (λ m. record {
          meta = m;
          ingress_class_name =
              if ingress.ingress_class_name == ""
              then ing.ingress_class_name
              else some ingress.ingress_class_name;
          rules = record { host = site.spec.domain; paths = ingress_paths site ingress } ∷ [];
          tls = ingress_tls site ingress;
        })
        (lib.set_controller_reference site.meta
          (record (ing.meta) { labels = labels; annotations = ingress.annotations }))

  unfoldable pub reconcile_ingress : (c : Client) → Site → Dict String → M c (Unit {0})
  unfolding wanted_of
  reconcile_ingress c site labels = elim (wanted_of site.spec.ingress) [
    | none ↦ delete_owned lib c Kind.ingress (new_ingress site) site
    | some ingress ↦
        c.retry_on_conflict
          (c.create_or_update Kind.ingress (new_ingress site) (mutate_ingress site ingress labels))
  ]
