-- ===== src/Service.antt =====
-- internal/controller/service.go
use site_operator.Common.{String, List, [], ◌∷◌, ◌++◌, Dict, if◌then◌else◌}
use site_operator.Common.Int.{pos}
use site_operator.Common.Outcome.{Outcome, map_ok}
use site_operator.Api.Site.{Site}
use site_operator.Kube.Objects.{Service, ServicePort, Kind}
use site_operator.Kube.Library.{Library}
use site_operator.Kube.Client.{Client, M}
use site_operator.Helpers.{new_meta}
use site_operator.Secret.{file_browser_enabled}

unfoldable pub service_ports : Site → List ServicePort
service_ports site =
    (record { name = "http"; port = pos 80; target_port = pos 80 } ∷ [])
    ++ (if file_browser_enabled site.spec.file_browser
        then record { name = "filebrowser"; port = pos 8080; target_port = pos 8080 } ∷ []
        else [])

module _ (lib : Library) where
  unfoldable pub mutate_service : Site → Dict String → Service → Outcome Service
  mutate_service site labels svc =
      map_ok (λ m. record { meta = m; selector = labels; ports = service_ports site })
        (lib.set_controller_reference site.meta (record (svc.meta) { labels = labels }))

  unfoldable pub reconcile_service : (c : Client) → Site → Dict String → M c (Unit {0})
  reconcile_service c site labels = c.retry_on_conflict (
      c.create_or_update Kind.service
        (record { meta = new_meta site.meta.name site; selector = []; ports = [] })
        (mutate_service site labels))
