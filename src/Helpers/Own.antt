-- ===== src/Helpers/Own.antt =====
-- The names under which internal/controller writes the objects of one Site.
use site_operator.Common.{String, ◌≡◌, ◌⊎◌, ◌<>◌}
use site_operator.Kube.Meta.{Key}
use site_operator.Kube.Objects.{Kind}
use site_operator.Api.Site.{Site}
use site_operator.Helpers.{site_secret}

abbrev pub own_key : Site → String → Key
own_key site name = record { namespace = site.meta.namespace; name = name }

-- A Site itself is none of its own objects.
abbrev pub IsOwnName : Site → Kind → Key → Type 0
IsOwnName site Kind.site n = ⊥
IsOwnName site Kind.secret n = n ≡ own_key site (site_secret site)
IsOwnName site Kind.config_map n =
    (n ≡ own_key site (site.meta.name <> "-nginx")) ⊎ (n ≡ own_key site (site.meta.name <> "-php"))
IsOwnName site Kind.deployment n = n ≡ own_key site site.meta.name
IsOwnName site Kind.service n = n ≡ own_key site site.meta.name
IsOwnName site Kind.ingress n = n ≡ own_key site (site.meta.name <> "-ingress")
IsOwnName site Kind.pvc n = n ≡ own_key site (site.meta.name <> "-data")
IsOwnName site Kind.database n = n ≡ own_key site site.meta.name
IsOwnName site Kind.user n = n ≡ own_key site (site.meta.name <> "-db-user")
IsOwnName site Kind.grant n = n ≡ own_key site (site.meta.name <> "-db-grant")
