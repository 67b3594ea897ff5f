-- ===== src/Manager/Watches.antt =====
-- What the manager watches, and what it keeps out of its cache: SetupWithManager of
-- internal/controller/site_controller.go, and cmd/main.go.
use site_operator.Common.{String, List, [], ◌∷◌}
use site_operator.Kube.Objects.{Kind}

-- What `SetupWithManager` tells the builder: the kind reconciled, the kinds owned and the name.
pub record Builder : Type 0 where
  pub for : Kind
  pub owns : List Kind
  pub named : String

unfoldable pub site_builder : Builder
site_builder = record {
  for = Kind.site;
  owns =
      Kind.deployment ∷ Kind.service ∷ Kind.ingress ∷ Kind.config_map ∷ Kind.pvc ∷ Kind.secret ∷ [];
  named = "site";
}

-- The kinds that the manager's client neither caches nor watches.
unfoldable pub disable_for : List Kind
disable_for = Kind.database ∷ Kind.user ∷ Kind.grant ∷ []
