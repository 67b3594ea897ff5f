-- ===== src/Tests/SiteOnly.antt =====
-- A cluster that holds a Site and nothing else.
use site_operator.Common.{true, Option, none, some, ◌≡◌, ◌≢◌, refl, sym, ap, List, [], ◌∷◌, All}
use site_operator.Api.Site.{Site}
use site_operator.Kube.Meta.{Key, object_key}
use site_operator.Kube.Objects.{Kind, Obj}
use site_operator.Kube.Library.{Library}
use site_operator.Controller.Converge.Ensure.{Ours}
use site_operator.Controller.Converge.Stages.{Wish, AllOurs}
use site_operator.Kube.Equality.{Key-discrete}
use site_operator.Tests.Memory.{Cluster, found, renamed, memory_server}

abbrev site_at : Site → (k : Kind) → Option (Obj k)
site_at x Kind.site = some x
site_at x Kind.secret = none
site_at x Kind.config_map = none
site_at x Kind.deployment = none
site_at x Kind.service = none
site_at x Kind.ingress = none
site_at x Kind.pvc = none
site_at x Kind.database = none
site_at x Kind.user = none
site_at x Kind.grant = none

abbrev pub site_only : Site → Cluster
site_only x = record {
  at = λ k n. elim (Key-discrete (object_key x.meta) n) [ yes p ↦ site_at x k | no h ↦ none ];
}

module _ (x : Site) where
  pub site_only-site :
      x.meta.created ≡ true → found Kind.site (object_key x.meta) (site_only x) ≡ some x
  site_only-site created = go (Key-discrete (object_key x.meta) (object_key x.meta))
    where
      go :
          (d : Dec (object_key x.meta ≡ object_key x.meta))
          → renamed Kind.site (object_key x.meta) (elim d [ yes p ↦ some x | no h ↦ none ]) ≡ some x
      go (yes p) = ap (λ b. some (record x { meta = record x.meta { created = b } })) (sym created)
      go (no h) = absurd (h refl)

  site_at-none : (k : Kind) → Kind.site ≢ k → site_at x k ≡ none
  site_at-none Kind.site h = absurd (h refl)
  site_at-none Kind.secret h = refl
  site_at-none Kind.config_map h = refl
  site_at-none Kind.deployment h = refl
  site_at-none Kind.service h = refl
  site_at-none Kind.ingress h = refl
  site_at-none Kind.pvc h = refl
  site_at-none Kind.database h = refl
  site_at-none Kind.user h = refl
  site_at-none Kind.grant h = refl

  site_only-none : (k : Kind) (n : Key) → Kind.site ≢ k → found k n (site_only x) ≡ none
  site_only-none k n h = go (Key-discrete (object_key x.meta) n)
    where
      go :
          (d : Dec (object_key x.meta ≡ n))
          → renamed k n (elim d [ yes p ↦ site_at x k | no h ↦ none ]) ≡ none
      go (yes p) = ap (renamed k n) (site_at-none k h)
      go (no h') = refl

  pub site_only-Ours :
      (lib : Library) (k : Kind) (n : Key)
      → Kind.site ≢ k
      → Ours lib memory_server x k n (site_only x)
  site_only-Ours lib k n h o e = let gone = site_only-none k n h in cc

  pub site_only-AllOurs :
      (lib : Library) (ws : List Wish)
      → All (λ (v : Wish). Kind.site ≢ v.kind) ws
      → AllOurs lib x memory_server ws (site_only x)
  site_only-AllOurs lib [] h = tt
  site_only-AllOurs lib (v ∷ vs) h =
      (site_only-Ours lib v.kind v.name h.0, site_only-AllOurs lib vs h.1)
