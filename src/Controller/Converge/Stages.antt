-- ===== src/Controller/Converge/Stages.antt =====
-- Calls that bring some objects of the cluster into a wanted shape, one after another.
use site_operator.Common.{
  Option, List, [], ◌∷◌, ◌++◌, ◌≡◌, ◌≢◌, ◌⊎◌, refl, sym, ap, ◌∙◌, subst, All, All-append, All-split,
}
use site_operator.Common.Outcome.{Outcome, ok, Error}
use site_operator.Api.Site.{Site}
use site_operator.Kube.Meta.{Key}
use site_operator.Kube.Objects.{Kind, Obj}
use site_operator.Kube.Action.{◌>>◌, ◌>>=◌, wrap_err, map_err, continue, lift}
use site_operator.Kube.Library.{Library}
use site_operator.Kube.Client.{Client, M}
use site_operator.Kube.Server.{Server}
use site_operator.Controller.Converge.Ensure.{Ours, Done}

-- What should be stored under a name.
pub record Wish : Type 1 where
  pub kind : Kind
  pub name : Key
  pub Holds : Option (Obj kind) → Type 0

-- A name is none of those of a list of wishes.
abbrev pub Apart : Kind → Key → List Wish → Type 0
Apart k n ws = All (λ (v : Wish). (v.kind ≢ k) ⊎ (v.name ≢ n)) ws

module _ {c : Client} (s : Server c) where
  abbrev pub Granted : List Wish → c.World → Type 0
  Granted ws w = All (λ (v : Wish). v.Holds (s.stored v.kind v.name w)) ws

  -- The call succeeds, grants the wishes, and touches nothing else.
  pub record Grants (w : c.World) (r : Outcome (Unit {0}) × c.World) (ws : List Wish) : Type 0 where
    pub after : c.World
    pub succeeds : r ≡ (ok tt, after)
    pub serves : s.Serves after
    pub granted : Granted ws after
    pub others : (k : Kind) (n : Key) → Apart k n ws → s.stored k n after ≡ s.stored k n w

  -- Wishes apart from all that is touched stay granted.
  pub Granted-others :
      (w w' : c.World) (ws vs : List Wish)
      → ((k : Kind) (n : Key) → Apart k n vs → s.stored k n w' ≡ s.stored k n w)
      → All (λ (v : Wish). Apart v.kind v.name vs) ws
      → Granted ws w
      → Granted ws w'
  Granted-others w w' [] vs others apart h = tt
  Granted-others w w' (x ∷ ws) vs others apart h = (
    subst x.Holds (sym (others x.kind x.name apart.0)) h.0,
    Granted-others w w' ws vs others apart.1 h.1,
  )

  pub done-Grants :
      {w : c.World} {r : Outcome (Unit {0}) × c.World} (v : Wish)
      → Done s v.kind v.name w r v.Holds
      → Grants w r (v ∷ [])
  done-Grants v d = record {
    after = d.after;
    succeeds = d.succeeds;
    serves = d.serves;
    granted = (d.good, tt);
    others = λ k n apart. d.frame k n apart.0;
  }

module _ (lib : Library) (site : Site) {c : Client} (s : Server c) where
  abbrev pub AllOurs : List Wish → c.World → Type 0
  AllOurs ws w = All (λ (v : Wish). Ours lib s site v.kind v.name w) ws

  pub AllOurs-others :
      (w w' : c.World) (ws vs : List Wish)
      → ((k : Kind) (n : Key) → Apart k n vs → s.stored k n w' ≡ s.stored k n w)
      → All (λ (v : Wish). Apart v.kind v.name vs) ws
      → AllOurs ws w
      → AllOurs ws w'
  AllOurs-others w w' [] vs others apart h = tt
  AllOurs-others w w' (x ∷ ws) vs others apart h = (
    λ o e. h.0 o (sym (others x.kind x.name apart.0) ∙ e),
    AllOurs-others w w' ws vs others apart.1 h.1,
  )

  -- Wherever the API server answers and the objects are the Site's own, the wishes are granted.
  abbrev pub Stage : M c (Unit {0}) → List Wish → Type 0
  Stage m ws = (w : c.World) → s.Serves w → AllOurs ws w → Grants s w (m w) ws

  pub nothing-Stage : Stage (lift (ok tt)) []
  nothing-Stage w up ours = record {
    after = w;
    succeeds = refl;
    serves = up;
    granted = tt;
    others = λ k n apart. refl;
  }

  pub wrap-Stage :
      (f : Error → Error) (m : M c (Unit {0})) (ws : List Wish)
      → Stage m ws
      → Stage (wrap_err f m) ws
  unfolding wrap_err
  wrap-Stage f m ws stage w up ours =
      let g = stage w up ours in
      record {
        after = g.after;
        succeeds = ap (λ (r : Outcome (Unit {0}) × c.World). (map_err f r.0, r.1)) g.succeeds;
        serves = g.serves;
        granted = g.granted;
        others = g.others;
      }

  -- What one stage grants, and what the next finds, is not disturbed by the other.
  pub seq-Stage :
      (m m' : M c (Unit {0})) (ws vs : List Wish)
      → Stage m ws
      → Stage m' vs
      → All (λ (v : Wish). Apart v.kind v.name ws) vs
      → All (λ (v : Wish). Apart v.kind v.name vs) ws
      → Stage (m >> m') (ws ++ vs)
  unfolding ◌>>=◌
  seq-Stage m m' ws vs first second vs_apart ws_apart w up ours =
      let (ours_first, ours_second) = All-split _ ws vs ours in
      let a = first w up ours_first in
      let b =
        second a.after a.serves (AllOurs-others w a.after vs ws a.others vs_apart ours_second) in
      record {
        after = b.after;
        succeeds =
            ap (λ (r : Outcome (Unit {0}) × c.World). continue r.0 (λ _. m') r.1) a.succeeds
            ∙ b.succeeds;
        serves = b.serves;
        granted =
            All-append _ ws vs (Granted-others s a.after b.after ws vs b.others ws_apart a.granted)
              b.granted;
        others = λ k n apart.
            let (apart_first, apart_second) = All-split _ ws vs apart in
            b.others k n apart_second ∙ a.others k n apart_first;
      }
