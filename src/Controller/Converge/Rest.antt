-- ===== src/Controller/Converge/Rest.antt =====
-- Calls that find all as they want it, and change nothing.
use site_operator.Common.{
  none, some, List, [], ◌∷◌, ◌++◌, ◌≡◌, refl, sym, ap, ◌∙◌, subst, All-split,
}
use site_operator.Common.Outcome.{Outcome, ok, Error}
use site_operator.Api.Site.{Site}
use site_operator.Kube.Meta.{Key}
use site_operator.Kube.Objects.{Kind, Obj, key_of}
use site_operator.Kube.Action.{◌>>◌, ◌>>=◌, wrap_err, map_err, continue}
use site_operator.Kube.Library.{Library, ErrorLaws}
use site_operator.Kube.Client.{Client, M}
use site_operator.Kube.Owned.{delete_owned, delete_found}
use site_operator.Kube.Server.{Server, ServerLaws, Rests, is_conflict}
use site_operator.Controller.Converge.Ensure.{Is}
use site_operator.Controller.Converge.Stages.{Wish, Granted}

module _ {c : Client} (s : Server c) where
  -- Where the wishes are granted already, the call succeeds and nothing changes.
  pub record Resting (m : M c (Unit {0})) (ws : List Wish) : Type 0 where
    pub rest : (w : c.World) → s.Serves w → Granted s ws w → Rests s w (m w)

  abbrev SameStore : c.World → c.World → Type 0
  SameStore w w' = (k : Kind) (n : Key) → s.stored k n w' ≡ s.stored k n w

  pub Granted-same :
      (w w' : c.World) (ws : List Wish) → SameStore w w' → Granted s ws w → Granted s ws w'
  Granted-same w w' [] same h = tt
  Granted-same w w' (x ∷ ws) same h =
      (subst x.Holds (sym (same x.kind x.name)) h.0, Granted-same w w' ws same h.1)

  pub seq-Resting :
      (m m' : M c (Unit {0})) (ws vs : List Wish)
      → Resting m ws
      → Resting m' vs
      → Resting (m >> m') (ws ++ vs)
  unfolding ◌>>=◌
  seq-Resting m m' ws vs first second = record {
    rest = λ w up granted.
        let (granted_first, granted_second) = All-split _ ws vs granted in
        let a = first.rest w up granted_first in
        let b = second.rest a.after a.serves (Granted-same w a.after vs a.same granted_second) in
        record {
          after = b.after;
          succeeds =
              ap (λ (r : Outcome (Unit {0}) × c.World). continue r.0 (λ _. m') r.1) a.succeeds
              ∙ b.succeeds;
          serves = b.serves;
          same = λ k n. b.same k n ∙ a.same k n;
        };
  }

  pub wrap-Resting :
      (f : Error → Error) (m : M c (Unit {0})) (ws : List Wish)
      → Resting m ws
      → Resting (wrap_err f m) ws
  unfolding wrap_err
  wrap-Resting f m ws resting = record {
    rest = λ w up granted.
        let g = resting.rest w up granted in
        record {
          after = g.after;
          succeeds = ap (λ (r : Outcome (Unit {0}) × c.World). (map_err f r.0, r.1)) g.succeeds;
          serves = g.serves;
          same = g.same;
        };
  }

  pub nothing-Rests : (w : c.World) → s.Serves w → Rests s w (ok tt, w)
  nothing-Rests w up = record { after = w; succeeds = refl; serves = up; same = λ k n. refl }

  module _ (sl : ServerLaws s) where
    retry-Rests :
        (m : M c (Unit {0})) (w : c.World) → Rests s w (m w) → Rests s w (c.retry_on_conflict m w)
    retry-Rests m w r = record {
      after = r.after;
      succeeds =
          sl.retries_no_more m w
            (ap (λ (q : Outcome (Unit {0}) × c.World). is_conflict q.0) r.succeeds)
          ∙ r.succeeds;
      serves = r.serves;
      same = r.same;
    }

    -- The object is there, and the callback leaves it as it is.
    pub unchanged-Resting :
        (k : Kind) (o : Obj k) (n : Key) (f : Obj k → Outcome (Obj k)) (P : Obj k → Type 0)
        → key_of k o ≡ n
        → ((x : Obj k) → P x → f x ≡ ok x)
        → Resting (c.create_or_update k o f) (record { kind = k; name = n; Holds = Is P } ∷ [])
    unchanged-Resting k o n f P named settled = record {
      rest = λ w up ((x, there, holds), _).
          sl.unchanged k o x f w up (subst (λ m. s.stored k m w ≡ some x) (sym named) there)
            (settled x holds);
    }

    pub retry-Resting :
        (m : M c (Unit {0})) (ws : List Wish) → Resting m ws → Resting (c.retry_on_conflict m) ws
    retry-Resting m ws resting = record {
      rest = λ w up granted. retry-Rests m w (resting.rest w up granted);
    }

    pub delete-Resting :
        (lib : Library)
        → ErrorLaws lib
        → (k : Kind) (o : Obj k) (n : Key) (owner : Site) → key_of k o ≡ n
        → Resting
            (delete_owned lib c k o owner)
            (record { kind = k; name = n; Holds = λ x. x ≡ none } ∷ [])
    unfolding delete_owned delete_found
    delete-Resting lib errors k o n owner named = record {
      rest = λ w up (gone, _).
          let (t, missing) =
            sl.get_missing k (key_of k o) w up
              (subst (λ m. s.stored k m w ≡ none) (sym named) gone) in
          rw (missing, delete_owned, delete_found)
            (rw (errors.ignore_missing t) (nothing-Rests w up));
    }
