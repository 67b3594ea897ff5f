-- ===== src/Tests/Memory.antt =====
-- A cluster in memory, whose API server answers and keeps its objects under their keys.
use site_operator.Common.{
  true, Option, none, some, [], ◌≡◌, ◌≢◌, ◌⊎◌, inl, inr, refl, ap, ◌∙◌, subst,
}
use mathlib.Core.Path.{subst_refl}
use site_operator.Common.Int.{pos}
use site_operator.Common.Outcome.{Outcome, ok, err, panic, api, not_found}
use site_operator.Api.Site.{Site}
use site_operator.Kube.Meta.{Key, ObjectMeta}
use site_operator.Kube.Objects.{Kind, Obj, meta_of, with_meta, key_of}
use site_operator.Kube.Equality.{Kind-discrete, Key-discrete, Kind-IsSet}
use site_operator.Kube.Client.{Client}
use site_operator.Kube.Server.{Server}

pub record Cluster : Type 0 where
  pub at : (k : Kind) → Key → Option (Obj k)

abbrev pub rename : Key → ObjectMeta → ObjectMeta
rename n m = record m { namespace = n.namespace; name = n.name; created = true }

abbrev pub renamed : (k : Kind) → Key → Option (Obj k) → Option (Obj k)
renamed k n none = none
renamed k n (some o) = some (with_meta k (rename n (meta_of k o)) o)

abbrev pub found : (k : Kind) → Key → Cluster → Option (Obj k)
found k n w = renamed k n (w.at k n)

abbrev replaced :
    {k j : Kind} {n m : Key}
    → Dec (k ≡ j)
    → Dec (n ≡ m)
    → Option (Obj k)
    → Option (Obj j)
    → Option (Obj j)
replaced (yes p) (yes q) v old = subst (λ i. Option (Obj i)) p v
replaced (yes p) (no h) v old = old
replaced (no h) q v old = old

abbrev pub put : (k : Kind) → Key → Option (Obj k) → Cluster → Cluster
put k n v w = record { at = λ j m. replaced (Kind-discrete k j) (Key-discrete n m) v (w.at j m) }

pub put-Frame :
    (k j : Kind) (n m : Key) (v : Option (Obj k)) (w : Cluster)
    → (k ≢ j) ⊎ (n ≢ m)
    → found j m (put k n v w) ≡ found j m w
put-Frame k j n m v w h = go (Kind-discrete k j) (Key-discrete n m) h
  where
    go :
        (d : Dec (k ≡ j)) (e : Dec (n ≡ m))
        → (k ≢ j) ⊎ (n ≢ m)
        → renamed j m (replaced d e v (w.at j m)) ≡ renamed j m (w.at j m)
    go (yes p) (yes q) (inl f) = absurd (f p)
    go (yes p) (yes q) (inr f) = absurd (f q)
    go (yes p) (no f) h = refl
    go (no f) e h = refl

pub put-found :
    (k : Kind) (n : Key) (v : Option (Obj k)) (w : Cluster)
    → found k n (put k n v w) ≡ renamed k n v
put-found k n v w = ap (renamed k n) (go (Kind-discrete k k) (Key-discrete n n))
  where
    go : (d : Dec (k ≡ k)) (e : Dec (n ≡ n)) → replaced d e v (w.at k n) ≡ v
    go (yes p) (yes q) =
        ap (λ r. subst (λ i. Option (Obj i)) r v) (Kind-IsSet k k p refl)
        ∙ subst_refl (λ i. Option (Obj i)) v
    go (yes p) (no f) = absurd (f refl)
    go (no f) e = absurd (f refl)

abbrev pub stamp : (k : Kind) → Obj k → Obj k
stamp k o = with_meta k (record (meta_of k o) { created = true }) o

abbrev pub write : (k : Kind) → Outcome (Obj k) → Cluster → Outcome (Unit {0}) × Cluster
write k (ok y) w = (ok tt, put k (key_of k y) (some (stamp k y)) w)
write k (err e) w = (err e, w)
write k (panic t) w = (panic t, w)

abbrev pub answer : {A : Type 0} → Option A → Outcome A
answer none = err (api not_found "not found")
answer (some a) = ok a

abbrev pub with_status : Site → Option Site → Cluster → Outcome (Unit {0}) × Cluster
with_status new none w = (err (api not_found "not found"), w)
with_status new (some old) w =
    (ok tt, put Kind.site (key_of Kind.site new) (some (record old { status = new.status })) w)

abbrev pub memory : Client
memory = record {
  World = Cluster;
  now = λ w. pos 7;
  get = λ k n w. (answer (found k n w), w);
  list_sites = λ w. (ok [], w);
  create_or_update =
      λ k o f w. write k (f (elim (found k (key_of k o) w) [ none ↦ o | some x ↦ x ])) w;
  delete = λ k o w. (ok tt, put k (key_of k o) none w);
  update_status = λ s w. with_status s (found Kind.site (key_of Kind.site s) w) w;
  retry_on_conflict = λ m. m;
}

abbrev pub memory_server : Server memory
memory_server = record { Serves = λ w. Unit; stored = found }
