-- ===== src/Tests/Answers.antt =====
-- The cluster in memory behaves as an API server that answers.
use site_operator.Common.{
  some-injective, true, String, Option, none, some, ◌≡◌, ◌≢◌, ◌⊎◌, inl, inr, refl, ap, sym, ◌∙◌,
  subst,
}
use site_operator.Common.Outcome.{Outcome, ok}
use site_operator.Api.Site.{Site}
use site_operator.Kube.Meta.{Key}
use site_operator.Kube.Objects.{Kind, Obj, meta_of, with_meta, key_of}
use site_operator.Kube.Equality.{Kind-discrete, Key-discrete}
use site_operator.Kube.Server.{ServerLaws, Stores, Frame, current, Admitted, Defaulted, Rests}
use site_operator.Tests.Memory.{
  Cluster, rename, renamed, found, put, put-Frame, put-found, stamp, write, answer, with_status,
  memory, memory_server,
}

Defaulted-refl : (c : Option String) → Defaulted c c
Defaulted-refl none = tt
Defaulted-refl (some a) = refl

admitted :
    (k : Kind) (y : Obj k)
    → (x : Obj k) × (renamed k (key_of k y) (some (stamp k y)) ≡ some x) × Admitted k y x
admitted Kind.site y = (_, refl, ((refl, refl), refl, tt))
admitted Kind.secret y = (_, refl, ((refl, refl), refl, tt))
admitted Kind.config_map y = (_, refl, ((refl, refl), refl, tt))
admitted Kind.deployment y = (_, refl, ((refl, refl), refl, tt))
admitted Kind.service y = (_, refl, ((refl, refl), refl, tt))
admitted Kind.ingress y = (_, refl, ((refl, refl), refl, Defaulted-refl y.ingress_class_name))
admitted Kind.pvc y = (_, refl, ((refl, refl), refl, Defaulted-refl y.storage_class_name))
admitted Kind.database y = (_, refl, ((refl, refl), refl, tt))
admitted Kind.user y = (_, refl, ((refl, refl), refl, tt))
admitted Kind.grant y = (_, refl, ((refl, refl), refl, tt))

key-rename :
    (k : Kind) (n : Key) (x : Obj k) → key_of k (with_meta k (rename n (meta_of k x)) x) ≡ n
key-rename Kind.site n x = refl
key-rename Kind.secret n x = refl
key-rename Kind.config_map n x = refl
key-rename Kind.deployment n x = refl
key-rename Kind.service n x = refl
key-rename Kind.ingress n x = refl
key-rename Kind.pvc n x = refl
key-rename Kind.database n x = refl
key-rename Kind.user n x = refl
key-rename Kind.grant n x = refl

-- Stamping what is stored once more changes nothing.
stamp-rename :
    (k : Kind) (n : Key) (x : Obj k)
    → let y = with_meta k (rename n (meta_of k x)) x in renamed k n (some (stamp k y)) ≡ some y
stamp-rename Kind.site n x = refl
stamp-rename Kind.secret n x = refl
stamp-rename Kind.config_map n x = refl
stamp-rename Kind.deployment n x = refl
stamp-rename Kind.service n x = refl
stamp-rename Kind.ingress n x = refl
stamp-rename Kind.pvc n x = refl
stamp-rename Kind.database n x = refl
stamp-rename Kind.user n x = refl
stamp-rename Kind.grant n x = refl

key-renamed :
    (k : Kind) (n : Key) (v : Option (Obj k)) (o : Obj k) → renamed k n v ≡ some o → key_of k o ≡ n
key-renamed k n none o e = cc
key-renamed k n (some x) o e = subst (λ z. key_of k z ≡ n) (some-injective e) (key-rename k n x)

created-rename :
    (k : Kind) (n : Key) (x : Obj k)
    → (meta_of k (with_meta k (rename n (meta_of k x)) x)).created ≡ true
created-rename Kind.site n x = refl
created-rename Kind.secret n x = refl
created-rename Kind.config_map n x = refl
created-rename Kind.deployment n x = refl
created-rename Kind.service n x = refl
created-rename Kind.ingress n x = refl
created-rename Kind.pvc n x = refl
created-rename Kind.database n x = refl
created-rename Kind.user n x = refl
created-rename Kind.grant n x = refl

created-renamed :
    (k : Kind) (n : Key) (v : Option (Obj k)) (o : Obj k)
    → renamed k n v ≡ some o
    → (meta_of k o).created ≡ true
created-renamed k n none o e = cc
created-renamed k n (some x) o e =
    subst (λ z. (meta_of k z).created ≡ true) (some-injective e) (created-rename k n x)

stamp-renamed :
    (k : Kind) (n : Key) (v : Option (Obj k)) (o : Obj k)
    → renamed k n v ≡ some o
    → renamed k n (some (stamp k o)) ≡ some o
stamp-renamed k n none o e = cc
stamp-renamed k n (some x) o e =
    subst (λ z. renamed k n (some (stamp k z)) ≡ some z) (some-injective e) (stamp-rename k n x)

writes :
    (k : Kind) (o y : Obj k) (f : Obj k → Outcome (Obj k)) (w : Cluster)
    → f (current memory_server k o w) ≡ ok y
    → Stores memory_server k y w (memory.create_or_update k o f w)
writes k o y f w e =
    let (x, is_x, good) = admitted k y in
    record {
      after = put k (key_of k y) (some (stamp k y)) w;
      object = x;
      succeeds = ap (λ r. write k r w) e;
      serves = tt;
      is_stored = put-found k (key_of k y) (some (stamp k y)) w ∙ is_x;
      admitted = good;
      frame = λ j m. put-Frame k j (key_of k y) m (some (stamp k y)) w;
    }

put-same :
    (k : Kind) (n : Key) (x : Obj k) (w : Cluster)
    → found k n w ≡ some x
    → (j : Kind) (m : Key) → found j m (put k n (some (stamp k x)) w) ≡ found j m w
put-same k n x w e j m = elim (Kind-discrete k j) [
  | no other ↦ put-Frame k j n m (some (stamp k x)) w (inl other)
  | yes same ↦ elim (Key-discrete n m) [
    | no other ↦ put-Frame k j n m (some (stamp k x)) w (inr other)
    | yes same_key ↦
        subst (λ (i : Kind). found i m (put k n (some (stamp k x)) w) ≡ found i m w) same
          (subst (λ l. found k l (put k n (some (stamp k x)) w) ≡ found k l w) same_key
            (put-found k n (some (stamp k x)) w ∙ stamp-renamed k n (w.at k n) x e ∙ sym e))
  ]
]

unchanged :
    (k : Kind) (o x : Obj k) (f : Obj k → Outcome (Obj k)) (w : Cluster)
    → found k (key_of k o) w ≡ some x
    → f x ≡ ok x
    → Rests memory_server w (memory.create_or_update k o f w)
unchanged k o x f w e settled =
    let same_key = key-renamed k (key_of k o) (w.at k (key_of k o)) x e in
    record {
      after = put k (key_of k x) (some (stamp k x)) w;
      succeeds =
          ap (λ v. write k (f (elim v [ none ↦ o | some z ↦ z ])) w) e
          ∙ ap (λ r. write k r w) settled;
      serves = tt;
      same = put-same k (key_of k x) x w (subst (λ n. found k n w ≡ some x) (sym same_key) e);
    }

deletes :
    (k : Kind) (n : Key) (o : Obj k) (w : Cluster)
    → found k n w ≡ some o
    → (w' : Cluster) × (memory.delete k o w ≡ (ok tt, w'))
      × Unit {0}
      × (found k n w' ≡ none)
      × Frame memory_server k n w w'
deletes k n o w e =
    let same = key-renamed k n (w.at k n) o e in
    let w' = put k (key_of k o) none w in
    (
      w',
      refl,
      tt,
      subst (λ m. found k m w' ≡ none) same (put-found k (key_of k o) none w),
      λ j m h. put-Frame k j (key_of k o) m none w (subst (λ x. (k ≢ j) ⊎ (x ≢ m)) (sym same) h),
    )

updates_status :
    (new old : Site) (w : Cluster)
    → found Kind.site (key_of Kind.site new) w ≡ some old
    → (w' : Cluster) × (memory.update_status new w ≡ (ok tt, w'))
      × Unit {0}
      × (found Kind.site (key_of Kind.site new) w' ≡ some (record old { status = new.status }))
      × Frame memory_server Kind.site (key_of Kind.site new) w w'
updates_status new old w e =
    let n = key_of Kind.site new in
    let v : Option Site = some (record old { status = new.status }) in
    let kept : renamed Kind.site n (some old) ≡ some old =
      stamp-renamed Kind.site n (w.at Kind.site n) old e in
    (
      put Kind.site n v w,
      ap (λ o. with_status new o w) e,
      tt,
      put-found Kind.site n v w
          ∙ ap
              (λ (o : Option Site). elim o [
                | none ↦ none
                | some z ↦ some (record z { status = new.status })
              ])
              kept,
      λ j m. put-Frame Kind.site j n m v w,
    )

pub memory_laws : ServerLaws memory_server
memory_laws = record {
  get_found = λ k n w o up e. ap (λ r. (answer r, w)) e;
  get_missing = λ k n w up e. ("not found", ap (λ r. (answer r, w)) e);
  stored_key = λ k n w. key-renamed k n (w.at k n);
  stored_created = λ k n w. created-renamed k n (w.at k n);
  writes = λ k o y f w up e same. writes k o y f w e;
  unchanged = λ k o x f w up. unchanged k o x f w;
  fails = λ k o f w t up e. ap (λ r. write k r w) e;
  panics = λ k o f w t up e. ap (λ r. write k r w) e;
  deletes = λ k n o w up e. deletes k n o w e;
  updates_status = λ new old w up e. updates_status new old w e;
  update_missing = λ new w up e. ("not found", ap (λ o. with_status new o w) e);
  retries_keep = λ m k n v h. h;
  retries_no_more = λ m w e. refl;
}
