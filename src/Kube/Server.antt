-- ===== src/Kube/Server.antt =====
-- An API server that answers: what its objects are, and how the client's calls read and change
-- them while nobody else writes.
use site_operator.Common.{String, Bool, true, false, Option, none, some, ◌≡◌, ◌≢◌, ◌⊎◌}
use site_operator.Common.Outcome.{Outcome, ok, err, panic, Error, api, wrapped, not_found, conflict}
use site_operator.Api.Site.{Site}
use site_operator.Kube.Meta.{Key, ObjectMeta}
use site_operator.Kube.Objects.{Kind, Obj, meta_of, with_meta, key_of}
use site_operator.Kube.Client.{Client, M}

-- `apierrors.IsConflict` of an outcome's error.
abbrev pub conflicts : Error → Bool
conflicts (api conflict s) = true
conflicts (api _ s) = false
conflicts (wrapped s e) = conflicts e
conflicts _ = false

abbrev pub is_conflict : {A : Type 0} → Outcome A → Bool
is_conflict (err e) = conflicts e
is_conflict _ = false

-- What the server may change in the metadata of an object that it stores.
abbrev pub Stamped : ObjectMeta → ObjectMeta → Type 0
Stamped m m' =
    (m'.created ≡ true)
    × (m' ≡ record m { uid = m'.uid; created = true; generation = m'.generation })

-- An option that the server may fill in where it was left open.
abbrev pub Defaulted : Option String → Option String → Type 0
Defaulted none b = Unit
Defaulted (some a) b = b ≡ some a

-- How a stored object may differ from what was sent: in the stamped metadata, and in the class of
-- an Ingress or of a claim, which the server chooses where none was named.
abbrev pub Admitted : (k : Kind) → Obj k → Obj k → Type 0
Admitted Kind.ingress o o' =
    Stamped o.meta o'.meta
    × (o' ≡ record o { meta = o'.meta; ingress_class_name = o'.ingress_class_name })
    × Defaulted o.ingress_class_name o'.ingress_class_name
Admitted Kind.pvc o o' =
    Stamped o.meta o'.meta
    × (o' ≡ record o { meta = o'.meta; storage_class_name = o'.storage_class_name })
    × Defaulted o.storage_class_name o'.storage_class_name
Admitted k o o' =
    Stamped (meta_of k o) (meta_of k o') × (o' ≡ with_meta k (meta_of k o') o) × Unit {0}

-- `Serves` says of a state of the cluster that calls are answered.
pub record Server (c : Client) : Type 1 where
  pub Serves : c.World → Type 0
  pub stored : (k : Kind) → Key → c.World → Option (Obj k)

module _ {c : Client} (s : Server c) where
  -- Of all objects only that of one kind and key may differ.
  abbrev pub Frame : Kind → Key → c.World → c.World → Type 0
  Frame k n w w' = (j : Kind) (m : Key) → (k ≢ j) ⊎ (n ≢ m) → s.stored j m w' ≡ s.stored j m w

  abbrev pub current : (k : Kind) → Obj k → c.World → Obj k
  current k o w = elim (s.stored k (key_of k o) w) [ none ↦ o | some x ↦ x ]

  -- The call succeeded, the object is stored, and no other was touched.
  pub record Stores (k : Kind) (o : Obj k) (w : c.World) (r : Outcome (Unit {0}) × c.World)
      : Type 0 where
    pub after : c.World
    pub object : Obj k
    pub succeeds : r ≡ (ok tt, after)
    pub serves : s.Serves after
    pub is_stored : s.stored k (key_of k o) after ≡ some object
    pub admitted : Admitted k o object
    pub frame : Frame k (key_of k o) w after

  -- The call succeeded, and every object is as it was.
  pub record Rests (w : c.World) (r : Outcome (Unit {0}) × c.World) : Type 0 where
    pub after : c.World
    pub succeeds : r ≡ (ok tt, after)
    pub serves : s.Serves after
    pub same : (k : Kind) (n : Key) → s.stored k n after ≡ s.stored k n w

  -- The documented behaviour of the client at such a server.
  pub record ServerLaws : Type 0 where
    pub get_found :
        (k : Kind) (n : Key) (w : c.World) (o : Obj k)
        → s.Serves w
        → s.stored k n w ≡ some o
        → c.get k n w ≡ (ok o, w)
    pub get_missing :
        (k : Kind) (n : Key) (w : c.World)
        → s.Serves w
        → s.stored k n w ≡ none
        → (t : String) × (c.get k n w ≡ (err (api not_found t), w))
    pub stored_key :
        (k : Kind) (n : Key) (w : c.World) (o : Obj k) → s.stored k n w ≡ some o → key_of k o ≡ n
    pub stored_created :
        (k : Kind) (n : Key) (w : c.World) (o : Obj k)
        → s.stored k n w ≡ some o
        → (meta_of k o).created ≡ true
    pub writes :
        (k : Kind) (o y : Obj k) (f : Obj k → Outcome (Obj k)) (w : c.World)
        → s.Serves w
        → f (current k o w) ≡ ok y
        → key_of k y ≡ key_of k o
        → Stores k y w (c.create_or_update k o f w)
    pub unchanged :
        (k : Kind) (o x : Obj k) (f : Obj k → Outcome (Obj k)) (w : c.World)
        → s.Serves w
        → s.stored k (key_of k o) w ≡ some x
        → f x ≡ ok x
        → Rests w (c.create_or_update k o f w)
    pub fails :
        (k : Kind) (o : Obj k) (f : Obj k → Outcome (Obj k)) (w : c.World) (e : Error)
        → s.Serves w
        → f (current k o w) ≡ err e
        → c.create_or_update k o f w ≡ (err e, w)
    pub panics :
        (k : Kind) (o : Obj k) (f : Obj k → Outcome (Obj k)) (w : c.World) (t : String)
        → s.Serves w
        → f (current k o w) ≡ panic t
        → c.create_or_update k o f w ≡ (panic t, w)
    pub deletes :
        (k : Kind) (n : Key) (o : Obj k) (w : c.World)
        → s.Serves w
        → s.stored k n w ≡ some o
        → (w' : c.World) × (c.delete k o w ≡ (ok tt, w'))
          × s.Serves w'
          × (s.stored k n w' ≡ none)
          × Frame k n w w'
    pub updates_status :
        (new old : Site) (w : c.World)
        → s.Serves w
        → s.stored Kind.site (key_of Kind.site new) w ≡ some old
        → (w' : c.World) × (c.update_status new w ≡ (ok tt, w'))
          × s.Serves w'
          × (s.stored Kind.site (key_of Kind.site new) w'
              ≡ some (record old { status = new.status }))
          × Frame Kind.site (key_of Kind.site new) w w'
    pub retries_no_more :
        (m : M c (Unit {0})) (w : c.World)
        → is_conflict (m w).0 ≡ false
        → c.retry_on_conflict m w ≡ m w
    pub update_missing :
        (new : Site) (w : c.World)
        → s.Serves w
        → s.stored Kind.site (key_of Kind.site new) w ≡ none
        → (t : String) × (c.update_status new w ≡ (err (api not_found t), w))
    -- Nothing happens between the attempts.
    pub retries_keep :
        (m : M c (Unit {0})) (k : Kind) (n : Key) (v : Option (Obj k))
        → ((w : c.World)
            → s.Serves w
            → s.stored k n w ≡ v
            → s.Serves (m w).1 × (s.stored k n (m w).1 ≡ v))
        → (w : c.World) → s.Serves w
        → s.stored k n w ≡ v
        → s.Serves (c.retry_on_conflict m w).1 × (s.stored k n (c.retry_on_conflict m w).1 ≡ v)
