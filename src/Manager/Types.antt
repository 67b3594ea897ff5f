-- ===== src/Manager/Types.antt =====
-- The types that the clients can read and write: the `init` functions of cmd/main.go and
-- api/v1alpha1/site_types.go, and the SchemeBuilder of groupversion_info.go.
use site_operator.Common.{Bool, true, false, not, List, [], ◌∷◌, ◌≡◌, ◌⊎◌, inl, inr, refl}
use site_operator.Common.Outcome.{ok}
use site_operator.Kube.Objects.{Kind}
use site_operator.Kube.Action.{Action, ◌>>◌, ◌>>=◌}
use site_operator.Controller.Independent.{maria_db}
use site_operator.Api.Group.{GroupVersion, group_version}

-- A Go type that a scheme can know.
pub data Registered : Type 0 where
  object : Kind → Registered
  list_of_sites : Registered

-- What the code calls: `new_scheme` is `runtime.NewScheme`, the next three are of
-- controller-runtime's `scheme.Builder`, then come the `AddToScheme` of client-go and that of
-- mariadb-operator, and `must` is `utilruntime.Must` around a call.
pub record Registry : Type 1 where
  pub Scheme : Type 0
  pub SchemeBuilder : Type 0
  pub new_scheme : Scheme
  pub new_builder : GroupVersion → SchemeBuilder
  pub register : List Registered → SchemeBuilder → SchemeBuilder
  pub add_to_scheme : SchemeBuilder → Action Scheme (Unit {0})
  pub add_client_go : Action Scheme (Unit {0})
  pub add_maria_db : Action Scheme (Unit {0})
  pub must : Action Scheme (Unit {0}) → Action Scheme (Unit {0})

module _ (g : Registry) where
  -- The SchemeBuilder once `init` of site_types.go has run, which is before that of main.
  unfoldable pub scheme_builder : g.SchemeBuilder
  scheme_builder = g.register (object Kind.site ∷ list_of_sites ∷ []) (g.new_builder group_version)

  unfoldable pub init_scheme : Action g.Scheme (Unit {0})
  init_scheme =
      g.must g.add_client_go >> g.must (g.add_to_scheme scheme_builder) >> g.must g.add_maria_db

abbrev pub Listed : Registered → List Registered → Type 0
Listed x [] = ⊥
Listed x (y ∷ ys) = (x ≡ y) ⊎ Listed x ys

-- The types of Kubernetes itself.
abbrev pub built_in : Registered → Bool
built_in (object Kind.site) = false
built_in (object k) = not (maria_db k)
built_in list_of_sites = false

abbrev pub of_maria_db : Registered → Bool
of_maria_db (object k) = maria_db k
of_maria_db list_of_sites = false

module _ (g : Registry) (Knows : g.Scheme → Registered → Type 0) where
  -- The call succeeds, and the scheme then knows some types, and all that it knew.
  pub record Adds (m : Action g.Scheme (Unit {0})) (P : Registered → Type 0) (s : g.Scheme)
      : Type 0 where
    pub after : g.Scheme
    pub succeeds : m s ≡ (ok tt, after)
    pub adds : (x : Registered) → P x → Knows after x
    pub keeps : (x : Registered) → Knows s x → Knows after x

  -- The documented behaviour of the calls.
  pub record RegistryLaws : Type 0 where
    pub client_go_adds : (s : g.Scheme) → Adds g.add_client_go (λ x. built_in x ≡ true) s
    pub maria_db_adds : (s : g.Scheme) → Adds g.add_maria_db (λ x. of_maria_db x ≡ true) s
    pub builder_adds :
        (gv : GroupVersion) (xs : List Registered) (s : g.Scheme)
        → Adds (g.add_to_scheme (g.register xs (g.new_builder gv))) (λ x. Listed x xs) s
    pub must_passes :
        (m : Action g.Scheme (Unit {0})) (s s' : g.Scheme)
        → m s ≡ (ok tt, s')
        → g.must m s ≡ (ok tt, s')

  must-Adds :
      RegistryLaws
      → (m : Action g.Scheme (Unit {0})) (P : Registered → Type 0) (s : g.Scheme) → Adds m P s
      → Adds (g.must m) P s
  must-Adds laws m P s a = record {
    after = a.after;
    succeeds = laws.must_passes m s a.after a.succeeds;
    adds = a.adds;
    keeps = a.keeps;
  }

  every_kind :
      (P : Registered → Type 0)
      → ((x : Registered) → built_in x ≡ true → P x)
      → ((x : Registered) → of_maria_db x ≡ true → P x)
      → P (object Kind.site)
      → P list_of_sites
      → (x : Registered) → P x
  every_kind P built maria site sites (object Kind.site) = site
  every_kind P built maria site sites (object Kind.secret) = built (object Kind.secret) refl
  every_kind P built maria site sites (object Kind.config_map) = built (object Kind.config_map) refl
  every_kind P built maria site sites (object Kind.deployment) = built (object Kind.deployment) refl
  every_kind P built maria site sites (object Kind.service) = built (object Kind.service) refl
  every_kind P built maria site sites (object Kind.ingress) = built (object Kind.ingress) refl
  every_kind P built maria site sites (object Kind.pvc) = built (object Kind.pvc) refl
  every_kind P built maria site sites (object Kind.database) = maria (object Kind.database) refl
  every_kind P built maria site sites (object Kind.user) = maria (object Kind.user) refl
  every_kind P built maria site sites (object Kind.grant) = maria (object Kind.grant) refl
  every_kind P built maria site sites list_of_sites = sites

  -- Where the calls behave as documented, the start of the process does not panic, and the clients
  -- then know the types of every kind that the operator reads or writes, and of a list of Sites.
  pub init_scheme-Knows :
      RegistryLaws
      → (s : g.Scheme) × (init_scheme g g.new_scheme ≡ (ok tt, s)) × ((x : Registered) → Knows s x)
  unfolding init_scheme scheme_builder ◌>>=◌
  init_scheme-Knows laws =
      let a = must-Adds laws g.add_client_go _ g.new_scheme (laws.client_go_adds g.new_scheme) in
      let b =
        must-Adds laws (g.add_to_scheme (scheme_builder g)) _ a.after
          (laws.builder_adds group_version (object Kind.site ∷ list_of_sites ∷ []) a.after) in
      let d = must-Adds laws g.add_maria_db _ b.after (laws.maria_db_adds b.after) in
      (
        d.after,
        rw (a.succeeds, b.succeeds) d.succeeds,
        every_kind (Knows d.after) (λ x e. d.keeps x (b.keeps x (a.adds x e))) d.adds
            (d.keeps _ (b.adds (object Kind.site) (inl refl)))
            (d.keeps _ (b.adds list_of_sites (inr (inl refl)))),
      )
