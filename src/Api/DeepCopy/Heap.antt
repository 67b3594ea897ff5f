-- ===== src/Api/DeepCopy/Heap.antt =====
-- Go's memory, as api/v1alpha1/zz_generated.deepcopy.go uses it: cells at addresses, and the structs
-- of api/v1alpha1/site_types.go that hold such addresses. A nil pointer, map or slice is `none`.
use site_operator.Common.{
  ℕ, suc, String, Bool, Option, List, Dict, ◌≡◌, ◌≢◌, refl, ap, subst, ◌∙◌, arith, Bool-cases, inl,
  inr, nat_eq,
}
use mathlib.Core.Path.{subst_refl}
use site_operator.Common.Int.{ℤ}
use site_operator.Kube.Meta.{ObjectMeta, Condition}
use site_operator.Api.Site.{
  SecretKeyRef, MariaDbClusterRef, FileBrowserSpec, DebugSpec, PhpSpec, NginxSpec,
}

-- The kind of value that a cell holds.
pub data Tag : Type 0 where
  string_cell bool_cell key_ref_cell cluster_ref_cell database_provision_cell provision_cell
        file_browser_cell install_cell debug_cell wordpress_cell ingress_cell persistence_cell
        nginx_cell php_cell map_cell conditions_cell object_meta_cell list_meta_cell site_cell
        sites_cell site_list_cell spec_cell status_cell database_cell :
      Tag

pub record GoDatabaseProvisionSpec : Type 0 where
  pub enabled : Bool
  pub maria_db_ref : Option ℕ

pub record GoProvisionSpec : Type 0 where
  pub database : Option ℕ

pub record GoInstallSpec : Type 0 where
  pub admin_user : String
  pub admin_email : String
  pub title : String
  pub admin_password_secret : Option ℕ
  pub admin_password : Option ℕ

pub record GoWordpressSpec : Type 0 where
  pub debug : Option ℕ
  pub install : Option ℕ
  pub version : String

pub record GoDatabaseSpec : Type 0 where
  pub host : String
  pub name : String
  pub user_secret : Option ℕ
  pub password_secret : Option ℕ
  pub user : Option ℕ
  pub password : Option ℕ

pub record GoIngressSpec : Type 0 where
  pub enabled : Bool
  pub path : String
  pub tls : Option ℕ
  pub annotations : Option ℕ
  pub ingress_class_name : String

pub record GoPersistenceSpec : Type 0 where
  pub enabled : Bool
  pub existing_claim : String
  pub size : String
  pub storage_class_name : Option ℕ

pub record GoSiteSpec : Type 0 where
  pub foo : Option ℕ
  pub domain : String
  pub ingress : Option ℕ
  pub wordpress : Option ℕ
  pub database : GoDatabaseSpec
  pub persistence : Option ℕ
  pub node_selector : Option ℕ
  pub file_browser : Option ℕ
  pub provision : Option ℕ
  pub update_strategy : String
  pub nginx : Option ℕ
  pub php : Option ℕ

pub record GoSiteStatus : Type 0 where
  pub conditions : Option ℕ

-- `metav1.TypeMeta`
pub record TypeMeta : Type 0 where
  pub kind : String
  pub api_version : String

-- `metav1.ListMeta`
pub record ListMeta : Type 0 where
  pub resource_version : String
  pub remaining_item_count : Option ℤ

-- What an ObjectMeta or a ListMeta holds lies behind the address `meta`.
pub record GoSite : Type 0 where
  pub type_meta : TypeMeta
  pub meta : ℕ
  pub spec : GoSiteSpec
  pub status : GoSiteStatus

pub record GoSiteList : Type 0 where
  pub type_meta : TypeMeta
  pub meta : ℕ
  pub items : Option ℕ

abbrev pub El : Tag → Type 0
El string_cell = String
El bool_cell = Bool
El key_ref_cell = SecretKeyRef
El cluster_ref_cell = MariaDbClusterRef
El database_provision_cell = GoDatabaseProvisionSpec
El provision_cell = GoProvisionSpec
El file_browser_cell = FileBrowserSpec
El install_cell = GoInstallSpec
El debug_cell = DebugSpec
El wordpress_cell = GoWordpressSpec
El ingress_cell = GoIngressSpec
El persistence_cell = GoPersistenceSpec
El nginx_cell = NginxSpec
El php_cell = PhpSpec
El map_cell = Dict String
El conditions_cell = List Condition
El object_meta_cell = ObjectMeta
El list_meta_cell = ListMeta
El site_cell = GoSite
El sites_cell = List GoSite
El site_list_cell = GoSiteList
El spec_cell = GoSiteSpec
El status_cell = GoSiteStatus
El database_cell = GoDatabaseSpec

-- Addresses from `next` on are free.
pub record Heap : Type 0 where
  pub next : ℕ
  pub cells : (t : Tag) → ℕ → El t

abbrev pub S : Type 0 → Type 0
S A = Heap → A × Heap

abbrev pub pure : {A : Type 0} → A → S A
pure a h = (a, h)

infixl 10 ◌>>=◌ ◌>>◌
unfoldable pub ◌>>=◌ : {A B : Type 0} → S A → (A → S B) → S B
◌>>=◌ m f h = let (a, h') = m h in f a h'

abbrev pub ◌>>◌ : {B : Type 0} → S (Unit {0}) → S B → S B
m >> k = m >>= λ _. k

-- `new`, whose cell is written afterwards.
unfoldable pub reserve : S ℕ
reserve h = (h.next, record h { next = suc h.next })

abbrev pub load : (t : Tag) → ℕ → S (El t)
load t p h = (h.cells t p, h)

pub Tag-discrete : Discrete Tag
Tag-discrete = hlevel

Tag-IsSet : IsSet Tag
Tag-IsSet = hlevel

pub ℕ-discrete : Discrete ℕ
ℕ-discrete p q = elim (Bool-cases (nat_eq p q)) [
  | inl e ↦ yes (ground arith)
  | inr n ↦ no (λ e. ground arith)
]

abbrev replaced : {t u : Tag} {p q : ℕ} → Dec (t ≡ u) → Dec (p ≡ q) → El t → El u → El u
replaced (yes e) (yes f) v old = subst El e v
replaced (yes e) (no f) v old = old
replaced (no e) f v old = old

unfoldable pub store : (t : Tag) → ℕ → El t → S (Unit {0})
store t p v h =
    (tt, record h { cells = λ u q. replaced (Tag-discrete t u) (ℕ-discrete p q) v (h.cells u q) })

pub store_here : (t : Tag) (p : ℕ) (v : El t) (h : Heap) → (store t p v h).1.cells t p ≡ v
unfolding store
store_here t p v h = go (Tag-discrete t t) (ℕ-discrete p p)
  where
    go : (d : Dec (t ≡ t)) (e : Dec (p ≡ p)) → replaced d e v (h.cells t p) ≡ v
    go (yes d) (yes e) = ap (λ r. subst El r v) (Tag-IsSet t t d refl) ∙ subst_refl El v
    go (yes d) (no f) = absurd (f refl)
    go (no f) e = absurd (f refl)

pub store_elsewhere :
    (t u : Tag) (p q : ℕ) (v : El t) (h : Heap) → p ≢ q → (store t p v h).1.cells u q ≡ h.cells u q
unfolding store
store_elsewhere t u p q v h other = go (Tag-discrete t u) (ℕ-discrete p q)
  where
    go : (d : Dec (t ≡ u)) (e : Dec (p ≡ q)) → replaced d e v (h.cells u q) ≡ h.cells u q
    go (yes d) (yes e) = absurd (other e)
    go (yes d) (no f) = refl
    go (no f) e = refl
