-- ===== src/Secret.antt =====
-- internal/controller/secret.go. `rand.Read` is a source of entropy: the n-th call of one run gives
-- the bytes that it was asked for, or fails.
pub mod Base64
pub mod Keys
pub mod Fresh
pub mod Strength
use Prim.Native.Char.{code}
use site_operator.Common.{
  ℕ, suc, String, Bool, false, Option, none, some, List, [], ◌∷◌, Dict, lookup, insert, or_empty,
  is_some, ◌&&◌, not, if◌then◌else◌,
}
use site_operator.Common.Outcome.{Outcome, map_ok}
use site_operator.Api.Site.{Site, InstallSpec, FileBrowserSpec}
use site_operator.Kube.Objects.{Bytes, Secret, Kind}
use site_operator.Kube.Library.{Library}
use site_operator.Kube.Client.{Client, M}
use site_operator.Helpers.{provision_enabled, install_of, new_meta, site_secret, db_password_key}
use Base64.{encode}

-- The bytes of an ASCII text, `[]byte(s)`.
abbrev pub ascii : String → Bytes
ascii String.[] = []
ascii (String.◌∷◌ c s) = code c ∷ ascii s

-- `read i n` is the i-th call, for `n` bytes.
abbrev pub Entropy : Type 0
Entropy = ℕ → ℕ → Option Bytes

-- The buffer in base64, or a fixed text where `rand.Read` failed.
unfoldable pub encode_or : String → Option Bytes → Bytes
encode_or fallback none = ascii fallback
encode_or fallback (some b) = encode b

unfoldable pub random_key : (ℕ → Option Bytes) → Bytes
unfolding encode_or
random_key read = encode_or "fallback-random-key-if-entropy-fails" (read 64)

unfoldable pub random_short_key : (ℕ → Option Bytes) → Bytes
unfolding encode_or
random_short_key read = encode_or "fallback-short-key" (read 24)

-- The data written so far, and the calls of `rand.Read` made.
pub record Filling : Type 0 where
  pub contents : Dict Bytes
  pub calls : ℕ

-- `if _, ok := secret.Data[k]; !ok { secret.Data[k] = []byte(generate()) }`
unfoldable pub fill_key : Entropy → ((ℕ → Option Bytes) → Bytes) → String → Filling → Filling
fill_key e generate k f = elim (lookup k f.contents) [
  | some old ↦ f
  | none ↦ record { contents = insert k (generate (e f.calls)) f.contents; calls = suc f.calls }
]

-- The loop over the salts.
unfoldable pub fill_keys : Entropy → List String → Filling → Filling
fill_keys e [] f = f
fill_keys e (k ∷ ks) f = fill_keys e ks (fill_key e random_key k f)

abbrev pub salts : List String
salts =
    "AUTH_KEY" ∷ "SECURE_AUTH_KEY" ∷ "LOGGED_IN_KEY" ∷ "NONCE_KEY" ∷ "AUTH_SALT"
    ∷ "SECURE_AUTH_SALT" ∷ "LOGGED_IN_SALT" ∷ "NONCE_SALT" ∷ []

-- The installation wants a password that the Site does not give.
unfoldable pub generates_admin_password : Option InstallSpec → Bool
generates_admin_password none = false
generates_admin_password (some i) =
    not (is_some i.admin_password_secret) && not (is_some i.admin_password)

unfoldable pub file_browser_enabled : Option FileBrowserSpec → Bool
file_browser_enabled none = false
file_browser_enabled (some f) = f.enabled

-- A key that is filled only under a condition.
unfoldable pub fill_key_if :
    Bool → Entropy → ((ℕ → Option Bytes) → Bytes) → String → Filling → Filling
fill_key_if b e generate k f = if b then fill_key e generate k f else f

-- What the callback of reconcileSecret does to `secret.Data`.
unfoldable pub populate : Entropy → Site → Filling → Filling
populate e site f =
    let f1 = fill_keys e salts f in
    let f2 = fill_key_if (provision_enabled site) e random_key db_password_key f1 in
    let own = generates_admin_password (install_of site) in
    let f3 = fill_key_if own e random_key "ADMIN_PASSWORD" f2 in
    fill_key_if (file_browser_enabled site.spec.file_browser) e random_short_key "FB_PASSWORD" f3

module _ (lib : Library) where
  unfoldable pub mutate_secret : Entropy → Site → Secret → Outcome Secret
  mutate_secret e site secret =
      map_ok
        (λ m. record {
          meta = m;
          contents =
              some
                (populate e site
                  (record { contents = or_empty secret.contents; calls = 0 })).contents;
        })
        (lib.set_controller_reference site.meta secret.meta)

  unfoldable pub reconcile_secret : (c : Client) → Entropy → Site → M c (Unit {0})
  reconcile_secret c e site =
      c.create_or_update Kind.secret
        (record { meta = new_meta (site_secret site) site; contents = none }) (mutate_secret e site)
