-- ===== src/Secret/Keys.antt =====
-- Which keys the generated Secret holds, and that a value once generated stays.
use site_operator.Common.{
  ℕ, String, Bool, true, false, Option, some, List, [], ◌∷◌, ◌++◌, ◌≡◌, refl, ◌∙◌, ◌||◌, ◌==◌,
  eq_iff, elem, is_some, lookup, lookup-insert, arith, ◌&&◌, if◌then◌else◌,
}
use site_operator.Api.Site.{Site}
use site_operator.Kube.Objects.{Bytes}
use site_operator.Helpers.{provision_enabled, install_of, db_password_key}
use site_operator.Secret.{
  Entropy, Filling, fill_key, fill_keys, fill_key_if, populate, salts, random_key, random_short_key,
  generates_admin_password, file_browser_enabled,
}

abbrev pub has : String → Filling → Bool
has j f = is_some (lookup j f.contents)

abbrev key_if : Bool → String → List String
key_if b k = if b then k ∷ [] else []

-- The keys that a Site needs: the salts, and a password for each feature that wants one.
unfoldable pub generated_keys : Site → List String
generated_keys site =
    salts
    ++ (key_if (provision_enabled site) db_password_key
        ++ (key_if (generates_admin_password (install_of site)) "ADMIN_PASSWORD"
            ++ key_if (file_browser_enabled site.spec.file_browser) "FB_PASSWORD"))

elem-append : (j : String) (xs ys : List String) → elem j (xs ++ ys) ≡ (elem j xs || elem j ys)
elem-append j [] ys = refl
elem-append j (x ∷ xs) ys = ground (arith, elem-append j xs ys)

elem-key_if : (j : String) (b : Bool) (k : String) → elem j (key_if b k) ≡ (b && k == j)
elem-key_if j b k = ground arith

or_swap : (a b c d x : Bool) → (d || (c || (b || (a || x)))) ≡ ((a || (b || (c || d))) || x)
or_swap a b c d x = ground arith

module _ (e : Entropy) where
  has-fill_key :
      (generate : (ℕ → Option Bytes) → Bytes) (k j : String) (f : Filling)
      → has j (fill_key e generate k f) ≡ (k == j || has j f)
  unfolding fill_key
  has-fill_key generate k j f =
      ground (arith, eq_iff k j, lookup-insert k j (generate (e f.calls)) f.contents)

  has-fill_keys :
      (ks : List String) (j : String) (f : Filling)
      → has j (fill_keys e ks f) ≡ (elem j ks || has j f)
  unfolding fill_keys
  has-fill_keys [] j f = refl
  has-fill_keys (k ∷ ks) j f =
      ground (arith, has-fill_keys ks j (fill_key e random_key k f), has-fill_key random_key k j f)

  has-fill_key_if :
      (b : Bool) (generate : (ℕ → Option Bytes) → Bytes) (k j : String) (f : Filling)
      → has j (fill_key_if b e generate k f) ≡ ((b && k == j) || has j f)
  unfolding fill_key_if
  has-fill_key_if b generate k j f = ground (arith, has-fill_key generate k j f)

  pub has-populate :
      (site : Site) (j : String) (f : Filling)
      → has j (populate e site f) ≡ (elem j (generated_keys site) || has j f)
  unfolding populate generated_keys
  has-populate site j f =
      rw
        (
          has-fill_key_if, has-fill_key_if, has-fill_key_if, has-fill_keys, elem-append,
          elem-append, elem-append, elem-key_if, elem-key_if, elem-key_if,
        )
        (or_swap (elem j salts) (provision_enabled site && db_password_key == j)
          (generates_admin_password (install_of site) && "ADMIN_PASSWORD" == j)
          (file_browser_enabled site.spec.file_browser && "FB_PASSWORD" == j) (has j f))

  -- A key that is there is left alone, and draws no entropy.
  fill_key_same :
      (generate : (ℕ → Option Bytes) → Bytes) (k : String) (f : Filling)
      → has k f ≡ true
      → fill_key e generate k f ≡ f
  unfolding fill_key
  fill_key_same generate k f h = ground arith

  fill_keys_same :
      (ks : List String) (f : Filling)
      → ((j : String) → elem j ks ≡ true → has j f ≡ true)
      → fill_keys e ks f ≡ f
  unfolding fill_keys
  fill_keys_same [] f h = refl
  fill_keys_same (k ∷ ks) f h =
      rw (fill_key_same random_key k f (h k (ground (arith, eq_iff k k))))
        (fill_keys_same ks f (λ j m. h j (ground arith)))

  fill_key_if_same :
      (b : Bool) (generate : (ℕ → Option Bytes) → Bytes) (k : String) (f : Filling)
      → (b ≡ true → has k f ≡ true)
      → fill_key_if b e generate k f ≡ f
  unfolding fill_key_if
  fill_key_if_same true generate k f h = fill_key_same generate k f (h refl)
  fill_key_if_same false generate k f h = refl

  -- A Secret that holds every key that the Site needs is left alone, and draws no entropy.
  populate_same :
      (site : Site) (f : Filling)
      → ((j : String) → elem j (generated_keys site) ≡ true → has j f ≡ true)
      → populate e site f ≡ f
  unfolding populate generated_keys
  populate_same site f h =
      rw (fill_keys_same salts f (λ j m. h j (rw elem-append (ground arith)))) (
        rw
          (fill_key_if_same (provision_enabled site) random_key db_password_key f
            (λ b. h db_password_key (simp (elem-append, elem-key_if) (ground arith))))
          (rw
            (fill_key_if_same (generates_admin_password (install_of site)) random_key
              "ADMIN_PASSWORD" f
              (λ b. h "ADMIN_PASSWORD" (simp (elem-append, elem-key_if) (ground arith))))
            (fill_key_if_same (file_browser_enabled site.spec.file_browser) random_short_key
              "FB_PASSWORD" f
              (λ b. h "FB_PASSWORD" (simp (elem-append, elem-key_if) (ground arith))))))

-- Filling a Secret that was filled for the same Site changes no value and draws no entropy.
pub populate-populate :
    (e e' : Entropy) (site : Site) (f : Filling)
    → let filled = (populate e site f).contents in
      populate e' site (record { contents = filled; calls = 0 })
      ≡ record { contents = filled; calls = 0 }
populate-populate e e' site f =
    populate_same e' site (record { contents = (populate e site f).contents; calls = 0 })
      (λ j m. has-populate e site j f ∙ rw m)

module _ (e : Entropy) (j : String) (v : Bytes) where
  lookup-fill_key :
      (generate : (ℕ → Option Bytes) → Bytes) (k : String) (f : Filling)
      → lookup j f.contents ≡ some v
      → lookup j (fill_key e generate k f).contents ≡ some v
  unfolding fill_key
  lookup-fill_key generate k f h =
      ground (arith, eq_iff k j, lookup-insert k j (generate (e f.calls)) f.contents)

  lookup-fill_key_if :
      (b : Bool) (generate : (ℕ → Option Bytes) → Bytes) (k : String) (f : Filling)
      → lookup j f.contents ≡ some v
      → lookup j (fill_key_if b e generate k f).contents ≡ some v
  unfolding fill_key_if
  lookup-fill_key_if true generate k f h = lookup-fill_key generate k f h
  lookup-fill_key_if false generate k f h = h

  lookup-fill_keys :
      (ks : List String) (f : Filling)
      → lookup j f.contents ≡ some v
      → lookup j (fill_keys e ks f).contents ≡ some v
  unfolding fill_keys
  lookup-fill_keys [] f h = h
  lookup-fill_keys (k ∷ ks) f h =
      lookup-fill_keys ks (fill_key e random_key k f) (lookup-fill_key random_key k f h)

  -- A value that the Secret holds, generated earlier or written by hand, is never replaced.
  pub lookup-populate :
      (site : Site) (f : Filling)
      → lookup j f.contents ≡ some v
      → lookup j (populate e site f).contents ≡ some v
  unfolding populate
  lookup-populate site f h =
      lookup-fill_key_if _ _ _ _
        (lookup-fill_key_if _ _ _ _ (lookup-fill_key_if _ _ _ _ (lookup-fill_keys salts f h)))
