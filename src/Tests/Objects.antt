-- ===== src/Tests/Objects.antt =====
-- Secrets, containers, ports, volumes, names and conditions of concrete Sites.
use site_operator.Common.{
  ℕ, String, true, false, none, some, [], ◌∷◌, ◌++◌, ◌≡◌, ◌≢◌, ◌↔◌, refl, ◌∙◌, inl, inr, eq_iff,
  arith, All, lookup, insert, or_empty, length, elem, distinct, ◌≤◌,
}
use Prim.Native.String.{len, slice}
use site_operator.Common.Int.{pos}
use site_operator.Common.Outcome.{ok}
use site_operator.Api.Site.{Site}
use site_operator.Kube.Meta.{object_key}
use site_operator.Kube.Pod.{Container, VolumeMount, SecretKeySelector}
use site_operator.Kube.Objects.{HttpIngressPath, PersistentVolumeClaim, read_write_many}
use site_operator.Helpers.{
  site_secret, build_wp_envs, build_database_envs, provisioned_username, provision_enabled,
}
use site_operator.Helpers.Names.{env_names, distinct-env_names, elem-wp_admin_password}
use site_operator.Secret.{populate, random_key, random_short_key}
use site_operator.Secret.Base64.{encode, length-encode}
use site_operator.Secret.Keys.{lookup-populate}
use site_operator.Secret.Strength.{FillsBuffer, length-random_key}
use site_operator.Provision.Username.{len-provisioned_username-le, provisioned_username_iff}
use site_operator.Deployment.{build_containers}
use site_operator.Deployment.Containers.{build_wp_init_container}
use site_operator.Service.{service_ports}
use site_operator.Ingress.{ingress_paths}
use site_operator.Pvc.{mutate_pvc}
use site_operator.Pvc.Claim.{mutate_pvc-created}
use site_operator.Status.Verdict.{Verdict}
use site_operator.Controller.{site_envs}
use site_operator.Wiring.Secrets.{IsUserRef, IsCovered, containers-IsCovered}
use site_operator.Wiring.Ports.{serves, ingress_paths-serve}
use site_operator.Wiring.Volumes.{volume_names, mounts-have-volumes}
use site_operator.Tests.Fixtures.{
  full_site, full_spec, plain_site, full_ingress, full_install, named_meta, zeros, zero_entropy,
  one_salt,
}
use site_operator.Tests.Owners.{small_library, small_owners}

salt_there : lookup "NONCE_KEY" one_salt.contents ≡ some (104 ∷ 105 ∷ [])
unfolding lookup
salt_there = refl

lookup-populate_example :
    lookup "NONCE_KEY" (populate zero_entropy full_site one_salt).contents ≡ some (104 ∷ 105 ∷ [])
lookup-populate_example =
    lookup-populate zero_entropy "NONCE_KEY" (104 ∷ 105 ∷ []) full_site one_salt salt_there

length-zeros : (n : ℕ) → length (zeros n) ≡ n
length-zeros ℕ.zero = refl
length-zeros (ℕ.suc n) = omega (arith, length-zeros n)

zeros-FillsBuffer : FillsBuffer (λ n. some (zeros n))
zeros-FillsBuffer n b e = cc (length-zeros n)

length-random_key_example :
    (length (random_key (λ n. some (zeros n))) ≡ 88)
    × (length (random_short_key (λ n. some (zeros n))) ≡ 32)
    × (length (random_short_key (λ n. some (zeros n))) ≤ 72)
length-random_key_example = length-random_key (λ n. some (zeros n)) zeros-FillsBuffer

length-encode_example : length (encode (1 ∷ 2 ∷ 3 ∷ 4 ∷ [])) ≡ 8
length-encode_example = length-encode (1 ∷ 2 ∷ 3 ∷ 4 ∷ [])

-- The database's user and password are in Secrets of the user's.
abbrev referring_site : Site
referring_site = record full_site {
  spec = record full_spec {
    database = record full_spec.database {
      user_secret = some (record { name = "credentials"; key = "user" });
      password_secret = some (record { name = "credentials"; key = "password" });
    };
  };
}

other_secret : "credentials" ≢ site_secret referring_site
other_secret e = ground (arith, eq_iff "credentials" (site_secret referring_site))

referring_apart :
    (s : SecretKeySelector) → IsUserRef referring_site s → s.name ≢ site_secret referring_site
referring_apart s (inl user) e = other_secret (user.0 ∙ e)
referring_apart s (inr (inl password)) e = other_secret (password.0 ∙ e)
referring_apart s (inr (inr no_password)) e = no_password

containers-IsCovered_example :
    All
      (λ (c : Container).
        All (IsCovered referring_site (populate zero_entropy referring_site one_salt)) c.env)
      (build_containers referring_site (site_envs referring_site))
containers-IsCovered_example =
    containers-IsCovered zero_entropy referring_site referring_apart one_salt

distinct-env_names_example :
    distinct (env_names (build_wp_envs full_site ++ build_database_envs full_site)) ≡ true
distinct-env_names_example = distinct-env_names full_site

ingress_paths-serve_example :
    All
      (λ (p : HttpIngressPath).
        (p.service ≡ "full") × (serves p.port (service_ports full_site) ≡ true))
      (ingress_paths full_site full_ingress)
ingress_paths-serve_example = ingress_paths-serve full_site full_ingress

mounts-have-volumes_example :
    All
      (λ (c : Container).
        All (λ (m : VolumeMount). elem m.name (volume_names full_site) ≡ true) c.volume_mounts)
      (build_wp_init_container full_site ∷ build_containers full_site (site_envs full_site))
mounts-have-volumes_example = mounts-have-volumes full_site (site_envs full_site)

full_provisions : provision_enabled full_site ≡ true
unfolding provision_enabled
full_provisions = refl

abbrev site_named : String → Site
site_named name = record plain_site { meta = named_meta name }

len-provisioned_username-le_example :
    len (provisioned_username (site_named "a-very-long-name-of-a-site-in-the-cluster")) ≤ 32
len-provisioned_username-le_example =
    len-provisioned_username-le (site_named "a-very-long-name-of-a-site-in-the-cluster")

provisioned_username_iff_example :
    (provisioned_username (site_named "company-newsletter-archive-one")
      ≡ provisioned_username (site_named "company-newsletter-archive-two"))
    ↔ (slice "company-newsletter-archive-one" 0 27 ≡ slice "company-newsletter-archive-two" 0 27)
provisioned_username_iff_example =
    provisioned_username_iff (site_named "company-newsletter-archive-one")
      (site_named "company-newsletter-archive-two")

-- A claim that somebody made for more readers, before the Site had it.
abbrev old_claim : PersistentVolumeClaim
old_claim = record {
  meta = named_meta "full-data";
  access_modes = read_write_many ∷ [];
  requests = none;
  storage_class_name = some "fast";
}

abbrev new_claim : PersistentVolumeClaim
new_claim = record {
  meta = record (named_meta "full-data") {
    labels = ("app", "full") ∷ [];
    owner_references =
        record { kind = "Site"; name = "full"; uid = "full"; controller = true } ∷ [];
  };
  access_modes = read_write_many ∷ [];
  requests = some (("storage", record { unscaled = pos 10; scale = pos 0 }) ∷ []);
  storage_class_name = some "fast";
}

claim_mutated : mutate_pvc small_library full_site "10Gi" (some "slow") old_claim ≡ ok new_claim
unfolding mutate_pvc insert
claim_mutated = refl

mutate_pvc-created_example :
    (object_key new_claim.meta ≡ object_key old_claim.meta)
    × (new_claim.access_modes ≡ old_claim.access_modes)
    × (new_claim.storage_class_name ≡ old_claim.storage_class_name)
    × (lookup "storage" (or_empty new_claim.requests) ≡ small_library.parse_quantity "10Gi")
mutate_pvc-created_example =
    mutate_pvc-created small_library small_owners full_site "10Gi" (some "slow") old_claim new_claim
      refl claim_mutated

elem-wp_admin_password_example :
    elem "WP_ADMIN_PASSWORD" (env_names (build_wp_envs full_site ++ build_database_envs full_site))
    ≡ false
elem-wp_admin_password_example = elem-wp_admin_password full_site full_install refl
