-- ===== src/Tests/Keys.antt =====
-- Tests: the keys that are generated for a concrete Site.
use site_operator.Common.{String, ℕ, some, none, [], ◌≡◌, ◌≢◌, refl, lookup, insert, eq_iff, arith}
use site_operator.Secret.{
  Filling, populate, fill_key, fill_keys, fill_key_if, random_key, file_browser_enabled,
  generates_admin_password,
}
use site_operator.Helpers.{provision_enabled}
use site_operator.Secret.Fresh.{MadeOf, Answers, populate-apart}
use site_operator.Tests.Fixtures.{plain_site, zero_entropy, zeros}

abbrev empty : Filling
empty = record { contents = []; calls = 0 }

first_key :
    lookup "AUTH_KEY" (populate zero_entropy plain_site empty).contents
    ≡ some (random_key (zero_entropy 0))
unfolding populate fill_keys fill_key fill_key_if lookup insert provision_enabled
    file_browser_enabled generates_admin_password
first_key = refl

last_key :
    lookup "NONCE_SALT" (populate zero_entropy plain_site empty).contents
    ≡ some (random_key (zero_entropy 7))
unfolding populate fill_keys fill_key fill_key_if lookup insert provision_enabled
    file_browser_enabled generates_admin_password
last_key = refl

absent : (k : String) → lookup k empty.contents ≡ none
unfolding lookup
absent k = refl

zeros_answer : Answers zero_entropy
zeros_answer i n = (zeros n, refl)

populate-apart_example :
    (i i' : ℕ) × (i ≢ i')
    × MadeOf (random_key (zero_entropy 0)) (zero_entropy i)
    × MadeOf (random_key (zero_entropy 7)) (zero_entropy i')
populate-apart_example =
    populate-apart zero_entropy zeros_answer plain_site empty "AUTH_KEY" "NONCE_SALT"
      (random_key (zero_entropy 0)) (random_key (zero_entropy 7))
      (λ e. ground (arith, eq_iff "AUTH_KEY" "NONCE_SALT")) (absent "AUTH_KEY")
      (absent "NONCE_SALT") first_key last_key
