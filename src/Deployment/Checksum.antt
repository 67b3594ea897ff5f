-- ===== src/Deployment/Checksum.antt =====
-- What the checksum of the configuration tells apart.
use Prim.Native.String.{String, [], ◌∷◌}
use Prim.Native.Char.{Char, code}
use text.Mathlib.TextLemmas.{cons-append, nil-append}
use site_operator.Common.{
  List, Bool, true, false, not, ◌&&◌, arith, Dict, ◌≡◌, refl, sym, ap, ◌∙◌, ◌<>◌, All, nat_eq,
  if◌then◌else◌,
}
use mathlib.Core.List as L
use site_operator.Api.Site.{Site}
use site_operator.Kube.Pod.{PodTemplateSpec}
use site_operator.Kube.Objects.{DeploymentSpec}
use site_operator.Controller.{site_labels, site_envs}
use site_operator.Deployment.{build_deployment_spec}
use site_operator.Deployment.Config.{
  checksum_payload, config_checksum, build_nginx_config_content, build_php_ini_content,
}

abbrev is_nul : Char → Bool
is_nul c = nat_eq (code c) 0

abbrev no_nul : String → Bool
no_nul [] = true
no_nul (c ∷ s) = not (is_nul c) && no_nul s

-- The text has no NUL.
abbrev pub NoNul : String → Type 0
NoNul s = no_nul s ≡ true

first_plain : (c : Char) (s : String) → NoNul (c ∷ s) → (is_nul c ≡ false) × NoNul s
first_plain c s h = ground arith

-- `strings.Split(s, "\0")`: the first piece, and the others.
abbrev pub split_nul : String → String × List String
split_nul [] = ([], List.[])
split_nul (c ∷ s) =
    let (piece, rest) = split_nul s in
    if is_nul c then ([], List.◌∷◌ piece rest) else (c ∷ piece, rest)

-- The value of the first annotation.
abbrev value_of : Dict String → String
value_of List.[] = []
value_of (List.◌∷◌ (k, v) d) = v

split_nul-nul :
    (p : String) → split_nul ("\0" <> p) ≡ ([], List.◌∷◌ (split_nul p).0 (split_nul p).1)
split_nul-nul p = ap split_nul (cons-append "\0" [] p ∙ ap (λ q. "\0" ∷ q) (nil-append p))

split_nul-append :
    (c p : String)
    → NoNul c
    → split_nul (c <> ("\0" <> p)) ≡ (c, List.◌∷◌ (split_nul p).0 (split_nul p).1)
split_nul-append [] p h = ap split_nul (nil-append ("\0" <> p)) ∙ split_nul-nul p
split_nul-append (c ∷ s) p h =
    let (plain, rest) = first_plain c s h in
    ap split_nul (cons-append c s ("\0" <> p)) ∙ rw plain (rw (split_nul-append s p rest) refl)

-- Every text that is hashed ends in a NUL, so splitting at NULs gives the texts back, and an empty
-- last piece.
pub split_nul-checksum_payload :
    (cs : List String)
    → All NoNul cs
    → List.◌∷◌ (split_nul (checksum_payload cs)).0 (split_nul (checksum_payload cs)).1
      ≡ L.◌++◌ cs (List.◌∷◌ [] List.[])
unfolding checksum_payload
split_nul-checksum_payload List.[] h = refl
split_nul-checksum_payload (List.◌∷◌ c cs) h =
    rw (split_nul-append c (checksum_payload cs) h.0)
      (ap (λ ps. List.◌∷◌ c ps) (split_nul-checksum_payload cs h.1))

but_last : List String → List String
but_last List.[] = List.[]
but_last (List.◌∷◌ c List.[]) = List.[]
but_last (List.◌∷◌ c (List.◌∷◌ d ds)) = List.◌∷◌ c (but_last (List.◌∷◌ d ds))

but_last-append : (cs : List String) (c : String) → but_last (L.◌++◌ cs (List.◌∷◌ c List.[])) ≡ cs
unfolding but_last
but_last-append List.[] c = refl
but_last-append (List.◌∷◌ d List.[]) c = refl
but_last-append (List.◌∷◌ d (List.◌∷◌ e es)) c =
    ap (λ ps. List.◌∷◌ d ps) (but_last-append (List.◌∷◌ e es) c)

-- The texts can be read off what is hashed.
checksum_payload_inj :
    (cs ds : List String)
    → All NoNul cs
    → All NoNul ds
    → checksum_payload cs ≡ checksum_payload ds
    → cs ≡ ds
checksum_payload_inj cs ds plain plain' same =
    sym (but_last-append cs [])
    ∙ (ap but_last (
          sym (split_nul-checksum_payload cs plain)
          ∙ (ap (λ p. List.◌∷◌ (split_nul p).0 (split_nul p).1) same
              ∙ split_nul-checksum_payload ds plain'))
        ∙ but_last-append ds [])

-- What is mounted into the pod of a Site: the texts of its two ConfigMaps.
abbrev pub mounted : Site → List String
mounted site =
    List.◌∷◌ (build_nginx_config_content site) (List.◌∷◌ (build_php_ini_content site) List.[])

-- The Deployment of a Site as reconcileDeployment writes it.
abbrev pub spec_of : (String → String) → Site → DeploymentSpec
spec_of hash site =
    build_deployment_spec site (site_labels site) (site_envs site)
      (config_checksum hash (mounted site))

-- Where the texts of two Sites, or of one Site before and after a change, have no NUL and the hash
-- tells what is hashed of them apart, equal pod templates mean equal texts: a change of either text
-- makes a new pod template, and with it a rollout.
pub template_tells_config :
    (hash : String → String) (site site' : Site)
    → All NoNul (mounted site)
    → All NoNul (mounted site')
    → (hash (checksum_payload (mounted site)) ≡ hash (checksum_payload (mounted site'))
        → checksum_payload (mounted site) ≡ checksum_payload (mounted site'))
    → (spec_of hash site).template ≡ (spec_of hash site').template
    → mounted site ≡ mounted site'
unfolding build_deployment_spec config_checksum
template_tells_config hash site site' plain plain' apart same =
    checksum_payload_inj (mounted site) (mounted site') plain plain'
      (apart (ap (λ (t : PodTemplateSpec). value_of t.annotations) same))
