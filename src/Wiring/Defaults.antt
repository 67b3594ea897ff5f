-- ===== src/Wiring/Defaults.antt =====
-- Where the code falls back by itself, it falls back to what the API server would have filled in.
use site_operator.Common.{String, Bool, false, Option, none, some, ◌≡◌, ◌≢◌, refl, ap, ◌∙◌, ◌==◌}
use site_operator.Api.Site.{Site, ProvisionSpec}
use site_operator.Api.Defaults.{
  WrittenSpec, WrittenFileBrowser, or_bool, default_spec, default_file_browser, default_wordpress,
  read_spec, read_file_browser, read_provision,
}
use site_operator.Kube.Library.{Library}
use site_operator.Kube.Client.{Client}
use site_operator.Secret.{Entropy}
use site_operator.Controller.{SiteReconciler, reconcile_objects}
use site_operator.Wiring.Fallbacks.{default_image, default_texts, texts_same}

-- A file browser that is given says whether it is enabled.
abbrev pub SaysEnabled : Option WrittenFileBrowser → Type 0
SaysEnabled none = Unit
SaysEnabled (some f) = f.enabled ≢ none

read-default_file_browser :
    (o : Option WrittenFileBrowser)
    → SaysEnabled o
    → read_file_browser (default_file_browser o) ≡ default_image (read_file_browser o)
unfolding default_image
read-default_file_browser none h = refl
read-default_file_browser (some f) h = go f.enabled refl
  where
    go :
        (o : Option Bool)
        → f.enabled ≡ o
        → read_file_browser (default_file_browser (some f))
          ≡ default_image (read_file_browser (some f))
    go none e = absurd (h e)
    go (some b) e = rw e refl

-- A database that does not say whether it is enabled is not.
read_provision-or_bool :
    (o : Option Bool) (p : Option ProvisionSpec)
    → read_provision (or_bool false o) p ≡ read_provision o p
read_provision-or_bool none p = refl
read_provision-or_bool (some b) p = refl

read_spec-default_spec :
    (w : WrittenSpec)
    → SaysEnabled w.file_browser
    → read_spec (default_spec w) ≡ default_texts (read_spec w)
unfolding read_spec default_spec default_texts
read_spec-default_spec w h i = record (default_texts (read_spec w)) {
  file_browser = read-default_file_browser w.file_browser h i;
  provision = read_provision-or_bool w.database_enabled w.rest.provision i;
}

-- For a Site that gives its domain, in an installation the administrator's name and address, and
-- with a file browser whether it is enabled, the work on the objects does the same, whatever the
-- server answers, whether or not the API server has filled in the defaults of the rest of the spec.
pub reconcile_objects-default_spec :
    (lib : Library) (c : Client) (r : SiteReconciler) (hash : String → String) (e : Entropy)
    (site : Site) (w : WrittenSpec)
    → (w.rest.domain == "") ≡ false
    → default_wordpress w.rest.wordpress ≡ w.rest.wordpress
    → SaysEnabled w.file_browser
    → reconcile_objects lib c r hash e (record site { spec = read_spec (default_spec w) })
      ≡ reconcile_objects lib c r hash e (record site { spec = read_spec w })
unfolding read_spec
reconcile_objects-default_spec lib c r hash e site w domain install says =
    ap (λ s. reconcile_objects lib c r hash e (record site { spec = s }))
      (read_spec-default_spec w says)
    ∙ texts_same lib c r hash e site (read_spec w) domain install
