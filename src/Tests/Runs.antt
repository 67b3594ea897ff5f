-- ===== src/Tests/Runs.antt =====
-- A client that records what is written and deleted, and runs of the cron job.
use site_operator.Common.{
  Bool, true, none, List, [], ◌∷◌, ◌≡◌, ◌⊎◌, ◌↔◌, refl, All, arith, ◌==◌, if◌then◌else◌,
}
use site_operator.Common.Int.{pos}
use site_operator.Common.Outcome.{Outcome, ok, err, panic, api, not_found, message}
use site_operator.Kube.Meta.{object_key}
use site_operator.Kube.Objects.{Kind, Obj, meta_of}
use site_operator.Kube.Client.{Client}
use site_operator.Kube.Keeps.{Permits}
use site_operator.Controller.{reconcile}
use site_operator.Controller.Safety.{reconcile-Keeps}
use site_operator.WpCron.{HttpGet, site_cron_url, trigger_sites, run_wp_cron_once}
use site_operator.WpCron.Runs.{
  NeverPanics, answers, any_true, trigger_sites-answers, run_wp_cron_once_iff,
}
use site_operator.Tests.Fixtures.{full_site, plain_site, zero_entropy}
use site_operator.Tests.Owners.{small_library, small_owners, controlled}

-- For each object written or deleted, whether the Site controls it.
abbrev pub Log : Type 0
Log = List Bool

abbrev recorded_get : (k : Kind) → Outcome (Obj k)
recorded_get Kind.site = ok full_site
recorded_get _ = err (api not_found "not found")

abbrev record_write : (k : Kind) → Outcome (Obj k) → Log → Outcome (Unit {0}) × Log
record_write k (ok y) w = (ok tt, controlled (meta_of k y) full_site.meta ∷ w)
record_write k (err e) w = (err e, w)
record_write k (panic t) w = (panic t, w)

abbrev pub recorder : Client
recorder = record {
  World = Log;
  now = λ w. pos 0;
  get = λ k n w. (recorded_get k, w);
  list_sites = λ w. (ok (full_site ∷ plain_site ∷ []), w);
  create_or_update = λ k o f w. record_write k (f o) w;
  delete = λ k o w. (ok tt, controlled (meta_of k o) full_site.meta ∷ w);
  update_status = λ s w. (ok tt, w);
  retry_on_conflict = λ m. m;
}

abbrev AllControlled : Log → Type 0
AllControlled w = All (λ (b : Bool). b ≡ true) w

recorder-Permits : Permits small_library recorder full_site AllControlled
recorder-Permits = record {
  get_keeps = λ k n w p. p;
  write_keeps = λ k o f ns h w p. write_keeps k o f (λ x y e. (h x y e).0) w p (f o) refl;
  delete_keeps = λ k n o w w' got named h p p'. (h, p');
  status_keeps = λ old status w w' w'' got p p'. p';
  retry_keeps = λ m h. h;
}
  where
    write_keeps :
        (k : Kind) (o : Obj k) (f : Obj k → Outcome (Obj k))
        → ((x y : Obj k) → f x ≡ ok y → controlled (meta_of k y) full_site.meta ≡ true)
        → (w : Log) → AllControlled w
        → (r : Outcome (Obj k)) → f o ≡ r
        → AllControlled (record_write k r w).1
    write_keeps k o f h w p (ok y) e = (h o y e, p)
    write_keeps k o f h w p (err x) e = p
    write_keeps k o f h w p (panic t) e = p

reconcile-Keeps_example :
    AllControlled
      (reconcile small_library recorder
        (record { default_maria_db_ref = none; default_storage_class_name = "" })
        (λ s. s)
        zero_entropy
        (object_key full_site.meta)
        []).1
reconcile-Keeps_example =
    reconcile-Keeps small_library small_owners recorder
      (record { default_maria_db_ref = none; default_storage_class_name = "" }) (λ s. s)
      zero_entropy (object_key full_site.meta) [] [] full_site refl recorder-Permits tt

-- The first Site answers, and all others are down.
abbrev pub web : HttpGet Log
web url w =
    (if url == site_cron_url full_site then ok 200 else err (message "connection refused"), w)

pub web-NeverPanics : NeverPanics web
web-NeverPanics u w s e = ground (arith)

trigger_sites-answers_example :
    trigger_sites web site_cron_url (full_site ∷ plain_site ∷ []) []
    ≡ (ok (record { triggered = 1; unreachable = "blogs/plain" ∷ [] }), [])
unfolding site_cron_url
trigger_sites-answers_example =
    trigger_sites-answers web web-NeverPanics site_cron_url (full_site ∷ plain_site ∷ []) []

run_wp_cron_once_iff_example : ((run_wp_cron_once recorder web none []).0 ≡ ok tt) ↔ (
    (full_site ∷ plain_site ∷ [] ≡ [])
    ⊎ (any_true (answers web site_cron_url (full_site ∷ plain_site ∷ []) []) ≡ true))
run_wp_cron_once_iff_example =
    run_wp_cron_once_iff recorder web [] [] (full_site ∷ plain_site ∷ []) web-NeverPanics refl
