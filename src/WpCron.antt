-- ===== src/WpCron.antt =====
-- cmd/wpcron.go. The HTTP client is a parameter: what a GET of a URL gives. Log lines are left out.
pub mod Runs
use site_operator.Common.{
  ℕ, suc, String, Option, none, some, List, [], ◌∷◌, ◌++◌, ◌<>◌, ◌&&◌, length, leb, ltb, nat_eq,
  format_nat, format_list, if◌then◌else◌,
}
use site_operator.Common.Outcome.{Outcome, ok, err, panic, Error, message, wrapped}
use site_operator.Api.Site.{Site}
use site_operator.Kube.Action.{Action, continue, ◌>>=◌, wrap_err, lift}
use site_operator.Kube.Client.{Client, M}

-- A GET of a URL under the timeout: the status code, or the error of the request.
abbrev pub HttpGet : Type 0 → Type 0
HttpGet W = String → Action W ℕ

unfoldable pub site_cron_url : Site → String
site_cron_url site =
    "http://"
    <> (site.meta.name
        <> ("." <> (site.meta.namespace <> ".svc.cluster.local/wp-cron.php?doing_wp_cron")))

-- `http.StatusBadRequest`
abbrev pub status_bad_request : ℕ
status_bad_request = 400

check_status : Outcome ℕ → Outcome ℕ
check_status (ok status) =
    if leb status_bad_request status
    then err (message ("HTTP " <> format_nat status))
    else ok status
check_status (err e) = err e
check_status (panic s) = panic s

-- The name under which an unreachable Site is reported.
abbrev pub site_id : Site → String
site_id site = site.meta.namespace <> ("/" <> site.meta.name)

-- The results of triggerSites, so far.
pub record Tally : Type 0 where
  pub triggered : ℕ
  pub unreachable : List String

-- The body of the loop, with the result of the request.
count_site : Site → Outcome ℕ → Tally → Outcome Tally
count_site site (ok status) t = ok (record t { triggered = suc t.triggered })
count_site site (err e) t = ok (record t { unreachable = t.unreachable ++ (site_id site ∷ []) })
count_site site (panic s) t = panic s

module _ {W : Type 0} (get : HttpGet W) where
  unfoldable pub trigger_wp_cron : String → Action W ℕ
  unfolding check_status
  trigger_wp_cron url w = let (o, w') = get url w in (check_status o, w')

  -- The loop of triggerSites.
  trigger_from : (Site → String) → List Site → Tally → Action W Tally
  trigger_from url_for [] t w = (ok t, w)
  trigger_from url_for (site ∷ sites) t w =
      let (o, w') = trigger_wp_cron (url_for site) w in
      continue (count_site site o t) (trigger_from url_for sites) w'

  unfoldable pub trigger_sites : (Site → String) → List Site → Action W Tally
  unfolding trigger_from trigger_wp_cron count_site
  trigger_sites url_for sites =
      trigger_from url_for sites (record { triggered = 0; unreachable = [] })

unfoldable pub cron_run_error : ℕ → ℕ → List String → Option Error
cron_run_error total triggered unreachable =
    if ltb 0 total && nat_eq triggered 0
    then some (
        message (
          "wp-cron could not reach any site ("
          <> (format_nat total <> ("): " <> format_list unreachable))))
    else none

-- `cronRunError` of the whole run.
run_result : List Site → Tally → Outcome (Unit {0})
run_result sites t = elim (cron_run_error (length sites) t.triggered t.unreachable) [
  | none ↦ ok tt
  | some e ↦ err e
]

-- `built` is the error of `client.New`.
unfoldable pub run_wp_cron_once : (c : Client) → HttpGet c.World → Option Error → M c (Unit {0})
unfolding run_result
run_wp_cron_once c get (some e) = lift (err (wrapped "building client" e))
run_wp_cron_once c get none =
    wrap_err (wrapped "listing sites") c.list_sites
    >>= (λ sites. trigger_sites get site_cron_url sites >>= (λ t. lift (run_result sites t)))
