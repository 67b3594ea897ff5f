-- ===== src/Manager/Exits.antt =====
-- How the process ends.
use site_operator.Common.{
  String, Bool, true, none, some, List, [], ◌∷◌, ◌≡◌, ◌↔◌, ◌⊎◌, refl, sym, ap, subst, ap, ◌∙◌,
  if◌then◌else◌,
}
use site_operator.Common.Outcome.{Outcome, ok, err, panic}
use site_operator.Api.Site.{Site}
use site_operator.Kube.Action.{Action, ◌>>=◌}
use site_operator.Kube.Client.{M}
use site_operator.WpCron.{site_cron_url, run_wp_cron_once}
use site_operator.WpCron.Runs.{NeverPanics, answers, any_true, run_wp_cron_once_iff}
use site_operator.Manager.CommandLine.{Flags, default_flags, parse}
use site_operator.Manager.Watches.{site_builder}
use site_operator.Manager.{
  Platform, Exit, exited, exit_of, manager_options, site_reconciler, start_manager, run_wp_cron_job,
  exit_with, run, main,
}

-- All the calls succeeded, one after another.
abbrev pub Succeed : {W : Type 0} → List (Action W (Unit {0})) → W → W → Type 0
Succeed [] w w'' = w ≡ w''
Succeed {W} (m ∷ ms) w w'' = (w' : W) × (m w ≡ (ok tt, w')) × Succeed ms w' w''

module _ {W : Type 0} where
  -- `m` succeeds exactly if these calls do.
  record Chain (m : Action W (Unit {0})) (ms : List (Action W (Unit {0}))) : Type 0 where
    iff : (w w' : W) → (m w ≡ (ok tt, w')) ↔ Succeed ms w w'

-- The calls of `main`, in order.
abbrev pub steps : (p : Platform) → Flags → List (M p.client (Unit {0}))
steps p f =
    p.get_config
    ∷ p.new_manager (manager_options f)
    ∷ p.complete site_builder (site_reconciler f)
    ∷ p.add_healthz_check "healthz"
    ∷ p.add_readyz_check "readyz"
    ∷ p.start
    ∷ []

compose : {A B C : Type 0} → A ↔ B → B ↔ C → A ↔ C
compose (f, f') (g, g') = (λ a. g (f a), λ c. f' (g' c))

job-cron :
    (p : Platform) (w w0 : p.client.World)
    → p.get_config w ≡ (ok tt, w0)
    → run_wp_cron_job p w ≡ run_wp_cron_once p.client p.http_get p.built w0
unfolding run_wp_cron_job ◌>>=◌
job-cron p w w0 e = rw (e, ◌>>=◌) refl

main-cron :
    (p : Platform) (args : List (String × String)) (f : Flags) (w : p.client.World)
    → parse args default_flags ≡ some f
    → f.run_wp_cron ≡ true
    → main p args w ≡ exit_with (run_wp_cron_job p) w
unfolding main run
main-cron p args f w parsed on =
    rw (parsed, main)
      (ap (λ (b : Bool). exit_with (if b then run_wp_cron_job p else start_manager p f) w) on)

exit_of-ok : (o : Outcome (Unit {0})) → (exit_of o ≡ exited 0) ↔ (o ≡ ok tt)
exit_of-ok (ok u) = (λ e. refl, λ e. refl)
exit_of-ok (err x) = (λ e. cc, λ e. cc)
exit_of-ok (panic s) = (λ e. cc, λ e. cc)

-- Where the flags ask for a wp-cron run, the configuration and a client are there, no request panics
-- and the Sites are listed, the process ends with status 0 exactly if there are no Sites or one of
-- them answered below 400.
pub main-cron_iff :
    (p : Platform) (args : List (String × String)) (f : Flags) (w w0 w1 : p.client.World)
    (sites : List Site)
    → parse args default_flags ≡ some f
    → f.run_wp_cron ≡ true
    → p.get_config w ≡ (ok tt, w0)
    → p.built ≡ none
    → NeverPanics p.http_get
    → p.client.list_sites w0 ≡ (ok sites, w1)
    → ((main p args w).0 ≡ exited 0)
      ↔ ((sites ≡ []) ⊎ (any_true (answers p.http_get site_cron_url sites w1) ≡ true))
main-cron_iff p args f w w0 w1 sites parsed on config built calm listed =
    let ended : main p args w ≡ exit_with (run_wp_cron_once p.client p.http_get none) w0 =
      main-cron p args f w parsed on
      ∙ (ap (λ (r : Outcome (Unit {0}) × p.client.World). (exit_of r.0, r.1))
            (job-cron p w w0 config)
          ∙ ap (λ b. exit_with (run_wp_cron_once p.client p.http_get b) w0) built) in
    subst
      (λ (r : Exit × p.client.World).
        (r.0 ≡ exited 0)
        ↔ ((sites ≡ []) ⊎ (any_true (answers p.http_get site_cron_url sites w1) ≡ true)))
      (sym ended)
      (compose (exit_of-ok (run_wp_cron_once p.client p.http_get none w0).0)
        (run_wp_cron_once_iff p.client p.http_get w0 w1 sites calm listed))
