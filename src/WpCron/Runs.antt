-- ===== src/WpCron/Runs.antt =====
-- What a run counts and when it fails.
use site_operator.Common.{
  ℕ, suc, ◌+◌, String, Bool, true, false, not, ◌||◌, none, List, [], ◌∷◌, ◌++◌, ◌⊎◌, ◌≡◌, ◌≢◌, refl,
  ◌∙◌, ap, ◌↔◌, leb, ltb, inl, inr, arith, if◌then◌else◌,
}
use mathlib.Core.List.{append_assoc, append-nil}
use site_operator.Common.Outcome.{Outcome, ok, err, panic}
use site_operator.Api.Site.{Site}
use site_operator.Kube.Action.{◌>>=◌, continue, wrap_err}
use site_operator.Kube.Client.{Client}
use site_operator.WpCron.{
  HttpGet, site_cron_url, site_id, status_bad_request, Tally, trigger_wp_cron, trigger_from,
  trigger_sites, check_status, count_site, cron_run_error, run_result, run_wp_cron_once,
}

-- The site answered, and with no HTTP error.
abbrev pub reached : Outcome ℕ → Bool
reached (ok status) = not (leb status_bad_request status)
reached (err e) = false
reached (panic s) = false

-- No request panics.
abbrev pub NeverPanics : {W : Type 0} → HttpGet W → Type 0
NeverPanics {W} get = (u : String) (w : W) (s : String) → (get u w).0 ≢ panic s

module _ {W : Type 0} (get : HttpGet W) where
  -- Independent of the loop: whether each Site is reached, when all are asked in turn.
  abbrev pub answers : (Site → String) → List Site → W → List Bool
  answers url_for [] w = []
  answers url_for (site ∷ sites) w =
      reached (get (url_for site) w).0 ∷ answers url_for sites (get (url_for site) w).1

  abbrev pub after_all : (Site → String) → List Site → W → W
  after_all url_for [] w = w
  after_all url_for (site ∷ sites) w = after_all url_for sites (get (url_for site) w).1

abbrev pub count_true : List Bool → ℕ
count_true [] = 0
count_true (b ∷ bs) = if b then suc (count_true bs) else count_true bs

-- The names of the Sites that did not answer.
abbrev pub missed : List Site → List Bool → List String
missed [] bs = []
missed (site ∷ sites) [] = []
missed (site ∷ sites) (b ∷ bs) = if b then missed sites bs else site_id site ∷ missed sites bs

abbrev add_answer : Site → Bool → Tally → Tally
add_answer site true t = record t { triggered = suc t.triggered }
add_answer site false t = record t { unreachable = t.unreachable ++ (site_id site ∷ []) }

count_site-add_answer :
    (site : Site) (o : Outcome ℕ) (t : Tally)
    → ((s : String) → o ≢ panic s)
    → count_site site (check_status o) t ≡ ok (add_answer site (reached o) t)
unfolding count_site check_status
count_site-add_answer site (ok status) t h = ground arith
count_site-add_answer site (err e) t h = refl
count_site-add_answer site (panic s) t h = absurd (h s refl)

abbrev added : Tally → ℕ → List String → Tally
added t n ms = record { triggered = t.triggered + n; unreachable = t.unreachable ++ ms }

added-add_answer :
    (site : Site) (b : Bool) (t : Tally) (n : ℕ) (ms : List String)
    → added (add_answer site b t) n ms
      ≡ added t (if b then suc n else n) (if b then ms else site_id site ∷ ms)
added-add_answer site true t n ms =
    ap (λ (k : ℕ). record { triggered = k; unreachable = t.unreachable ++ ms }) (omega arith)
added-add_answer site false t n ms = rw append_assoc

module _ {W : Type 0} (get : HttpGet W) (h : NeverPanics get) (url_for : Site → String) where
  trigger_from-answers :
      (sites : List Site) (t : Tally) (w : W)
      → let bs = answers get url_for sites w in
        trigger_from get url_for sites t w
        ≡ (ok (added t (count_true bs) (missed sites bs)), after_all get url_for sites w)
  unfolding trigger_from trigger_wp_cron
  trigger_from-answers [] t w = rw append-nil (ground arith)
  trigger_from-answers (site ∷ sites) t w =
      let (o, w') = get (url_for site) w in
      ap (λ (r : Outcome Tally). continue r (trigger_from get url_for sites) w')
        (count_site-add_answer site o t (h (url_for site) w))
      ∙ trigger_from-answers sites (add_answer site (reached o) t) w'
      ∙ ap (λ (r : Tally). (ok r, after_all get url_for sites w'))
          (added-add_answer site (reached o) t _ _)

  -- If no request panics, every Site is asked, in order and once, whatever the others answer; the
  -- run counts those that answered below 400 and reports the others by name.
  pub trigger_sites-answers :
      (sites : List Site) (w : W)
      → let bs = answers get url_for sites w in
        trigger_sites get url_for sites w ≡ (
          ok (record { triggered = count_true bs; unreachable = missed sites bs }),
          after_all get url_for sites w,
        )
  unfolding trigger_sites
  trigger_sites-answers sites w =
      trigger_from-answers sites (record { triggered = 0; unreachable = [] }) w ∙ ground arith

abbrev pub any_true : List Bool → Bool
any_true [] = false
any_true (b ∷ bs) = b || any_true bs

any_true-count_true : (bs : List Bool) → any_true bs ≡ ltb 0 (count_true bs)
any_true-count_true [] = refl
any_true-count_true (b ∷ bs) = ground (arith, any_true-count_true bs)

run_result_iff :
    (sites : List Site) (bs : List Bool) (names : List String)
    → (run_result sites (record { triggered = count_true bs; unreachable = names }) ≡ ok tt)
      ↔ ((sites ≡ []) ⊎ (any_true bs ≡ true))
unfolding run_result cron_run_error
run_result_iff [] bs names = (λ h. inl refl, λ h. refl)
run_result_iff (site ∷ sites) bs names =
    (λ h. inr (ground (arith, any_true-count_true bs)), λ h. ground (arith, any_true-count_true bs))

-- If no request panics, then once the Sites are listed the run succeeds exactly if there are none,
-- or one of them answered below 400.
pub run_wp_cron_once_iff :
    (c : Client) (get : HttpGet c.World) (w w1 : c.World) (sites : List Site)
    → NeverPanics get
    → c.list_sites w ≡ (ok sites, w1)
    → ((run_wp_cron_once c get none w).0 ≡ ok tt)
      ↔ ((sites ≡ []) ⊎ (any_true (answers get site_cron_url sites w1) ≡ true))
unfolding run_wp_cron_once ◌>>=◌ wrap_err
run_wp_cron_once_iff c get w w1 sites h listed =
    let bs = answers get site_cron_url sites w1 in
    rw (listed, run_wp_cron_once, ◌>>=◌, wrap_err)
      (rw (trigger_sites-answers get h site_cron_url sites w1, ◌>>=◌)
        (run_result_iff sites bs (missed sites bs)))
