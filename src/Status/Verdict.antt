-- ===== src/Status/Verdict.antt =====
-- The conditions of a Site after each outcome.
use site_operator.Common.{
  String, Bool, false, Option, none, some, List, ◌≡◌, ◌≢◌, refl, ◌∙◌, ◌==◌, eq_iff, arith,
  if◌then◌else◌,
}
use site_operator.Common.Int.{ℤ, positive}
use site_operator.Common.Outcome.{Error, error_text}
use site_operator.Kube.Meta.{Condition, ConditionStatus, condition_true, condition_false}
use site_operator.Kube.Objects.{Deployment}
use site_operator.Kube.Library.{Library, ConditionLaws, find_condition}
use site_operator.Status.{
  apply, new_condition, set_site_conditions, deployment_rolled_out, deployment_stalled,
  condition_status, condition_available, condition_progressing, condition_degraded,
  reason_reconcile_error, reason_not_found, reason_ready, reason_rolling_out,
  reason_rollout_stalled,
}

-- What the three conditions should say, with one reason and one message for all of them.
pub record Verdict : Type 0 where
  pub reason : String
  pub message : String
  pub available : ConditionStatus
  pub progressing : ConditionStatus
  pub degraded : ConditionStatus

-- A rollout that is not complete.
abbrev pub incomplete : Bool → Option String → Verdict
incomplete serving (some message) = record {
  reason = reason_rollout_stalled;
  message = message;
  available = condition_status serving;
  progressing = condition_false;
  degraded = condition_true;
}
incomplete serving none = record {
  reason = reason_rolling_out;
  message = "waiting for deployment to become ready";
  available = condition_status serving;
  progressing = condition_true;
  degraded = condition_false;
}

abbrev pub verdict : Deployment → Option Error → Option Error → Verdict
verdict deploy deploy_err (some e) = record {
  reason = reason_reconcile_error;
  message = error_text e;
  available = condition_false;
  progressing = condition_false;
  degraded = condition_true;
}
verdict deploy (some e) none = record {
  reason = reason_not_found;
  message = "site deployment does not exist yet";
  available = condition_false;
  progressing = condition_true;
  degraded = condition_false;
}
verdict deploy none none =
    if deployment_rolled_out deploy
    then record {
      reason = reason_ready;
      message = "deployment has the desired number of ready replicas";
      available = condition_true;
      progressing = condition_false;
      degraded = condition_false;
    }
    else incomplete (positive deploy.status.available_replicas) (deployment_stalled deploy)

-- A list of conditions says `status` under a type.
abbrev pub Says : List Condition → ℤ → String → String → String → ConditionStatus → Type 0
Says cs generation reason message kind status =
    (c : Condition) × (find_condition kind cs ≡ some c)
    × (c.status ≡ status)
    × (c.reason ≡ reason)
    × (c.message ≡ message)
    × (c.observed_generation ≡ generation)

-- The three conditions of a Site are those of a verdict.
pub record Shows (v : Verdict) (generation : ℤ) (cs : List Condition) : Type 0 where
  pub shows_available : Says cs generation v.reason v.message condition_available v.available
  pub shows_progressing : Says cs generation v.reason v.message condition_progressing v.progressing
  pub shows_degraded : Says cs generation v.reason v.message condition_degraded v.degraded

ne : (s t : String) → (s == t) ≡ false → s ≢ t
ne s t h p = ground (arith, eq_iff s t)

module _ (lib : Library) (laws : ConditionLaws lib) (now : ℤ) (cs : List Condition) where
  Says-set :
      (g : ℤ) (reason message kind : String) (status : ConditionStatus)
      → Says
          (lib.set_status_condition now cs (new_condition g reason message kind status))
          g
          reason
          message
          kind
          status
  Says-set g reason message kind status =
      let (d, found, same) = laws.set_found now cs (new_condition g reason message kind status) in
      (d, found, same.1, same.2, same.3, same.4)

  Says-set_other :
      (new : Condition) (g : ℤ) (reason message kind : String) (status : ConditionStatus)
      → kind ≢ new.kind
      → Says cs g reason message kind status
      → Says (lib.set_status_condition now cs new) g reason message kind status
  Says-set_other new g reason message kind status h (c, found, st, re, me, ge) =
      (c, laws.set_other now cs new kind h ∙ found, st, re, me, ge)

module _ (lib : Library) (laws : ConditionLaws lib) (now : ℤ) (cs : List Condition) (g : ℤ) where
  apply-Shows :
      (v : Verdict)
      → Shows v g (apply lib now cs g v.reason v.message v.available v.progressing v.degraded)
  unfolding apply
  apply-Shows v =
      let new = new_condition g v.reason v.message in
      let c1 = lib.set_status_condition now cs (new condition_available v.available) in
      let c2 = lib.set_status_condition now c1 (new condition_progressing v.progressing) in
      record {
        shows_available =
            Says-set_other lib laws now c2 (new condition_degraded v.degraded) g v.reason v.message
              condition_available v.available (ne condition_available condition_degraded refl)
              (Says-set_other lib laws now c1 (new condition_progressing v.progressing) g v.reason
                v.message condition_available v.available
                (ne condition_available condition_progressing refl)
                (Says-set lib laws now cs g v.reason v.message condition_available v.available));
        shows_progressing =
            Says-set_other lib laws now c2 (new condition_degraded v.degraded) g v.reason v.message
              condition_progressing v.progressing (ne condition_progressing condition_degraded refl)
              (Says-set lib laws now c1 g v.reason v.message condition_progressing v.progressing);
        shows_degraded =
            Says-set lib laws now c2 g v.reason v.message condition_degraded v.degraded;
      }

  pub set_site_conditions-apply :
      (deploy : Deployment) (deploy_err reconcile_err : Option Error)
      → let v = verdict deploy deploy_err reconcile_err in
        set_site_conditions lib now cs g deploy deploy_err reconcile_err
        ≡ apply lib now cs g v.reason v.message v.available v.progressing v.degraded
  unfolding set_site_conditions
  set_site_conditions-apply deploy deploy_err (some e) = refl
  set_site_conditions-apply deploy (some e) none = refl
  set_site_conditions-apply deploy none none = ground arith

  -- Whatever the list held before, the three conditions are afterwards those of the verdict, all
  -- with its reason and message and with the generation given.
  pub set_site_conditions-Shows :
      (deploy : Deployment) (deploy_err reconcile_err : Option Error)
      → Shows
          (verdict deploy deploy_err reconcile_err)
          g
          (set_site_conditions lib now cs g deploy deploy_err reconcile_err)
  set_site_conditions-Shows deploy deploy_err reconcile_err =
      rw (set_site_conditions-apply deploy deploy_err reconcile_err)
        (apply-Shows (verdict deploy deploy_err reconcile_err))
