-- ===== src/Status.antt =====
-- internal/controller/status.go
pub mod Verdict
pub mod Times
pub mod Rollout
use site_operator.Common.{
  String, Bool, true, false, Option, none, some, List, [], ◌∷◌, ◌==◌, ◌&&◌, if◌then◌else◌,
}
use site_operator.Common.Int.{ℤ, pos, leb_ℤ, eq_ℤ, positive}
use site_operator.Common.Outcome.{Error, error_text}
use site_operator.Kube.Meta.{Condition, ConditionStatus, condition_true, condition_false}
use site_operator.Kube.Objects.{Deployment, DeploymentStatus, DeploymentCondition}
use site_operator.Kube.Library.{Library}

abbrev pub reason_reconcile_error : String
reason_reconcile_error = "ReconcileError"

abbrev pub reason_not_found : String
reason_not_found = "DeploymentNotFound"

abbrev pub reason_ready : String
reason_ready = "DeploymentReady"

abbrev pub reason_rolling_out : String
reason_rolling_out = "DeploymentRollingOut"

abbrev pub reason_rollout_stalled : String
reason_rollout_stalled = "RolloutStalled"

abbrev pub condition_available : String
condition_available = "Available"

abbrev pub condition_progressing : String
condition_progressing = "Progressing"

abbrev pub condition_degraded : String
condition_degraded = "Degraded"

unfoldable pub condition_status : Bool → ConditionStatus
condition_status b = if b then condition_true else condition_false

unfoldable pub desired_replicas : Option ℤ → ℤ
desired_replicas none = pos 1
desired_replicas (some n) = n

unfoldable pub deployment_rolled_out : Deployment → Bool
unfolding desired_replicas
deployment_rolled_out deploy =
    leb_ℤ deploy.meta.generation observed_generation
    && leb_ℤ (desired_replicas deploy.spec.replicas) updated_replicas
    && eq_ℤ replicas updated_replicas
    && eq_ℤ available_replicas updated_replicas
  where
    open deploy.status use {observed_generation, updated_replicas, replicas, available_replicas}

unfoldable pub is_false : ConditionStatus → Bool
is_false condition_false = true
is_false _ = false

unfoldable pub deadline_exceeded : DeploymentCondition → Bool
unfolding is_false
deadline_exceeded c =
    c.kind == "Progressing" && is_false c.status && c.reason == "ProgressDeadlineExceeded"

-- The message of the first condition that reports a missed deadline.
unfoldable pub stalled_message : List DeploymentCondition → Option String
stalled_message [] = none
stalled_message (c ∷ cs) = if deadline_exceeded c then some c.message else stalled_message cs

unfoldable pub deployment_stalled : Deployment → Option String
deployment_stalled deploy = stalled_message deploy.status.conditions

abbrev pub new_condition : ℤ → String → String → String → ConditionStatus → Condition
new_condition generation reason message kind status = record {
  kind = kind;
  status = status;
  observed_generation = generation;
  last_transition_time = pos 0;
  reason = reason;
  message = message;
}

module _ (lib : Library) (now : ℤ) (conditions : List Condition) (generation : ℤ) where
  unfoldable pub apply :
      String → String → ConditionStatus → ConditionStatus → ConditionStatus → List Condition
  apply reason message available progressing degraded =
      let new = new_condition generation reason message in
      let c1 = lib.set_status_condition now conditions (new condition_available available) in
      let c2 = lib.set_status_condition now c1 (new condition_progressing progressing) in
      lib.set_status_condition now c2 (new condition_degraded degraded)

  -- Some replicas are not up to date.
  not_rolled_out : Deployment → List Condition
  not_rolled_out deploy =
      let available = condition_status (positive deploy.status.available_replicas) in
      elim (deployment_stalled deploy) [
        | some message ↦
            apply reason_rollout_stalled message available condition_false condition_true
        | none ↦
            apply reason_rolling_out "waiting for deployment to become ready" available
              condition_true condition_false
      ]

  -- The cases of the switch with no error of the reconcile.
  without_error : Deployment → Option Error → List Condition
  unfolding not_rolled_out
  without_error deploy (some e) =
      apply reason_not_found "site deployment does not exist yet" condition_false condition_true
        condition_false
  without_error deploy none =
      if deployment_rolled_out deploy
      then apply reason_ready "deployment has the desired number of ready replicas" condition_true
          condition_false condition_false
      else not_rolled_out deploy

  unfoldable pub set_site_conditions : Deployment → Option Error → Option Error → List Condition
  unfolding without_error
  set_site_conditions deploy deploy_err (some e) =
      apply reason_reconcile_error (error_text e) condition_false condition_false condition_true
  set_site_conditions deploy deploy_err none = without_error deploy deploy_err
