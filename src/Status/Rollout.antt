-- ===== src/Status/Rollout.antt =====
-- What a Deployment's status means for a Site, told without the tests of status.go.
use site_operator.Common.{String, true, Option, none, some, List, [], ◌∷◌, ◌≡◌, ◌⊎◌}
use site_operator.Common.Int.{ℤ, pos, leb_ℤ, positive}
use site_operator.Common.Outcome.{Error, error_text}
use site_operator.Kube.Meta.{condition_true, condition_false}
use site_operator.Kube.Objects.{Deployment, DeploymentCondition}
use site_operator.Kube.Library.{Library}
use site_operator.Status.Verdict.{Verdict, incomplete}

-- The replicas that a Deployment asks for; one where it does not say.
abbrev wanted_replicas : Option ℤ → ℤ
wanted_replicas none = pos 1
wanted_replicas (some n) = n

-- The status is about this spec or a later one, the new template has the replicas wanted, no replica
-- of an old template is left, and all of them are available.
abbrev pub IsRolledOut : Deployment → Type 0
IsRolledOut d =
    (leb_ℤ d.meta.generation d.status.observed_generation ≡ true)
    × (leb_ℤ (wanted_replicas d.spec.replicas) d.status.updated_replicas ≡ true)
    × (d.status.replicas ≡ d.status.updated_replicas)
    × (d.status.available_replicas ≡ d.status.updated_replicas)

abbrev pub ReportsMissed : DeploymentCondition → Type 0
ReportsMissed c =
    (c.kind ≡ "Progressing")
    × (c.status ≡ condition_false)
    × (c.reason ≡ "ProgressDeadlineExceeded")

-- The message of the first of the conditions that reports a missed deadline, if one does.
abbrev pub FirstMissed : List DeploymentCondition → Option String → Type 0
FirstMissed [] o = o ≡ none
FirstMissed (c ∷ cs) o =
    (ReportsMissed c × (o ≡ some c.message)) ⊎ ((¬ ReportsMissed c) × FirstMissed cs o)

abbrev pub failed : String → Verdict
failed message = record {
  reason = "ReconcileError";
  message = message;
  available = condition_false;
  progressing = condition_false;
  degraded = condition_true;
}

abbrev pub missing : Verdict
missing = record {
  reason = "DeploymentNotFound";
  message = "site deployment does not exist yet";
  available = condition_false;
  progressing = condition_true;
  degraded = condition_false;
}

abbrev pub ready : Verdict
ready = record {
  reason = "DeploymentReady";
  message = "deployment has the desired number of ready replicas";
  available = condition_true;
  progressing = condition_false;
  degraded = condition_false;
}

-- The verdict on a Deployment as read, on the error of reading it and on that of Reconcile.
abbrev pub IsVerdict : Deployment → Option Error → Option Error → Verdict → Type 0
IsVerdict d deploy_err (some e) v = v ≡ failed (error_text e)
IsVerdict d (some e) none v = v ≡ missing
IsVerdict d none none v =
    (IsRolledOut d × (v ≡ ready))
    ⊎ ((¬ IsRolledOut d)
        × ((o : Option String) × FirstMissed d.status.conditions o
            × (v ≡ incomplete (positive d.status.available_replicas) o)))
