-- ===== src/Status/Times.antt =====
-- How long a Site's conditions have had their status.
use site_operator.Common.{
  String, true, false, Option, some, List, ◌≡◌, ◌≢◌, refl, sym, ◌∙◌, subst, ◌==◌, eq_iff, arith,
  Bool-cases, inl, inr,
}
use site_operator.Common.Int.{ℤ}
use site_operator.Common.Outcome.{Error}
use site_operator.Kube.Meta.{Condition, ConditionStatus}
use site_operator.Kube.Objects.{Deployment}
use site_operator.Kube.Library.{Library, ConditionLaws, Aged, find_condition}
use site_operator.Status.{
  apply, new_condition, set_site_conditions, condition_available, condition_progressing,
  condition_degraded,
}
use site_operator.Status.Verdict.{verdict, set_site_conditions-apply}

differs : (s t : String) → (s == t) ≡ false → s ≢ t
differs s t h p = ground (arith, eq_iff s t)

-- A condition that is not touched keeps its status and its time.
same-Aged : (now : ℤ) (c : Condition) → Aged now c c
same-Aged now c = (λ e. refl, λ h. absurd (h refl))

module _ (lib : Library) (laws : ConditionLaws lib) (now : ℤ) (g : ℤ)
    (reason message : String) where
  -- The condition of a type after the three calls.
  abbrev Ages : String → List Condition → List Condition → Type 0
  Ages k cs cs' =
      (old : Condition)
      → find_condition k cs ≡ some old
      → (new : Condition) × (find_condition k cs' ≡ some new) × Aged now old new

  set-Ages :
      (k : String) (cs : List Condition) (status : ConditionStatus)
      → Ages k cs (lib.set_status_condition now cs (new_condition g reason message k status))
  set-Ages k cs status old e =
      laws.set_times now cs (new_condition g reason message k status) old e refl

  other_before :
      (k j : String) (cs cs' : List Condition) (status : ConditionStatus)
      → k ≢ j
      → Ages k (lib.set_status_condition now cs (new_condition g reason message j status)) cs'
      → Ages k cs cs'
  other_before k j cs cs' status h ages old e =
      ages old (laws.set_other now cs (new_condition g reason message j status) k h ∙ e)

  other_after :
      (k j : String) (cs cs' : List Condition) (status : ConditionStatus)
      → k ≢ j
      → Ages k cs cs'
      → Ages k cs (lib.set_status_condition now cs' (new_condition g reason message j status))
  other_after k j cs cs' status h ages old e =
      let (new, there, aged) = ages old e in
      (new, laws.set_other now cs' (new_condition g reason message j status) k h ∙ there, aged)

  module _ (cs : List Condition) (a p d : ConditionStatus) where
    abbrev c1 : List Condition
    c1 = lib.set_status_condition now cs (new_condition g reason message condition_available a)

    abbrev c2 : List Condition
    c2 = lib.set_status_condition now c1 (new_condition g reason message condition_progressing p)

    abbrev c3 : List Condition
    c3 = lib.set_status_condition now c2 (new_condition g reason message condition_degraded d)

    available-Ages : Ages condition_available cs c3
    available-Ages = other_after condition_available condition_degraded cs c2 d (differs _ _ refl) (
        other_after condition_available condition_progressing cs c1 p (differs _ _ refl)
          (set-Ages condition_available cs a))

    progressing-Ages : Ages condition_progressing cs c3
    progressing-Ages =
        other_before condition_progressing condition_available cs c3 a (differs _ _ refl) (
          other_after condition_progressing condition_degraded c1 c2 d (differs _ _ refl)
            (set-Ages condition_progressing c1 p))

    degraded-Ages : Ages condition_degraded cs c3
    degraded-Ages = other_before condition_degraded condition_available cs c3 a (differs _ _ refl) (
        other_before condition_degraded condition_progressing c1 c3 p (differs _ _ refl)
          (set-Ages condition_degraded c2 d))

    other-Ages :
        (k : String)
        → (k == condition_available) ≡ false
        → (k == condition_progressing) ≡ false
        → (k == condition_degraded) ≡ false
        → Ages k cs c3
    other-Ages k na np nd = other_after k condition_degraded cs c2 d (differs k _ nd) (
        other_after k condition_progressing cs c1 p (differs k _ np) (
          other_after k condition_available cs cs a (differs k _ na)
            (λ old e. (old, e, same-Aged now old))))

    equals : (k j : String) → (k == j) ≡ true → Ages j cs c3 → Ages k cs c3
    equals k j e = subst (λ i. Ages i cs c3) (sym ((eq_iff k j).0 e))

    apply-Ages : (k : String) → Ages k cs (apply lib now cs g reason message a p d)
    unfolding apply
    apply-Ages k = elim (Bool-cases (k == condition_available)) [
      | inl e ↦ equals k condition_available e available-Ages
      | inr na ↦ elim (Bool-cases (k == condition_progressing)) [
        | inl e ↦ equals k condition_progressing e progressing-Ages
        | inr np ↦ elim (Bool-cases (k == condition_degraded)) [
          | inl e ↦ equals k condition_degraded e degraded-Ages
          | inr nd ↦ other-Ages k na np nd
        ]
      ]
    ]

-- Of every type that the list had a condition of, it has one afterwards, and that keeps its
-- transition time if it keeps its status, and else bears the time of the call: times only move when
-- a status does.
pub set_site_conditions-Aged :
    (lib : Library)
    → ConditionLaws lib
    → (now : ℤ) (cs : List Condition) (g : ℤ) (deploy : Deployment)
      (deploy_err reconcile_err : Option Error) (k : String) (old : Condition)
    → find_condition k cs ≡ some old
    → (new : Condition) × (find_condition k
          (set_site_conditions lib now cs g deploy deploy_err reconcile_err)
        ≡ some new)
      × Aged now old new
set_site_conditions-Aged lib laws now cs g deploy deploy_err reconcile_err k old e =
    let v = verdict deploy deploy_err reconcile_err in
    rw (set_site_conditions-apply lib laws now cs g deploy deploy_err reconcile_err)
      (apply-Ages lib laws now g v.reason v.message cs v.available v.progressing v.degraded k old e)
