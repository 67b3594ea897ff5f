-- ===== src/Tests/Conditions.antt =====
-- The small library sets conditions as documented.
use site_operator.Common.{
  String, true, false, some, List, [], ◌∷◌, ◌≡◌, ◌≢◌, ◌↔◌, refl, subst, Bool-cases, inl, inr, ◌==◌,
  eq_iff, arith, if◌then◌else◌,
}
use site_operator.Common.Int.{ℤ, pos}
use site_operator.Kube.Meta.{
  Condition, ConditionStatus, condition_true, condition_false, condition_unknown,
}
use site_operator.Kube.Library.{ConditionLaws, find_condition, SameCondition, Aged}
use site_operator.Tests.Owners.{same_status, stamped, set_condition, small_library}

same_status_iff : (x y : ConditionStatus) → (same_status x y ≡ true) ↔ (x ≡ y)
same_status_iff condition_true condition_true = (λ e. refl, λ e. refl)
same_status_iff condition_true condition_false = (λ e. cc, λ e. cc)
same_status_iff condition_true condition_unknown = (λ e. cc, λ e. cc)
same_status_iff condition_false condition_true = (λ e. cc, λ e. cc)
same_status_iff condition_false condition_false = (λ e. refl, λ e. refl)
same_status_iff condition_false condition_unknown = (λ e. cc, λ e. cc)
same_status_iff condition_unknown condition_true = (λ e. cc, λ e. cc)
same_status_iff condition_unknown condition_false = (λ e. cc, λ e. cc)
same_status_iff condition_unknown condition_unknown = (λ e. refl, λ e. refl)

stamped-Aged : (now : ℤ) (d c : Condition) → Aged now d (stamped now d c)
stamped-Aged now d c = (
  λ same. rw ((same_status_iff d.status c.status).1 same) refl,
  λ differ. elim (Bool-cases (same_status d.status c.status)) [
    | inl same ↦ absurd (differ ((same_status_iff d.status c.status).0 same))
    | inr other ↦ rw other refl
  ],
)

pub small_conditions : ConditionLaws small_library
unfolding find_condition
small_conditions = record { set_found = found; set_other = other; set_times = times }
  where
    found :
        (now : ℤ) (cs : List Condition) (c : Condition)
        → (d : Condition) × (find_condition c.kind (set_condition now cs c) ≡ some d)
          × SameCondition d c
    found now [] c = (
      record c { last_transition_time = now },
      ground (arith, eq_iff c.kind c.kind),
      (refl, refl, refl, refl, refl),
    )
    found now (d ∷ ds) c = elim (Bool-cases (d.kind == c.kind)) [
      | inl yes' ↦ (
        stamped now d c,
        rw yes' (ground (arith, eq_iff c.kind c.kind)),
        (refl, refl, refl, refl, refl),
      )
      | inr no' ↦ let (x, e, same) = found now ds c in (x, rw no' (rw no' e), same)
    ]

    other :
        (now : ℤ) (cs : List Condition) (c : Condition) (k : String)
        → k ≢ c.kind
        → find_condition k (set_condition now cs c) ≡ find_condition k cs
    other now [] c k h = ground (arith, eq_iff c.kind k)
    other now (d ∷ ds) c k h =
        ground (arith, eq_iff c.kind k, eq_iff d.kind c.kind, eq_iff d.kind k, other now ds c k h)

    times :
        (now : ℤ) (cs : List Condition) (c old : Condition)
        → find_condition c.kind cs ≡ some old
        → c.last_transition_time ≡ pos 0
        → (d : Condition) × (find_condition c.kind (set_condition now cs c) ≡ some d)
          × Aged now old d
    times now [] c old e zero = cc
    times now (d ∷ ds) c old e zero = elim (Bool-cases (d.kind == c.kind)) [
      | inl yes' ↦ (
        stamped now d c,
        rw yes' (ground (arith, eq_iff c.kind c.kind)),
        subst (λ (o : Condition). Aged now o (stamped now d c)) (same_some yes' e)
            (stamped-Aged now d c),
      )
      | inr no' ↦
          let (x, there, aged) = times now ds c old (later no' e) zero in
          (x, rw no' (rw no' there), aged)
    ]
      where
        same_some :
            (d.kind == c.kind) ≡ true
            → (if d.kind == c.kind then some d else find_condition c.kind ds) ≡ some old
            → d ≡ old
        same_some y e' = ground arith

        later :
            (d.kind == c.kind) ≡ false
            → (if d.kind == c.kind then some d else find_condition c.kind ds) ≡ some old
            → find_condition c.kind ds ≡ some old
        later n e' = ground arith
