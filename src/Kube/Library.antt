-- ===== src/Kube/Library.antt =====
-- The pure functions that the operator takes from apimachinery, controller-runtime and `resource`,
-- with what their documentation promises.
use site_operator.Common.{
  false, String, Bool, true, ◌≡◌, ◌≢◌, List, [], Option, none, some, ◌==◌, if◌then◌else◌,
}
use site_operator.Common.Int.{ℤ, pos}
use site_operator.Common.Outcome.{Outcome, ok, err, message, Error, api, not_found, Reason}
use site_operator.Kube.Meta.{ObjectMeta, Condition}
use site_operator.Kube.Objects.{Quantity}

-- `set_controller_reference owner object` is `controllerutil.SetControllerReference`, which writes
-- the object's metadata; `is_controlled_by object owner` is `metav1.IsControlledBy`; `parse_quantity` is
-- `resource.MustParse`, with `none` where that panics on a malformed text; and `set_status_condition now` is
-- `apimeta.SetStatusCondition` at a time.
pub record Library : Type 0 where
  pub set_controller_reference : ObjectMeta → ObjectMeta → Outcome ObjectMeta
  pub is_controlled_by : ObjectMeta → ObjectMeta → Bool
  pub ignore_not_found : Option Error → Option Error
  pub parse_quantity : String → Option Quantity
  pub set_status_condition : ℤ → List Condition → Condition → List Condition

-- `meta.FindStatusCondition`, by which the promise about conditions is stated.
unfoldable pub find_condition : String → List Condition → Option Condition
find_condition k [] = none
find_condition k (List.◌∷◌ c cs) = if c.kind == k then some c else find_condition k cs

-- The condition without its transition time.
abbrev pub SameCondition : Condition → Condition → Type 0
SameCondition c d =
    (c.kind ≡ d.kind)
    × (c.status ≡ d.status)
    × (c.reason ≡ d.reason)
    × (c.message ≡ d.message)
    × (c.observed_generation ≡ d.observed_generation)

-- Owner references: a reference that was set is the object's controller, setting it touches nothing
-- else and need not be done twice; an object with no owner takes one of its own namespace, one that
-- the owner controls already is not refused, and one that another owner controls is.
-- Who controls an object is read off its owner references.
pub record OwnerLaws (lib : Library) : Type 0 where
  pub set_only :
      (owner m : ObjectMeta) {m' : ObjectMeta}
      → lib.set_controller_reference owner m ≡ ok m'
      → m' ≡ record m { owner_references = m'.owner_references }
  pub set_controls :
      (owner m : ObjectMeta) {m' : ObjectMeta}
      → lib.set_controller_reference owner m ≡ ok m'
      → lib.is_controlled_by m' owner ≡ true
  pub set_again :
      (owner m n : ObjectMeta) {m' : ObjectMeta}
      → lib.set_controller_reference owner m ≡ ok m'
      → n.owner_references ≡ m'.owner_references
      → n.namespace ≡ m.namespace
      → lib.set_controller_reference owner n ≡ ok n
  pub set_fresh :
      (owner m : ObjectMeta)
      → m.owner_references ≡ []
      → m.namespace ≡ owner.namespace
      → (m' : ObjectMeta) × (lib.set_controller_reference owner m ≡ ok m')
  pub set_refused :
      (owner m other : ObjectMeta)
      → lib.is_controlled_by m other ≡ true
      → lib.is_controlled_by m owner ≡ false
      → (s : String) × (lib.set_controller_reference owner m ≡ err (message s))
  pub controlled_by_refs :
      (owner m n : ObjectMeta)
      → m.owner_references ≡ n.owner_references
      → lib.is_controlled_by m owner ≡ lib.is_controlled_by n owner
  pub set_owned :
      (owner m : ObjectMeta)
      → lib.is_controlled_by m owner ≡ true
      → (m' : ObjectMeta) × (lib.set_controller_reference owner m ≡ ok m')

-- Only errors of the kind "not found" are dropped.
pub record ErrorLaws (lib : Library) : Type 0 where
  pub ignore_none : lib.ignore_not_found none ≡ none
  pub ignore_missing : (s : String) → lib.ignore_not_found (some (api not_found s)) ≡ none
  pub keep_other :
      (r : Reason) (s : String)
      → r ≢ not_found
      → lib.ignore_not_found (some (api r s)) ≡ some (api r s)

-- The transition time moves exactly where the status changes.
abbrev pub Aged : ℤ → Condition → Condition → Type 0
Aged now c d =
    (c.status ≡ d.status → d.last_transition_time ≡ c.last_transition_time)
    × (c.status ≢ d.status → d.last_transition_time ≡ now)

-- A condition that was set is found, with the time of the one that it replaces if it has its status
-- and else, unless it brings a time of its own, with the time of the call; and the conditions of other types stay as they were.
pub record ConditionLaws (lib : Library) : Type 0 where
  pub set_found :
      (now : ℤ) (cs : List Condition) (c : Condition)
      → (d : Condition) × (find_condition c.kind (lib.set_status_condition now cs c) ≡ some d)
        × SameCondition d c
  pub set_other :
      (now : ℤ) (cs : List Condition) (c : Condition) (k : String)
      → k ≢ c.kind
      → find_condition k (lib.set_status_condition now cs c) ≡ find_condition k cs
  pub set_times :
      (now : ℤ) (cs : List Condition) (c old : Condition)
      → find_condition c.kind cs ≡ some old
      → c.last_transition_time ≡ pos 0
      → (d : Condition) × (find_condition c.kind (lib.set_status_condition now cs c) ≡ some d)
        × Aged now old d
