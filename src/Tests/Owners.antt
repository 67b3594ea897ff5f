-- ===== src/Tests/Owners.antt =====
-- A small version of the functions that the operator takes from apimachinery and
-- controller-runtime, by which the theorems about every such library are applied.
use site_operator.Common.{
  String, Bool, true, false, Option, none, some, List, [], ◌∷◌, ◌≡◌, ◌≢◌, refl, sym, ap, subst,
  ◌==◌, eq_iff, arith, ◌&&◌, if◌then◌else◌,
}
use site_operator.Common.Int.{ℤ, pos}
use site_operator.Common.Outcome.{
  Outcome, ok, err, Error, api, message, not_found, Reason, ok-injective,
}
use site_operator.Kube.Meta.{
  ObjectMeta, OwnerReference, Condition, ConditionStatus, condition_true, condition_false,
  condition_unknown,
}
use site_operator.Kube.Library.{Library, OwnerLaws, ErrorLaws}

abbrev reference_to : ObjectMeta → OwnerReference
reference_to owner = record { kind = "Site"; name = owner.name; uid = owner.uid; controller = true }

abbrev first_is : List OwnerReference → String → Bool
first_is [] uid = false
first_is (r ∷ rs) uid = r.controller && r.uid == uid

abbrev pub controlled : ObjectMeta → ObjectMeta → Bool
controlled m owner = first_is m.owner_references owner.uid

abbrev own : ObjectMeta → ObjectMeta → List OwnerReference → Outcome ObjectMeta
own owner m [] = ok (record m { owner_references = reference_to owner ∷ [] })
own owner m (r ∷ rs) = if first_is (r ∷ rs) owner.uid then ok m else err (message "already owned")

abbrev pub same_status : ConditionStatus → ConditionStatus → Bool
same_status condition_true condition_true = true
same_status condition_false condition_false = true
same_status condition_unknown condition_unknown = true
same_status _ _ = false

abbrev pub stamped : ℤ → Condition → Condition → Condition
stamped now old c = record c {
  last_transition_time = if same_status old.status c.status then old.last_transition_time else now;
}

abbrev pub set_condition : ℤ → List Condition → Condition → List Condition
set_condition now [] c = record c { last_transition_time = now } ∷ []
set_condition now (d ∷ ds) c =
    if d.kind == c.kind then stamped now d c ∷ ds else d ∷ set_condition now ds c

abbrev without_missing : Option Error → Option Error
without_missing (some (api not_found s)) = none
without_missing o = o

abbrev pub small_library : Library
small_library = record {
  set_controller_reference = λ owner m. own owner m m.owner_references;
  is_controlled_by = controlled;
  ignore_not_found = without_missing;
  parse_quantity =
      λ s. if s == "lots" then none else some (record { unscaled = pos 10; scale = pos 0 });
  set_status_condition = set_condition;
}

if-ok :
    (b : Bool) (m m' : ObjectMeta) (x : Error)
    → (if b then ok m else err x) ≡ ok m'
    → (b ≡ true) × (m ≡ m')
if-ok true m m' x e = (refl, ok-injective e)
if-ok false m m' x e = cc

module _ (owner m : ObjectMeta) where
  own-only :
      (m' : ObjectMeta) (rs : List OwnerReference)
      → own owner m rs ≡ ok m'
      → m' ≡ record m { owner_references = m'.owner_references }
  own-only m' [] e =
      subst (λ (z : ObjectMeta). z ≡ record m { owner_references = z.owner_references })
        (ok-injective e) refl
  own-only m' (r ∷ rs) e =
      subst (λ (z : ObjectMeta). z ≡ record m { owner_references = z.owner_references })
        (if-ok (first_is (r ∷ rs) owner.uid) m m' _ e).1 refl

  own-controls :
      (m' : ObjectMeta) (rs : List OwnerReference)
      → m.owner_references ≡ rs
      → own owner m rs ≡ ok m'
      → controlled m' owner ≡ true
  own-controls m' [] same e =
      subst (λ z. controlled z owner ≡ true) (ok-injective e)
        (ground (arith, eq_iff owner.uid owner.uid))
  own-controls m' (r ∷ rs) same e =
      let (yes', same_meta) = if-ok (first_is (r ∷ rs) owner.uid) m m' _ e in
      subst (λ z. controlled z owner ≡ true) same_meta (rw same yes')

  own-fresh : (rs : List OwnerReference) → rs ≡ [] → (m' : ObjectMeta) × (own owner m rs ≡ ok m')
  own-fresh [] e = (_, refl)
  own-fresh (r ∷ rs) e = cc

  own-refused :
      (other : ObjectMeta) (rs : List OwnerReference)
      → first_is rs other.uid ≡ true
      → first_is rs owner.uid ≡ false
      → (s : String) × (own owner m rs ≡ err (message s))
  own-refused other [] e f = cc
  own-refused other (r ∷ rs) e f = ("already owned", rw f refl)

  own-owned :
      (rs : List OwnerReference)
      → first_is rs owner.uid ≡ true
      → (m' : ObjectMeta) × (own owner m rs ≡ ok m')
  own-owned [] e = cc
  own-owned (r ∷ rs) e = (m, rw e refl)

  own-again :
      (n m' : ObjectMeta) (rs ns : List OwnerReference)
      → m.owner_references ≡ rs
      → n.owner_references ≡ ns
      → own owner m rs ≡ ok m'
      → ns ≡ m'.owner_references
      → own owner n ns ≡ ok n
  own-again n m' rs [] of_m of_n e same =
      let held : false ≡ true =
        subst (λ z. first_is z owner.uid ≡ true) (sym same) (own-controls m' rs of_m e) in
      cc
  own-again n m' rs (x ∷ xs) of_m of_n e same =
      let held : first_is (x ∷ xs) owner.uid ≡ true =
        subst (λ z. first_is z owner.uid ≡ true) (sym same) (own-controls m' rs of_m e) in
      rw held refl

pub small_owners : OwnerLaws small_library
small_owners = record {
  set_only = λ owner m {m'}. own-only owner m m' m.owner_references;
  set_controls = λ owner m {m'}. own-controls owner m m' m.owner_references refl;
  set_again = λ owner m n {m'} e same ns.
      own-again owner m n m' m.owner_references n.owner_references refl refl e same;
  set_fresh = λ owner m fresh ns. own-fresh owner m m.owner_references fresh;
  set_refused = λ owner m other. own-refused owner m other m.owner_references;
  controlled_by_refs = λ owner m n e. ap (λ rs. first_is rs owner.uid) e;
  set_owned = λ owner m. own-owned owner m m.owner_references;
}

pub small_errors : ErrorLaws small_library
small_errors = record {
  ignore_none = refl;
  ignore_missing = λ t. refl;
  keep_other = λ r t h. other r t h;
}
  where
    other :
        (r : Reason) (t : String)
        → r ≢ not_found
        → without_missing (some (api r t)) ≡ some (api r t)
    other not_found t h = absurd (h refl)
    other _ t h = refl
