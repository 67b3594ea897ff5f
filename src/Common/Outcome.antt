-- ===== src/Common/Outcome.antt =====
-- What a call of the operator's code gives back: a value, an `error`, or a panic that unwinds it.
use Prim.Native.String.{String}
use mathlib.Core.Path.{◌≡◌, refl}
use mathlib.Core.Option.{Option, none, some}
use site_operator.Common.Text.{◌<>◌}

-- How the API server classifies a failed request.
pub data Reason : Type 0 where
  not_found conflict already_exists invalid forbidden unavailable : Reason

-- `api` is an error of the API machinery, `message` an `fmt.Errorf` with no cause, and `wrapped`
-- one that ends in `%w`.
pub data Error : Type 0 where
  api : Reason → String → Error
  message : String → Error
  wrapped : String → Error → Error

-- `err.Error()`
unfoldable pub error_text : Error → String
error_text (api r s) = s
error_text (message s) = s
error_text (wrapped s e) = s <> (": " <> error_text e)

pub data Outcome {ℓ} (A : Type ℓ) : Type ℓ where
  ok : A → Outcome A
  err : Error → Outcome A
  panic : String → Outcome A

-- The value of a Go `error` result: `nil` is `none`.
abbrev pub from_error : Option Error → Outcome (Unit {0})
from_error none = ok tt
from_error (some e) = err e

abbrev pub map_ok {ℓ κ} : {A : Type ℓ} {B : Type κ} → (A → B) → Outcome A → Outcome B
map_ok f (ok a) = ok (f a)
map_ok f (err e) = err e
map_ok f (panic s) = panic s

pub ok-injective {ℓ} : {A : Type ℓ} {a b : A} → ◌≡◌ {A = Outcome A} (ok a) (ok b) → a ≡ b
ok-injective e = cc

-- A mapped outcome that is a value comes from one.
pub map_ok-inverse {ℓ κ} :
    {A : Type ℓ} {B : Type κ} (f : A → B) (o : Outcome A) {b : B}
    → map_ok f o ≡ ok b
    → (a : A) × (o ≡ ok a) × (f a ≡ b)
map_ok-inverse f (ok a) e = (a, refl, ok-injective e)
map_ok-inverse f (err x) e = cc
map_ok-inverse f (panic s) e = cc

-- Two results of a call with a state behind it.
pub err-not-ok :
    {A W : Type 0} {e : Error} {a : A} {w w' : W}
    → ◌≡◌ {A = Outcome A × W} (err e, w) (ok a, w')
    → ⊥
err-not-ok e = cc

pub same_read :
    {A W : Type 0} {a b : A} {w w' : W}
    → ◌≡◌ {A = Outcome A × W} (ok a, w) (ok b, w')
    → (a ≡ b) × (w ≡ w')
same_read e = (cc, cc)
