-- ===== src/Kube/Action.antt =====
-- Calls that read and change a state, and end in a value, an error or a panic. What was written
-- before an error stays written.
use site_operator.Common.Outcome.{Outcome, ok, err, panic, Error}

abbrev pub Action {ℓ} : Type ℓ → Type ℓ → Type ℓ
Action W A = W → Outcome A × W

module _ {ℓ} {W A : Type ℓ} where
  abbrev pub pure : A → Action W A
  pure a w = (ok a, w)

  abbrev pub lift : Outcome A → Action W A
  lift o w = (o, w)

module _ {ℓ} {W A B : Type ℓ} where
  abbrev pub continue : Outcome A → (A → Action W B) → Action W B
  continue (ok a) f w = f a w
  continue (err e) f w = (err e, w)
  continue (panic s) f w = (panic s, w)

  infixl 10 ◌>>=◌ ◌>>◌
  unfoldable pub ◌>>=◌ : Action W A → (A → Action W B) → Action W B
  ◌>>=◌ m f w = let (o, w') = m w in continue o f w'

  abbrev pub ◌>>◌ : Action W A → Action W B → Action W B
  m >> k = m >>= λ _. k

-- `if err := m(); err != nil { return f(err) }`: an error is replaced, all else is passed on.
abbrev pub map_err {ℓ} : {A : Type ℓ} → (Error → Error) → Outcome A → Outcome A
map_err f (ok a) = ok a
map_err f (err e) = err (f e)
map_err f (panic s) = panic s

unfoldable pub wrap_err {ℓ} : {W A : Type ℓ} → (Error → Error) → Action W A → Action W A
wrap_err f m w = let (o, w') = m w in (map_err f o, w')
