-- ===== src/Kube/Equality.antt =====
-- Kinds and names of objects can be told apart.
use site_operator.Common.{String, ◌==◌, eq_iff, arith, Bool-cases, inl, inr}
use site_operator.Kube.Meta.{Key}
use site_operator.Kube.Objects.{Kind}

pub Kind-discrete : Discrete Kind
Kind-discrete = hlevel

String-discrete : Discrete String
String-discrete s t = elim (Bool-cases (s == t)) [
  | inl e ↦ yes ((eq_iff s t).0 e)
  | inr n ↦ no (λ e. ground (arith, eq_iff s t))
]

pub Key-discrete : Discrete Key
Key-discrete = hlevel String-discrete

pub Kind-IsSet : IsSet Kind
Kind-IsSet = hlevel
