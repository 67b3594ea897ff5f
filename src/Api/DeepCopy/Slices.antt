-- ===== src/Api/DeepCopy/Slices.antt =====
-- Slices whose elements are copied one by one.
use site_operator.Common.{List, [], ◌∷◌, ◌≡◌, refl}
use site_operator.Api.DeepCopy.Heap.{Heap, S, pure, ◌>>=◌}
use site_operator.Api.DeepCopy.Copies.{Makes, Same, Deep, bind-Makes, pure-Makes}

-- A slice whose elements all have `W`.
abbrev pub Each : {A : Type 0} → (Heap → A → Type 0) → Heap → List A → Type 0
Each W h [] = Unit
Each W h (x ∷ xs) = W h x × Each W h xs

abbrev pub each : {A V : Type 0} → (Heap → A → V) → Heap → List A → List V
each view h [] = []
each view h (x ∷ xs) = view h x ∷ each view h xs

-- `for i := range *in { (*in)[i].DeepCopyInto(&(*out)[i]) }`
unfoldable pub copy_elements : {A : Type 0} → (A → S A) → List A → S (List A)
copy_elements into [] = pure []
copy_elements into (x ∷ xs) = do y ← into x; ys ← copy_elements into xs; pure (y ∷ ys)

pub elements-Deep :
    {A V : Type 0} {W : Heap → A → Type 0} {view : Heap → A → V} {into : A → S A}
    → Deep W view into
    → Deep (Each W) (each view) (copy_elements into)
unfolding copy_elements
elements-Deep {W = W} {view = view} {into = into} d = record {
  copies = λ xs w. copies xs _ _ w;
  settles = settles;
}
  where
    copies :
        (xs : List _) (E : Heap → Type 0) (h0 : Heap)
        → Each W h0 xs
        → Makes h0 E (each view) (each view h0 xs) (copy_elements into xs)
    copies [] E h0 w = pure-Makes (λ k e. refl)
    copies (x ∷ xs) E h0 w =
        bind-Makes (d.copies x w.0)
          λ y. bind-Makes (copies xs _ h0 w.1) λ ys. pure-Makes (λ k e i. e.0.1 i ∷ e.1 i)

    settles : (h k : Heap) (xs : List _) → Each W h xs → Same h k → each view k xs ≡ each view h xs
    settles h k [] w agree = refl
    settles h k (x ∷ xs) w agree = λ i. d.settles h k x w.0 agree i ∷ settles h k xs w.1 agree i
