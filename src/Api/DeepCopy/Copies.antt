-- ===== src/Api/DeepCopy/Copies.antt =====
-- What it is for a value to be a copy of its own, and how the parts of a copy make up the whole.
use site_operator.Common.{
  ℕ, suc, ◌≤◌, ◌<◌, Option, none, some, ◌≡◌, refl, sym, ap, ◌∙◌, subst, arith,
}
use site_operator.Api.DeepCopy.Heap.{
  Heap, Tag, El, S, pure, ◌>>=◌, reserve, load, store, store_here, store_elsewhere,
}

-- The cells below the free ones of `h` are the same in `k`.
abbrev pub Same : Heap → Heap → Type 0
Same h k = (t : Tag) (p : ℕ) → p < h.next → k.cells t p ≡ h.cells t p

-- Nothing that was there has changed.
abbrev pub Grown : Heap → Heap → Type 0
Grown h k = (h.next ≤ k.next) × Same h k

-- The cells that were added between `h` and `r` are in `k` as they are in `r`.
abbrev pub Added : Heap → Heap → Heap → Type 0
Added h r k = (t : Tag) (p : ℕ) → h.next ≤ p → p < r.next → k.cells t p ≡ r.cells t p

Grown-trans : (h h' h'' : Heap) → Grown h h' → Grown h' h'' → Grown h h''
Grown-trans h h' h'' g g' =
    (omega (arith, g.0, g'.0), λ t p lt. g'.1 t p (omega (arith, g.0)) ∙ g.1 t p lt)

-- From any heap that has grown out of `h0`, the call changes nothing that is there, and what it
-- returns shows `v` in every heap that has the cells the call has added, given `E` of that heap.
pub record Makes {A V : Type 0} (h0 : Heap) (E : Heap → Type 0) (view : Heap → A → V) (v : V)
    (m : S A) : Type 0 where
  pub grows : (h : Heap) → Grown h0 h → Grown h (m h).1
  pub reads : (h : Heap) → Grown h0 h → (k : Heap) → Added h (m h).1 k → E k → view k (m h).0 ≡ v

pub pure-Makes :
    {A V : Type 0} {h0 : Heap} {E : Heap → Type 0} {view : Heap → A → V} {v : V} {a : A}
    → ((k : Heap) → E k → view k a ≡ v)
    → Makes h0 E view v (pure a)
pure-Makes f = record { grows = λ h g. (omega arith, λ t p lt. refl); reads = λ h g k added. f k }

pub bind-Makes :
    {A B U V : Type 0} {h0 : Heap} {E : Heap → Type 0} {view : Heap → A → U} {u : U}
    {view' : Heap → B → V} {v : V} {m : S A} {f : A → S B}
    → Makes h0 E view u m
    → ((a : A) → Makes h0 (λ k. E k × (view k a ≡ u)) view' v (f a))
    → Makes h0 E view' v (m >>= f)
unfolding ◌>>=◌
bind-Makes {h0 = h0} {m = m} {f = f} c rest = record {
  grows = λ h g.
      let h1 = (m h).1 in
      let d = rest (m h).0 in
      Grown-trans h h1 (f (m h).0 h1).1 (c.grows h g)
        (d.grows h1 (Grown-trans h0 h h1 g (c.grows h g)));
  reads = λ h g k added given.
      let h1 = (m h).1 in
      let d = rest (m h).0 in
      let g1 = Grown-trans h0 h h1 g (c.grows h g) in
      d.reads h1 g1 k (λ t p lo hi. added t p (omega (arith, (c.grows h g).0)) hi)
        (
          given,
          c.reads h g k
              (λ t p lo hi.
                added t p lo (omega (arith, (d.grows h1 g1).0)) ∙ (d.grows h1 g1).1 t p hi)
              given,
        );
}

pub load-Makes :
    {V B : Type 0} (t : Tag) (into : El t → S B) {h0 : Heap} {E : Heap → Type 0}
    {view : Heap → B → V} {v : V} {p : ℕ}
    → p < h0.next
    → Makes h0 E view v (into (h0.cells t p))
    → Makes h0 E view v (load t p >>= into)
unfolding ◌>>=◌
load-Makes t into {h0 = h0} {E = E} {view = view} {v = v} {p = p} lt c = record {
  grows = λ h g. subst (λ x. Grown h (into x h).1) (sym (g.1 t p lt)) (c.grows h g);
  reads = λ h g.
      subst (λ x. (k : Heap) → Added h (into x h).1 k → E k → view k (into x h).0 ≡ v)
        (sym (g.1 t p lt)) (c.reads h g);
}

-- What a pointer shows of the cell it points at.
abbrev pub pointed : {V : Type 0} → (t : Tag) → (Heap → El t → V) → Heap → Option ℕ → Option V
pointed t view h none = none
pointed t view h (some p) = some (view h (h.cells t p))

-- Writing the cell that was reserved, after what belongs in it was made.
pub cell-Makes :
    {V : Type 0} {t : Tag} {h0 : Heap} {E : Heap → Type 0} {view : Heap → El t → V} {v : V}
    {m : S (El t)}
    → Makes h0 E view v m
    → Makes h0 E
        (pointed t view)
        (some v)
        (reserve >>= λ q. m >>= λ x. store t q x >>= λ _. pure (some q))
unfolding ◌>>=◌ reserve store
cell-Makes {t = t} {h0 = h0} {view = view} {m = m} c = record {
  grows = λ h g.
      let h1 : Heap = record h { next = suc h.next } in
      let g1 = c.grows h1 (grown h g) in
      (
        omega (arith, g1.0),
        λ u p lt.
            store_elsewhere t u h.next p (m h1).0 (m h1).1 (λ e. omega (arith, e))
            ∙ g1.1 u p (omega arith),
      );
  reads = λ h g k added given.
      let h1 : Heap = record h { next = suc h.next } in
      let g1 = c.grows h1 (grown h g) in
      ap (λ x. some (view k x))
        (added t h.next (omega arith) (omega (arith, g1.0)) ∙ store_here t h.next (m h1).0 (m h1).1)
      ∙ ap some (
          c.reads h1 (grown h g) k
            (λ u p lo hi.
              added u p (omega arith) hi
              ∙ store_elsewhere t u h.next p (m h1).0 (m h1).1 (λ e. omega (arith, e)))
            given);
}
  where
    grown : (h : Heap) → Grown h0 h → Grown h0 (record h { next = suc h.next })
    grown h g = (omega (arith, g.0), g.1)

-- Where `W` holds, what `into` makes of a value shows what the value shows, which is settled by the
-- cells that are there.
pub record Deep {A V : Type 0} (W : Heap → A → Type 0) (view : Heap → A → V) (into : A → S A)
    : Type 1 where
  pub copies :
      {E : Heap → Type 0} {h0 : Heap} (x : A) → W h0 x → Makes h0 E view (view h0 x) (into x)
  pub settles : (h k : Heap) (x : A) → W h x → Same h k → view k x ≡ view h x

-- The copy and the original show the same, and neither is changed by writing to the other's cells:
-- `k` has the cells from before the call, `l` the ones that the call has added.
pub separate :
    {A V : Type 0} {W : Heap → A → Type 0} {view : Heap → A → V} {into : A → S A}
    → Deep W view into
    → (x : A) (h k l : Heap) → W h x
    → Same h k
    → Added h (into x h).1 l
    → (view (into x h).1 (into x h).0 ≡ view h x)
      × (view (into x h).1 x ≡ view h x)
      × (view k x ≡ view h x)
      × (view l (into x h).0 ≡ view h x)
separate {into = into} d x h k l w same added =
    let c = d.copies {E = λ k. Unit {0}} x w in
    let g : Grown h h = (omega arith, λ t p lt. refl) in
    (
      c.reads h g (into x h).1 (λ t p lo hi. refl) tt,
      d.settles h (into x h).1 x w (c.grows h g).1,
      d.settles h k x w same,
      c.reads h g l added tt,
    )

-- A type whose values hold no addresses.
abbrev pub Flat : {A : Type 0} → Heap → A → Type 0
Flat h x = Unit {0}

abbrev pub shown : {A : Type 0} → Heap → A → A
shown h x = x

pub pure-Deep : {A : Type 0} {f : A → A} → ((x : A) → f x ≡ x) → Deep Flat shown (λ x. pure (f x))
pure-Deep same = record {
  copies = λ x w. pure-Makes (λ k e. same x);
  settles = λ h k x w agree. refl;
}

-- A pointer that dangles nowhere.
abbrev pub Points : (t : Tag) → (Heap → El t → Type 0) → Heap → Option ℕ → Type 0
Points t W h none = Unit
Points t W h (some p) = (p < h.next) × W h (h.cells t p)

-- `if in != nil { out = new(T); in.DeepCopyInto(out) }`
unfoldable pub copy_pointer : (t : Tag) → (El t → S (El t)) → Option ℕ → S (Option ℕ)
copy_pointer t into none = pure none
copy_pointer t into (some p) = do q ← reserve; x ← load t p >>= into; _ ← store t q x; pure (some q)

pub pointer-Deep :
    (t : Tag) {V : Type 0} {W : Heap → El t → Type 0} {view : Heap → El t → V}
    {into : El t → S (El t)}
    → Deep W view into
    → Deep (Points t W) (pointed t view) (copy_pointer t into)
unfolding copy_pointer
pointer-Deep t {W = W} {view = view} {into = into} d = record { copies = copies; settles = settles }
  where
    copies :
        {E : Heap → Type 0} {h0 : Heap} (x : Option ℕ)
        → Points t W h0 x
        → Makes h0 E (pointed t view) (pointed t view h0 x) (copy_pointer t into x)
    copies none w = pure-Makes (λ k e. refl)
    copies (some p) w = cell-Makes (load-Makes t into w.0 (d.copies _ w.1))

    settles :
        (h k : Heap) (x : Option ℕ)
        → Points t W h x
        → Same h k
        → pointed t view k x ≡ pointed t view h x
    settles h k none w agree = refl
    settles h k (some p) w agree =
        ap (λ y. some (view k y)) (agree t p w.0) ∙ ap some (d.settles h k _ w.1 agree)
