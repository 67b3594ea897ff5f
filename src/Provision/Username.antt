-- ===== src/Provision/Username.antt =====
-- The database user that a Site's name gives.
use Prim.Native.Nat.{ℕ, ◌+◌, ◌-◌, ◌≤◌, zero-le, compare, Ordering}
use Prim.Native.Char.{Char, len_utf8}
use Prim.Native.String.{String, [], ◌∷◌, ◌++◌, len, slice, fits}
use Prim.Native.String.slice
use Prim.Native.String.len
use text.Mathlib.TextPositions.{len-append}
use text.Mathlib.TextLemmas.{append_cancel_left}
use site_operator.Common.{◌≡◌, ◌↔◌, refl, sym, ap, ◌∙◌, ltb, Bool-cases, inl, inr, arith}
use site_operator.Api.Site.{Site}
use site_operator.Helpers.{provisioned_username}

len-fits :
    (c : Char) (s : String) (n : ℕ)
    → len s ≤ n - len_utf8 c
    → len (fits (compare (len_utf8 c) n) c s) ≤ n
len-fits c s n h = go (compare (len_utf8 c) n) refl
  where
    longer : len (c ∷ s) ≡ len_utf8 c + len s
    longer = λ i. len.cons c s i

    go : (o : Ordering) → compare (len_utf8 c) n ≡ o → len (fits o c s) ≤ n
    go Ordering.lt e = rw longer (grind arith)
    go Ordering.eq e = rw longer (grind arith)
    go Ordering.gt e = zero-le

slice-nil : (n : ℕ) → slice [] 0 n ≡ []
slice-nil n = λ j. slice.nil 0 n j

slice-cons :
    (c : Char) (s : String) (n : ℕ)
    → slice (c ∷ s) 0 n ≡ fits (compare (len_utf8 c) n) c (slice s 0 (n - len_utf8 c))
slice-cons c s n = λ j. slice.cons-zero c s n j

-- A slice from the start is no longer than its end.
len-slice-le : (s : String) (n : ℕ) → len (slice s 0 n) ≤ n
len-slice-le [] n = rw (slice-nil n) (zero-le)
len-slice-le (c ∷ s) n =
    rw (slice-cons c s n)
      (len-fits c (slice s 0 (n - len_utf8 c)) n (len-slice-le s (n - len_utf8 c)))

-- The name of the database user never exceeds the 32 bytes that MariaDB allows.
pub len-provisioned_username-le : (site : Site) → len (provisioned_username site) ≤ 32
unfolding provisioned_username
len-provisioned_username-le site = elim (Bool-cases (ltb 27 (len site.meta.name))) [
  | inl long ↦ rw (long, len-append) (omega (arith, len-slice-le site.meta.name 27))
  | inr short ↦ rw (short, len-append) (ground arith)
]

fits-short :
    (c : Char) (s : String) (n : ℕ) → len_utf8 c ≤ n → fits (compare (len_utf8 c) n) c s ≡ c ∷ s
fits-short c s n h = go (compare (len_utf8 c) n) refl
  where
    go : (o : Ordering) → compare (len_utf8 c) n ≡ o → fits o c s ≡ c ∷ s
    go Ordering.lt e = refl
    go Ordering.eq e = refl
    go Ordering.gt e = absurd (grind arith)

-- A text that is not longer than a slice's end is the slice.
slice-short : (s : String) (n : ℕ) → len s ≤ n → slice s 0 n ≡ s
slice-short [] n h = slice-nil n
slice-short (c ∷ s) n h =
    slice-cons c s n
    ∙ fits-short c (slice s 0 (n - len_utf8 c)) n (omega (arith, h, longer))
    ∙ ap (λ t. c ∷ t) (slice-short s (n - len_utf8 c) (omega (arith, h, longer)))
  where
    longer : len (c ∷ s) ≡ len_utf8 c + len s
    longer = λ i. len.cons c s i

provisioned_username_lem :
    (site : Site) → provisioned_username site ≡ "site_" ++ slice site.meta.name 0 27
unfolding provisioned_username
provisioned_username_lem site = elim (Bool-cases (ltb 27 (len site.meta.name))) [
  | inl long ↦ rw long refl
  | inr short ↦ rw (short, slice-short site.meta.name 27 (ground arith)) refl
]

-- Two Sites have the same database user exactly if the first 27 bytes of their names agree, or the
-- names where they have fewer.
pub provisioned_username_iff :
    (s t : Site)
    → (provisioned_username s ≡ provisioned_username t)
      ↔ (slice s.meta.name 0 27 ≡ slice t.meta.name 0 27)
provisioned_username_iff s t = (
  λ e.
      append_cancel_left "site_" (slice s.meta.name 0 27) (slice t.meta.name 0 27)
        (sym (provisioned_username_lem s) ∙ e ∙ provisioned_username_lem t),
  λ e. provisioned_username_lem s ∙ ap (λ x. "site_" ++ x) e ∙ sym (provisioned_username_lem t),
)
