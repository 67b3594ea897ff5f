-- ===== src/Secret/Fresh.antt =====
-- Which call of rand.Read each generated value comes from.
use site_operator.Common.{
  ℕ, suc, ◌<◌, String, Bool, true, false, Option, none, some, List, [], ◌∷◌, ◌≡◌, ◌≢◌, ◌⊎◌, inl,
  inr, refl, sym, ap, ◌∙◌, subst, arith, ◌==◌, eq_iff, Bool-cases, if◌then◌else◌, some-injective,
  Dict,
}
use site_operator.Common.{lookup, insert, lookup-insert}
use site_operator.Api.Site.{Site}
use site_operator.Kube.Objects.{Bytes}
use site_operator.Secret.Base64.{encode}
use site_operator.Secret.{
  Entropy, Filling, fill_key, fill_keys, fill_key_if, populate, random_key, random_short_key, salts,
  encode_or,
}

-- A value that is the bytes of a call, 64 or 24, in base64.
abbrev pub MadeOf : Bytes → (ℕ → Option Bytes) → Type 0
MadeOf v read = (b : Bytes) × ((read 64 ≡ some b) ⊎ (read 24 ≡ some b)) × (v ≡ encode b)

-- `rand.Read` never fails.
abbrev pub Answers : Entropy → Type 0
Answers e = (i n : ℕ) → (b : Bytes) × (e i n ≡ some b)

random_key-MadeOf : (e : Entropy) → Answers e → (i : ℕ) → MadeOf (random_key (e i)) (e i)
unfolding random_key encode_or
random_key-MadeOf e answers i = let (b, h) = answers i 64 in (b, inl h, rw h refl)

random_short_key-MadeOf :
    (e : Entropy) → Answers e → (i : ℕ) → MadeOf (random_short_key (e i)) (e i)
unfolding random_short_key encode_or
random_short_key-MadeOf e answers i = let (b, h) = answers i 24 in (b, inr h, rw h refl)

module _ (e : Entropy) (answers : Answers e) (before : Dict Bytes) where
  -- Where the values of a filling come from: those that were not there before come from calls made,
  -- and no two from the same.
  record Sourced (f : Filling) : Type 0 where
    source : String → Option ℕ
    sourced :
        (k : String) (i : ℕ)
        → source k ≡ some i
        → (i < f.calls) × ((v : Bytes) × (lookup k f.contents ≡ some v) × MadeOf v (e i))
    apart : (j k : String) (i : ℕ) → source j ≡ some i → source k ≡ some i → j ≡ k
    known :
        (k : String) (v : Bytes)
        → lookup k f.contents ≡ some v
        → (lookup k before ≡ some v) ⊎ ((i : ℕ) × (source k ≡ some i))

  drawn-Sourced :
      (generate : (ℕ → Option Bytes) → Bytes) (k : String) (f : Filling)
      → ((i : ℕ) → MadeOf (generate (e i)) (e i))
      → Sourced f
      → Sourced
          (record { contents = insert k (generate (e f.calls)) f.contents; calls = suc f.calls })
  drawn-Sourced generate k f made s = record {
    source = from;
    sourced = λ j i h. elim (Bool-cases (k == j)) [
      | inl same ↦
          subst
            (λ n.
              (n < suc f.calls)
              × ((v : Bytes) × (lookup j (insert k (generate (e f.calls)) f.contents) ≡ some v)
                  × MadeOf v (e n)))
            (new j i same h)
            (
              omega arith,
              (
                generate (e f.calls),
                lookup-insert k j (generate (e f.calls)) f.contents ∙ rw same refl,
                made f.calls,
              ),
            )
      | inr other ↦
          let (lt, (v, there, m)) = s.sourced j i (old j i other h) in
          (
            omega (arith, lt),
            (v, lookup-insert k j (generate (e f.calls)) f.contents ∙ rw other there, m),
          )
    ];
    apart = apart;
    known = λ j v h. elim (Bool-cases (k == j)) [
      | inl same ↦ inr (f.calls, rw same refl)
      | inr other ↦
          let there : lookup j f.contents ≡ some v =
            sym (lookup-insert k j (generate (e f.calls)) f.contents ∙ rw other refl) ∙ h in
          elim (s.known j v there) [ inl was ↦ inl was | inr (i, q) ↦ inr (i, rw other q) ]
    ];
  }
    where
      from : String → Option ℕ
      from j = if k == j then some f.calls else s.source j

      new : (j : String) (i : ℕ) → (k == j) ≡ true → from j ≡ some i → f.calls ≡ i
      new j i same h =
          some-injective (ap (λ b. if b then some f.calls else s.source j) (sym same) ∙ h)

      old : (j : String) (i : ℕ) → (k == j) ≡ false → from j ≡ some i → s.source j ≡ some i
      old j i other h = ap (λ b. if b then some f.calls else s.source j) (sym other) ∙ h

      -- A call made before is not the one made now.
      clash : (j : String) (i : ℕ) → s.source j ≡ some i → f.calls ≡ i → ⊥
      clash j i h now = omega (arith, (s.sourced j i h).0, now)

      apart : (j l : String) (i : ℕ) → from j ≡ some i → from l ≡ some i → j ≡ l
      apart j l i hj hl = elim (Bool-cases (k == j)) [
        | inl sj ↦ elim (Bool-cases (k == l)) [
          | inl sl ↦ sym ((eq_iff k j).0 sj) ∙ (eq_iff k l).0 sl
          | inr ol ↦ absurd (clash l i (old l i ol hl) (new j i sj hj))
        ]
        | inr oj ↦ elim (Bool-cases (k == l)) [
          | inl sl ↦ absurd (clash j i (old j i oj hj) (new l i sl hl))
          | inr ol ↦ s.apart j l i (old j i oj hj) (old l i ol hl)
        ]
      ]

  fill_key-Sourced :
      (generate : (ℕ → Option Bytes) → Bytes) (k : String) (f : Filling)
      → ((i : ℕ) → MadeOf (generate (e i)) (e i))
      → Sourced f
      → Sourced (fill_key e generate k f)
  unfolding fill_key
  fill_key-Sourced generate k f made s = go (lookup k f.contents) refl
    where
      go : (o : Option Bytes) → lookup k f.contents ≡ o → Sourced (fill_key e generate k f)
      go (some v) h = rw (h, fill_key) s
      go none h = rw (h, fill_key) (drawn-Sourced generate k f made s)

  fill_keys-Sourced : (ks : List String) (f : Filling) → Sourced f → Sourced (fill_keys e ks f)
  unfolding fill_keys
  fill_keys-Sourced [] f s = s
  fill_keys-Sourced (k ∷ ks) f s =
      fill_keys-Sourced ks (fill_key e random_key k f)
        (fill_key-Sourced random_key k f (random_key-MadeOf e answers) s)

  fill_key_if-Sourced :
      (b : Bool) (generate : (ℕ → Option Bytes) → Bytes) (k : String) (f : Filling)
      → ((i : ℕ) → MadeOf (generate (e i)) (e i))
      → Sourced f
      → Sourced (fill_key_if b e generate k f)
  unfolding fill_key_if
  fill_key_if-Sourced true generate k f made s = fill_key-Sourced generate k f made s
  fill_key_if-Sourced false generate k f made s = s

  populate-Sourced : (site : Site) (f : Filling) → Sourced f → Sourced (populate e site f)
  unfolding populate
  populate-Sourced site f s =
      fill_key_if-Sourced _ random_short_key _ _ (random_short_key-MadeOf e answers) (
        fill_key_if-Sourced _ random_key _ _ (random_key-MadeOf e answers) (
          fill_key_if-Sourced _ random_key _ _ (random_key-MadeOf e answers)
            (fill_keys-Sourced salts f s)))

-- If rand.Read never fails: the values of two keys that the Secret lacked and that it has after the
-- callback of reconcileSecret are the bytes of two different calls of rand.Read in base64.
pub populate-apart :
    (e : Entropy)
    → Answers e
    → (site : Site) (f : Filling) (j k : String) (v v' : Bytes) → j ≢ k
    → lookup j f.contents ≡ none
    → lookup k f.contents ≡ none
    → lookup j (populate e site f).contents ≡ some v
    → lookup k (populate e site f).contents ≡ some v'
    → (i i' : ℕ) × (i ≢ i') × MadeOf v (e i) × MadeOf v' (e i')
populate-apart e answers site f j k v v' differ no_j no_k has_j has_k = pair (
    populate-Sourced e answers f.contents site f (record {
      source = λ l. none;
      sourced = λ l i h. cc;
      apart = λ l m i h h'. cc;
      known = λ l x h. inl h;
    }))
  where
    drawn :
        (s : Sourced e answers f.contents (populate e site f)) (l : String) (x : Bytes)
        → lookup l f.contents ≡ none
        → lookup l (populate e site f).contents ≡ some x
        → (i : ℕ) × (s.source l ≡ some i) × MadeOf x (e i)
    drawn s l x absent there = elim (s.known l x there) [
      | inl was ↦ cc
      | inr (i, from_i) ↦
          let (lt, (y, at, made)) = s.sourced l i from_i in
          (i, from_i, subst (λ z. MadeOf z (e i)) (some-injective (sym at ∙ there)) made)
    ]

    pair :
        Sourced e answers f.contents (populate e site f)
        → (i i' : ℕ) × (i ≢ i') × MadeOf v (e i) × MadeOf v' (e i')
    pair s =
        let (i, from_i, made) = drawn s j v no_j has_j in
        let (i', from_i', made') = drawn s k v' no_k has_k in
        (i, i', λ same. differ (s.apart j k i from_i (from_i' ∙ ap some (sym same))), made, made')
