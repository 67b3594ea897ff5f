-- ===== src/Controller/Spares/Withstands.antt =====
-- What belongs to others withstands each call that the work on a Site makes.
use site_operator.Common.{
  some-injective, true, false, Option, none, some, ◌≡◌, ◌≢◌, ◌⊎◌, inl, inr, refl, sym, ap, ◌∙◌,
  subst,
}
use site_operator.Common.Outcome.{Outcome, ok, err, panic, err-not-ok, same_read}
use site_operator.Api.Site.{Site, SiteStatus}
use site_operator.Kube.Meta.{Key, ObjectMeta, object_key}
use site_operator.Kube.Objects.{Kind, Obj, meta_of, key_of}
use site_operator.Kube.Equality.{Kind-discrete, Key-discrete}
use site_operator.Kube.Library.{Library}
use site_operator.Kube.Client.{Client}
use site_operator.Kube.Keeps.{Keeps, Claims, Permits}
use site_operator.Kube.Server.{Server, ServerLaws, current}
use site_operator.Helpers.Own.{IsOwnName}

-- The name is none of the Site's, or the object is there and another owner controls it.
abbrev pub IsGuarded : Library → Site → (k : Kind) → Key → Option (Obj k) → Type 0
IsGuarded lib site k n v =
    IsOwnName site k n
    → (o : Obj k) × (other : ObjectMeta) × (v ≡ some o)
      × (lib.is_controlled_by (meta_of k o) other ≡ true)
      × (lib.is_controlled_by (meta_of k o) site.meta ≡ false)

-- The object is not the Site itself.
abbrev pub IsApart : Site → Kind → Key → Type 0
IsApart site k n = (k ≢ Kind.site) ⊎ (n ≢ object_key site.meta)

module _ (lib : Library) (site : Site) {c : Client} (s : Server c) (sl : ServerLaws s) (k : Kind)
    (n : Key) (v : Option (Obj k)) (apart : IsApart site k n)
    (guarded : IsGuarded lib site k n v) where
  abbrev Spared : c.World → Type 0
  Spared w = s.Serves w × (s.stored k n w ≡ v)

  get-Spared : (j : Kind) (m : Key) → Keeps Spared (c.get j m)
  get-Spared j m w p = go (s.stored j m w) refl
    where
      go : (x : Option (Obj j)) → s.stored j m w ≡ x → Spared (c.get j m w).1
      go none e = let (t, got) = sl.get_missing j m w p.0 e in rw got p
      go (some x) e = let got = sl.get_found j m w x p.0 e in rw got p

  current-key : (j : Kind) (x : Obj j) (w : c.World) → key_of j (current s j x w) ≡ key_of j x
  current-key j x w = go (s.stored j (key_of j x) w) refl
    where
      go :
          (v : Option (Obj j))
          → s.stored j (key_of j x) w ≡ v
          → key_of j (elim v [ none ↦ x | some z ↦ z ]) ≡ key_of j x
      go none e = refl
      go (some z) e = sl.stored_key j (key_of j x) w z e

  -- The Site claims no object under the name of the other's.
  clash :
      (j : Kind)
      → k ≡ j
      → (x y : Obj j) (w : c.World) → s.stored k n w ≡ v
      → n ≡ key_of j x
      → IsOwnName site j (key_of j x)
      → Claims lib site.meta (meta_of j (current s j x w)) (meta_of j y)
      → ⊥
  clash j same =
      subst
        (λ (i : Kind).
          (x y : Obj i) (w : c.World)
          → s.stored k n w ≡ v
          → n ≡ key_of i x
          → IsOwnName site i (key_of i x)
          → Claims lib site.meta (meta_of i (current s i x w)) (meta_of i y)
          → ⊥)
        same
        λ x y w there named own_name claims.
          let (o, other, here, held, free) =
            guarded (subst (λ m. IsOwnName site k m) (sym named) own_name) in
          let now : current s k x w ≡ o =
            ap (λ (q : Option (Obj k)). elim q [ none ↦ x | some z ↦ z ])
              (subst (λ m. s.stored k m w ≡ some o) named (there ∙ here)) in
          let own : lib.is_controlled_by (meta_of k o) site.meta ≡ true =
            subst (λ z. lib.is_controlled_by (meta_of k z) site.meta ≡ true) now
              (claims.1 other
                (subst (λ z. lib.is_controlled_by (meta_of k z) other ≡ true) (sym now) held)) in
          cc

  write-Spared :
      (j : Kind) (x : Obj j) (f : Obj j → Outcome (Obj j))
      → IsOwnName site j (key_of j x)
      → ((z y : Obj j) → f z ≡ ok y → Claims lib site.meta (meta_of j z) (meta_of j y))
      → Keeps Spared (c.create_or_update j x f)
  write-Spared j x f own claims w p = go (f (current s j x w)) refl
    where
      go : (r : Outcome (Obj j)) → f (current s j x w) ≡ r → Spared (c.create_or_update j x f w).1
      go (ok y) e =
          let claimed = claims (current s j x w) y e in
          let named : key_of j y ≡ key_of j x = claimed.2 ∙ current-key j x w in
          let st = sl.writes j x y f w p.0 e named in
          rw (st.succeeds) (
            st.serves,
            elim (Kind-discrete k j) [
              | no differ ↦ st.frame k n (inl (λ q. differ (sym q))) ∙ p.1
              | yes same ↦ elim (Key-discrete n (key_of j y)) [
                | no differ ↦ st.frame k n (inr (λ q. differ (sym q))) ∙ p.1
                | yes same_key ↦ absurd (clash j same x y w p.1 (same_key ∙ named) own claimed)
              ]
            ],
          )
      go (err t) e = rw (sl.fails j x f w t p.0 e) p
      go (panic t) e = rw (sl.panics j x f w t p.0 e) p

  -- The Site that is read bears the name that was asked for.
  current_name :
      (old : Site) (w w' : c.World)
      → s.Serves w
      → c.get Kind.site (object_key site.meta) w ≡ (ok old, w')
      → object_key old.meta ≡ object_key site.meta
  current_name old w w' up got = find (s.stored Kind.site (object_key site.meta) w) refl
    where
      find :
          (x : Option Site)
          → s.stored Kind.site (object_key site.meta) w ≡ x
          → object_key old.meta ≡ object_key site.meta
      find none e =
          let (t, failed) = sl.get_missing Kind.site (object_key site.meta) w up e in
          absurd (err-not-ok (sym failed ∙ got))
      find (some x) e =
          let found = sl.get_found Kind.site (object_key site.meta) w x up e in
          let (same, stay) = same_read (sym found ∙ got) in
          sl.stored_key Kind.site (object_key site.meta) w old (e ∙ ap some same)

  status-Spared :
      (old : Site) (status : SiteStatus) (w w' w'' : c.World)
      → c.get Kind.site (object_key site.meta) w ≡ (ok old, w')
      → Spared w
      → Spared w''
      → Spared (c.update_status (record old { status = status }) w'').1
  status-Spared old status w w' w'' got p p'' =
      go (s.stored Kind.site (object_key old.meta) w'') refl
    where
      elsewhere : (Kind.site ≢ k) ⊎ (object_key old.meta ≢ n)
      elsewhere = elim apart [
        | inl differ ↦ inl (λ q. differ (sym q))
        | inr differ ↦ inr (λ q. differ (sym q ∙ current_name old w w' p.0 got))
      ]

      go :
          (x : Option Site)
          → s.stored Kind.site (object_key old.meta) w'' ≡ x
          → Spared (c.update_status (record old { status = status }) w'').1
      go none e =
          let (t, failed) = sl.update_missing (record old { status = status }) w'' p''.0 e in
          rw failed p''
      go (some x) e =
          let (u, done, up, stored, frame) =
            sl.updates_status (record old { status = status }) x w'' p''.0 e in
          rw done (up, frame k n elsewhere ∙ p''.1)

  -- Only what the Site controls is deleted.
  delete_stored-Spared :
      (j : Kind) (m : Key) (x : Obj j) (w : c.World)
      → IsOwnName site j m
      → lib.is_controlled_by (meta_of j x) site.meta ≡ true
      → s.stored j m w ≡ some x
      → Spared w
      → Spared (c.delete j x w).1
  delete_stored-Spared j m x w own_name own there p =
      let (w', done, up, gone, frame) = sl.deletes j m x w p.0 there in
      rw done (
        up,
        elim (Kind-discrete k j) [
          | no differ ↦ frame k n (inl (λ q. differ (sym q))) ∙ p.1
          | yes same ↦ elim (Key-discrete n m) [
            | no differ ↦ frame k n (inr (λ q. differ (sym q))) ∙ p.1
            | yes same_key ↦ absurd (mine j same x m own_name own same_key there p.1)
          ]
        ],
      )
    where
      mine :
          (i : Kind)
          → k ≡ i
          → (z : Obj i) (l : Key) → IsOwnName site i l
          → lib.is_controlled_by (meta_of i z) site.meta ≡ true
          → n ≡ l
          → s.stored i l w ≡ some z
          → s.stored k n w ≡ v
          → ⊥
      mine i same =
          subst
            (λ (h : Kind).
              (z : Obj h) (l : Key)
              → IsOwnName site h l
              → lib.is_controlled_by (meta_of h z) site.meta ≡ true
              → n ≡ l
              → s.stored h l w ≡ some z
              → s.stored k n w ≡ v
              → ⊥)
            same
            λ z l own_name' own' named at there'.
              let (o, other, here, held, free) =
                guarded (subst (λ q. IsOwnName site k q) (sym named) own_name') in
              let both : some z ≡ some o =
                sym (subst (λ q. s.stored k q w ≡ some z) (sym named) at) ∙ there' ∙ here in
              let own_o : lib.is_controlled_by (meta_of k o) site.meta ≡ true =
                subst (λ q. lib.is_controlled_by (meta_of k q) site.meta ≡ true)
                  (some-injective both) own' in
              cc

  delete-Spared :
      (j : Kind) (m : Key) (x : Obj j) (w w' : c.World)
      → c.get j m w ≡ (ok x, w')
      → IsOwnName site j m
      → lib.is_controlled_by (meta_of j x) site.meta ≡ true
      → Spared w
      → Spared (c.delete j x w').1
  delete-Spared j m x w w' got own_name own p = go (s.stored j m w) refl
    where
      go : (q : Option (Obj j)) → s.stored j m w ≡ q → Spared (c.delete j x w').1
      go none e =
          let (t, failed) = sl.get_missing j m w p.0 e in absurd (err-not-ok (sym failed ∙ got))
      go (some z) e =
          let (same, stay) = same_read (sym (sl.get_found j m w z p.0 e) ∙ got) in
          subst (λ u. Spared (c.delete j x u).1) stay
            (delete_stored-Spared j m x w own_name own (e ∙ ap some same) p)

  pub Spared-Permits : Permits lib c site Spared
  Spared-Permits = record {
    get_keeps = get-Spared;
    write_keeps = λ j x f own claims. write-Spared j x f own claims;
    delete_keeps = λ j m x w w' got named own p p'. delete-Spared j m x w w' got named own p;
    status_keeps = status-Spared;
    retry_keeps = λ m h w p. sl.retries_keep m k n v (λ u up e. h u (up, e)) w p.0 p.1;
  }
