-- ===== src/Api/DeepCopy/Separate.antt =====
-- That a copy of a Site, or of a list of them, shares nothing with what it was made from.
use site_operator.Common.{ℕ, ◌<◌, Option, List, [], ◌∷◌, map, ◌≡◌, refl}
use site_operator.Kube.Meta.{Condition}
use site_operator.Api.Site.{Site}
use site_operator.Api.DeepCopy.Heap.{
  Heap, TypeMeta, ListMeta, object_meta_cell, list_meta_cell, conditions_cell, site_cell,
  sites_cell, site_list_cell,
}
use site_operator.Api.DeepCopy.Copies.{
  Deep, Same, Added, Points, pointed, pure-Deep, pointer-Deep, bind-Makes, pure-Makes, separate,
}
use site_operator.Api.DeepCopy.Slices.{elements-Deep}
use site_operator.Api.DeepCopy.Into
use site_operator.Api.DeepCopy.Into.{Machinery}
use site_operator.Api.DeepCopy.New
use site_operator.Api.DeepCopy.Shows
use site_operator.Api.DeepCopy.Sound.{SiteIsSound, SiteListIsSound, SiteStatusIsSound}
use site_operator.Api.DeepCopy.Deep.{site_spec-Deep}

-- What the machinery's methods promise: copies that share nothing with what they were made from.
pub record Documented (m : Machinery) : Type 1 where
  pub object_meta : Deep (λ h p. p < h.next) (λ h p. h.cells object_meta_cell p) m.copy_object_meta
  pub list_meta : Deep (λ h p. p < h.next) (λ h p. h.cells list_meta_cell p) m.copy_list_meta
  pub condition : (c : Condition) → m.copy_condition c ≡ c

-- What a pointer to a Site, or to a list of them, shows.
abbrev seen_site : Heap → Option ℕ → Option (TypeMeta × Site)
seen_site = pointed site_cell Shows.site

abbrev pub seen_list : Heap → Option ℕ → Option (TypeMeta × ListMeta × List (TypeMeta × Site))
seen_list = pointed site_list_cell Shows.site_list

module _ (m : Machinery) (doc : Documented m) where
  conditions_same : (cs : List Condition) → map m.copy_condition cs ≡ cs
  conditions_same [] = refl
  conditions_same (c ∷ cs) = λ i. doc.condition c i ∷ conditions_same cs i

  site_status-Deep : Deep SiteStatusIsSound Shows.site_status (Into.site_status m)
  unfolding Into.site_status
  site_status-Deep =
      let d = pointer-Deep conditions_cell (pure-Deep conditions_same) in
      record {
        copies = λ x w.
            bind-Makes (d.copies x.conditions w)
              λ cs. pure-Makes (λ k e i. record { conditions = Shows.entries (e.1 i) });
        settles = λ h k x w same i. record {
          conditions = Shows.entries (d.settles h k x.conditions w same i);
        };
      }

  site-Deep : Deep SiteIsSound Shows.site (Into.site m)
  unfolding Into.site
  site-Deep = record {
    copies = λ x w. bind-Makes (doc.object_meta.copies x.meta w.0) λ meta.
        bind-Makes (site_spec-Deep.copies x.spec w.1) λ spec.
          bind-Makes (site_status-Deep.copies x.status w.2) λ status.
            pure-Makes
              (λ k e i. (x.type_meta, record { meta = e.0.0.1 i; spec = e.0.1 i; status = e.1 i }));
    settles = λ h k x w same i. (
      x.type_meta,
      record {
        meta = doc.object_meta.settles h k x.meta w.0 same i;
        spec = site_spec-Deep.settles h k x.spec w.1 same i;
        status = site_status-Deep.settles h k x.status w.2 same i;
      },
    );
  }

  site_list-Deep : Deep SiteListIsSound Shows.site_list (Into.site_list m)
  unfolding Into.site_list
  site_list-Deep =
      let d = pointer-Deep sites_cell (elements-Deep site-Deep) in
      record {
        copies = λ x w. bind-Makes (doc.list_meta.copies x.meta w.0) λ meta.
            bind-Makes (d.copies x.items w.1)
              λ items. pure-Makes (λ k e i. (x.type_meta, e.0.1 i, Shows.entries (e.1 i)));
        settles = λ h k x w same i. (
          x.type_meta,
          doc.list_meta.settles h k x.meta w.0 same i,
          Shows.entries (d.settles h k x.items w.1 same i),
        );
      }

  -- If the machinery's methods copy as documented and no address is dangling, a deep copy of a Site
  -- shows what the Site showed, the Site still shows it, and neither shows anything else when the
  -- other's cells are written.
  site-Separate :
      (p : Option ℕ) (h k l : Heap)
      → Points site_cell SiteIsSound h p
      → Same h k
      → Added h (New.site m p h).1 l
      → (seen_site (New.site m p h).1 (New.site m p h).0 ≡ seen_site h p)
        × (seen_site (New.site m p h).1 p ≡ seen_site h p)
        × (seen_site k p ≡ seen_site h p)
        × (seen_site l (New.site m p h).0 ≡ seen_site h p)
  unfolding New.site
  site-Separate = separate (pointer-Deep site_cell site-Deep)

  -- If the machinery's methods copy as documented and no address is dangling, a deep copy of a list
  -- of Sites shows what the list showed, the list still shows it, and neither shows anything else
  -- when the other's cells are written.
  pub site_list-Separate :
      (p : Option ℕ) (h k l : Heap)
      → Points site_list_cell SiteListIsSound h p
      → Same h k
      → Added h (New.site_list m p h).1 l
      → (seen_list (New.site_list m p h).1 (New.site_list m p h).0 ≡ seen_list h p)
        × (seen_list (New.site_list m p h).1 p ≡ seen_list h p)
        × (seen_list k p ≡ seen_list h p)
        × (seen_list l (New.site_list m p h).0 ≡ seen_list h p)
  unfolding New.site_list
  site_list-Separate = separate (pointer-Deep site_list_cell site_list-Deep)
