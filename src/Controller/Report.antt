-- ===== src/Controller/Report.antt =====
-- What the status of a Site says after Reconcile.
use site_operator.Common.{String, Option, none, some, List, ◌≡◌, refl, sym, ap, ◌∙◌, subst}
use site_operator.Common.Outcome.{Outcome, ok, err, panic, Error, api, not_found}
use site_operator.Api.Site.{Site}
use site_operator.Kube.Meta.{Key, Condition, object_key}
use site_operator.Kube.Objects.{Kind, Deployment}
use site_operator.Kube.Library.{Library, ConditionLaws}
use site_operator.Kube.Client.{Client, M}
use site_operator.Kube.Server.{Server, ServerLaws, Frame, is_conflict}
use site_operator.Secret.{Entropy}
use site_operator.Deployment.{zero_deployment}
use site_operator.Status.{set_site_conditions}
use site_operator.Status.Verdict.{Verdict, verdict, Shows, set_site_conditions-Shows}
use site_operator.Controller.{
  SiteReconciler, reconcile_objects, reconcile, reconcile_found, deferring_status, error_of,
  after_deferred, update_site_status, try_status, with_current, with_deployment, write_status,
}

-- The verdict on the Deployment that is there, or on a missing one.
abbrev pub verdict_on : Option Deployment → Option Error → Verdict
verdict_on none x = verdict zero_deployment (some (api not_found "")) x
verdict_on (some d) x = verdict d none x

verdict-missing :
    (t : String) (x : Option Error)
    → verdict zero_deployment (some (api not_found t)) x ≡ verdict_on none x
verdict-missing t none = refl
verdict-missing t (some y) = refl

abbrev with_conditions : Site → List Condition → Site
with_conditions site cs = record site { status = record { conditions = cs } }

module _ {c : Client} (s : Server c) where
  -- The status was written, and says what the verdict says; nothing else has changed.
  pub record Reports (site : Site) (w : c.World) (x : Option Error) (w' : c.World) : Type 0 where
    pub conditions : List Condition
    pub stored_site :
        s.stored Kind.site (object_key site.meta) w'
        ≡ some (record site { status = record { conditions = conditions } })
    pub shows :
        Shows
          (verdict_on (s.stored Kind.deployment (object_key site.meta) w) x)
          site.meta.generation
          conditions
    pub serves : s.Serves w'
    pub frame : Frame s Kind.site (object_key site.meta) w w'

module _ (lib : Library) (laws : ConditionLaws lib) {c : Client} (s : Server c) (sl : ServerLaws s)
    (site : Site) (x : Option Error) (w : c.World) (up : s.Serves w)
    (there : s.stored Kind.site (object_key site.meta) w ≡ some site) where
  write-Reports :
      (d : Deployment) (missing : Option Error)
      → Shows
          (verdict_on (s.stored Kind.deployment (object_key site.meta) w) x)
          site.meta.generation
          (set_site_conditions lib
            (c.now w)
            site.status.conditions
            site.meta.generation
            d
            missing
            x)
      → (w' : c.World) × (write_status lib c site d missing x w ≡ (ok tt, w'))
        × Reports s site w x w'
  unfolding write_status
  write-Reports d missing shows =
      let cs =
        set_site_conditions lib (c.now w) site.status.conditions site.meta.generation d missing x in
      let (w', written, up', stored, frame) =
        sl.updates_status (with_conditions site cs) site w up there in
      (
        w',
        written,
        record {
          conditions = cs;
          stored_site = stored;
          shows = shows;
          serves = up';
          frame = frame;
        },
      )

  says :
      (o : Option Deployment)
      → s.stored Kind.deployment (object_key site.meta) w ≡ o
      → (d : Deployment) (missing : Option Error) → verdict d missing x ≡ verdict_on o x
      → Shows
          (verdict_on (s.stored Kind.deployment (object_key site.meta) w) x)
          site.meta.generation
          (set_site_conditions lib
            (c.now w)
            site.status.conditions
            site.meta.generation
            d
            missing
            x)
  says o e d missing same =
      let cs =
        set_site_conditions lib (c.now w) site.status.conditions site.meta.generation d missing x in
      subst (λ v. Shows v site.meta.generation cs)
        (same ∙ ap (λ (q : Option Deployment). verdict_on q x) (sym e))
        (set_site_conditions-Shows lib laws (c.now w) site.status.conditions site.meta.generation d
          missing x)

  try-Reports : (w' : c.World) × (try_status lib c site x w ≡ (ok tt, w')) × Reports s site w x w'
  unfolding try_status with_current with_deployment
  try-Reports = go (s.stored Kind.deployment (object_key site.meta) w) refl
    where
      n : Key
      n = object_key site.meta

      found : c.get Kind.site n w ≡ (ok site, w)
      found = sl.get_found Kind.site n w site up there

      go :
          (o : Option Deployment)
          → s.stored Kind.deployment n w ≡ o
          → (w' : c.World) × (try_status lib c site x w ≡ (ok tt, w')) × Reports s site w x w'
      go none e =
          let (t, missing) = sl.get_missing Kind.deployment n w up e in
          let (w', written, reports) =
            write-Reports zero_deployment (some (api not_found t))
              (says none e zero_deployment (some (api not_found t)) (verdict-missing t x)) in
          (
            w',
            rw (found, try_status, with_current) (rw (missing, with_deployment) written),
            reports,
          )
      go (some d) e =
          let (w', written, reports) = write-Reports d none (says (some d) e d none refl) in
          (
            w',
            rw (found, try_status, with_current)
                (rw (sl.get_found Kind.deployment n w d up e, with_deployment) written),
            reports,
          )

  update-Reports :
      (w' : c.World) × (update_site_status lib c site x w ≡ (ok tt, w')) × Reports s site w x w'
  unfolding update_site_status
  update-Reports =
      let (w', tried, reports) = try-Reports in
      (
        w',
        sl.retries_no_more (try_status lib c site x) w
              (ap (λ (r : Outcome (Unit {0}) × c.World). is_conflict r.0) tried)
            ∙ tried,
        reports,
      )

-- The status update depends on nothing but the key of the Site.
update_site_status-key :
    (lib : Library) (c : Client) (s t : Site) (x : Option Error)
    → object_key s.meta ≡ object_key t.meta
    → update_site_status lib c s x ≡ update_site_status lib c t x
unfolding update_site_status try_status
update_site_status-key lib c s t x same =
    ap
      (λ (n : Key).
        c.retry_on_conflict λ w. let (o, w') = c.get Kind.site n w in with_current lib c x o w')
      same

after_deferred-ok : (o : Outcome (Unit {0})) → after_deferred o (ok tt) ≡ o
after_deferred-ok (ok u) = refl
after_deferred-ok (err e) = refl
after_deferred-ok (panic t) = refl

pub reconcile-Reports :
    (lib : Library)
    → ConditionLaws lib
    → {c : Client} (s : Server c) → ServerLaws s
    → (r : SiteReconciler) (hash : String → String) (e : Entropy) (n : Key) (w w1 w2 : c.World)
      (asked site : Site) (o : Outcome (Unit {0}))
    → c.get Kind.site n w ≡ (ok asked, w1)
    → reconcile_objects lib c r hash e asked w1 ≡ (o, w2)
    → s.Serves w2
    → s.stored Kind.site (object_key asked.meta) w2 ≡ some site
    → (w3 : c.World) × (reconcile lib c r hash e n w ≡ (o, w3)) × Reports s site w2 (error_of o) w3
unfolding reconcile reconcile_found deferring_status
reconcile-Reports lib laws {c} s sl r hash e n w w1 w2 asked site o got worked up there =
    let same : object_key site.meta ≡ object_key asked.meta =
      sl.stored_key Kind.site (object_key asked.meta) w2 site there in
    let (w3, written, reports) =
      update-Reports lib laws s sl site (error_of o) w2 up
        (subst (λ m. s.stored Kind.site m w2 ≡ some site) (sym same) there) in
    let written' : update_site_status lib c asked (error_of o) w2 ≡ (ok tt, w3) =
      ap (λ (f : M c (Unit {0})). f w2)
        (sym (update_site_status-key lib c site asked (error_of o) same))
      ∙ written in
    (
      w3,
      rw (got, reconcile, reconcile_found, deferring_status)
          (rw worked
            (rw written' (ap (λ (q : Outcome (Unit {0})). (q, w3)) (after_deferred-ok o)))),
      reports,
    )
