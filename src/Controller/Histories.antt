-- ===== src/Controller/Histories.antt =====
-- Requests for several Sites, one after another, with changes by others between them.
mod Each
pub mod Guards
mod Outside
use site_operator.Common.{
  String, Option, none, some, [], ◌∷◌, ◌≡◌, ◌≢◌, refl, sym, ◌∙◌, subst, inr, arith,
}
use site_operator.Common.Outcome.{Outcome, ok}
use site_operator.Api.Site.{Site, SiteStatus, MariaDbClusterRef}
use site_operator.Kube.Meta.{Key, object_key}
use site_operator.Kube.Objects.{Kind, Obj}
use site_operator.Kube.Library.{Library, OwnerLaws, ErrorLaws, ConditionLaws}
use site_operator.Kube.Client.{Client}
use site_operator.Kube.Server.{Server, ServerLaws, Frame}
use site_operator.Helpers.Own.{IsOwnName}
use site_operator.Secret.{Entropy}
use site_operator.Pvc.{managed_persistence}
use site_operator.Controller.{SiteReconciler, reconcile, reconcile_found}
use site_operator.Controller.Spares.{reconcile-Leaves}
use site_operator.Controller.EndToEnd.{reconcile-Converges, site_wish}
use site_operator.Controller.Twice.{Granted-Rests}
use site_operator.Controller.Converge.Stages.{Granted, AllOurs, Granted-others}
use site_operator.Controller.Converge.Shapes.{wishes}
use site_operator.Controller.Converge.Pass.{Resolves}
use site_operator.Controller.Converge.Claim.{SizeParses}
use site_operator.Controller.Report.{Reports}
use Guards.{IsDistinct, wishes-Stay}
use Outside.{LeftAlone, wishes-Alone}

module _ (lib : Library) {c : Client} (s : Server c) (r : SiteReconciler) (hash : String → String)
    (ref : MariaDbClusterRef) (n : Key) (site : Site) where
  -- The Site is stored, with some status.
  abbrev pub Stands : c.World → Type 0
  Stands w =
      (status : SiteStatus) × (s.stored Kind.site n w ≡ some (record site { status = status }))

  -- One thing that happens to the cluster: a request for the Site, one for another Site or for a
  -- name without one, or changes by others to what is not the Site's.
  pub data Step : c.World → c.World → Type 0 where
    own_request : (e : Entropy) (w : c.World) → Step w (reconcile lib c r hash e n w).1
    other_request :
        (e : Entropy) (key : Key) (other : Site) (w : c.World)
        → s.stored Kind.site key w ≡ some other
        → key ≢ n
        → IsDistinct lib site other
        → Step w (reconcile lib c r hash e key w).1
    missing_request :
        (e : Entropy) (key : Key) (w : c.World)
        → s.stored Kind.site key w ≡ none
        → Step w (reconcile lib c r hash e key w).1
    outside : (w w' : c.World) → s.Serves w' → Stands w' → LeftAlone s site w w' → Step w w'

  pub data History (w : c.World) : c.World → Type 0 where
    here : History w w
    next : {v u : c.World} → History w v → Step v u → History w u

  -- The API server answers, the Site is stored, and its objects are as it wants them.
  pub record Settled (w : c.World) : Type 0 where
    pub serves : s.Serves w
    pub stands : Stands w
    pub granted : Granted s (wishes lib site hash ref) w

  module _ (laws : OwnerLaws lib) (errors : ErrorLaws lib) (conditions : ConditionLaws lib)
      (sl : ServerLaws s) (resolves : Resolves site r.default_maria_db_ref ref) where
    own-Settles : (e : Entropy) (w : c.World) → Settled w → Settled (reconcile lib c r hash e n w).1
    own-Settles e w settled =
        let (w', ran, up, stands, frame) =
          Granted-Rests lib laws errors conditions s sl r hash ref n site resolves e w
            settled.serves settled.stands settled.granted in
        subst (λ (q : Outcome (Unit {0}) × c.World). Settled q.1) (sym ran)
          (record {
            serves = up;
            stands = stands;
            granted =
                Granted-others s w w' (wishes lib site hash ref) (site_wish n ∷ [])
                  (λ k m apart. frame k m apart.0) (ground arith) settled.granted;
          })

    other-Settles :
        (e : Entropy) (key : Key) (other : Site) (w : c.World)
        → s.stored Kind.site key w ≡ some other
        → key ≢ n
        → IsDistinct lib site other
        → Settled w
        → Settled (reconcile lib c r hash e key w).1
    other-Settles e key other w there differ distinct settled =
        let (status, stands) = settled.stands in
        let named : object_key other.meta ≡ key = sl.stored_key Kind.site key w other there in
        let own_name : object_key site.meta ≡ n =
          sl.stored_key Kind.site n w (record site { status = status }) stands in
        let (up, same) =
          reconcile-Leaves lib laws s sl r hash e key other Kind.site n w settled.serves there
            (inr (λ q. differ (sym (q ∙ named)))) (λ own. absurd own) in
        record {
          serves = up;
          stands = (status, same ∙ stands);
          granted =
              wishes-Stay lib site other distinct (λ q. differ (sym named ∙ q ∙ own_name)) laws s sl
                r hash e key w settled.serves there ref settled.granted;
        }

    missing-Settles :
        (e : Entropy) (key : Key) (w : c.World)
        → s.stored Kind.site key w ≡ none
        → Settled w
        → Settled (reconcile lib c r hash e key w).1
    unfolding reconcile reconcile_found
    missing-Settles e key w gone settled =
        let (t, missing) = sl.get_missing Kind.site key w settled.serves gone in
        rw (missing, reconcile) settled

    Step-Settles : {w w' : c.World} → Step w w' → Settled w → Settled w'
    Step-Settles (own_request e w) settled = own-Settles e w settled
    Step-Settles (other_request e key other w there differ distinct) settled =
        other-Settles e key other w there differ distinct settled
    Step-Settles (missing_request e key w gone) settled = missing-Settles e key w gone settled
    Step-Settles (outside w w' up stands alone) settled = record {
      serves = up;
      stands = stands;
      granted = wishes-Alone lib site s w w' alone hash ref settled.granted;
    }

    History-Settles : {w w' : c.World} → History w w' → Settled w → Settled w'
    History-Settles here settled = settled
    History-Settles (next history step) settled =
        Step-Settles step (History-Settles history settled)

    -- Once a request for a Site has succeeded under the conditions of reconcile-Converges, its
    -- objects stay as it wants them through any sequence of further requests, for this Site, other
    -- Sites or names without one, and of changes by others that leave the Site's spec and objects
    -- alone but for the status of its Deployment, as long as no object is controlled by two Sites.
    -- Another request for the Site then succeeds and changes nothing but the Site's status.
    pub History-Stays :
        (e e' : Entropy) (w u : c.World)
        → s.Serves w
        → s.stored Kind.site n w ≡ some site
        → SizeParses lib (managed_persistence site.spec.persistence)
        → AllOurs lib site s (wishes lib site hash ref) w
        → History (reconcile lib c r hash e n w).1 u
        → (u' : c.World) × (reconcile lib c r hash e' n u ≡ (ok tt, u'))
          × Granted s (wishes lib site hash ref) u
          × Stands u'
          × Frame s Kind.site n u u'
    History-Stays e e' w u up there sized ours history =
        let (worked, w', ran, granted, claimed, reports) =
          reconcile-Converges lib laws errors conditions s sl r hash e ref n site w up there
            resolves sized ours in
        let first : Settled w' = record {
          serves = reports.serves;
          stands = (
            record { conditions = reports.conditions },
            subst
                (λ m.
                  s.stored Kind.site m w'
                  ≡ some (record site { status = record { conditions = reports.conditions } }))
                (sl.stored_key Kind.site n w site there) reports.stored_site,
          );
          granted = granted;
        } in
        let settled =
          History-Settles history
            (subst (λ (q : Outcome (Unit {0}) × c.World). Settled q.1) (sym ran) first) in
        let (u', again, up', stands, frame) =
          Granted-Rests lib laws errors conditions s sl r hash ref n site resolves e' u
            settled.serves settled.stands settled.granted in
        (u', again, settled.granted, stands, frame)
