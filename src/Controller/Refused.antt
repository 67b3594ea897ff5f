-- ===== src/Controller/Refused.antt =====
-- A Site whose Secret's name is taken.
use site_operator.Common.{String, true, false, none, some, ◌≡◌, refl}
use site_operator.Common.Outcome.{err, message}
use site_operator.Api.Site.{Site}
use site_operator.Kube.Meta.{ObjectMeta}
use site_operator.Kube.Objects.{Kind, Secret}
use site_operator.Kube.Library.{Library, OwnerLaws}
use site_operator.Kube.Action.{◌>>=◌}
use site_operator.Kube.Client.{Client}
use site_operator.Kube.Server.{Server, ServerLaws, current}
use site_operator.Helpers.{site_secret, new_meta}
use site_operator.Secret.{Entropy, reconcile_secret, mutate_secret}
use site_operator.Controller.{SiteReconciler, reconcile_objects}
use site_operator.Controller.Converge.Shapes.{key}

-- At an API server that answers, the work on a Site whose Secret's name is taken by an object that
-- another owner controls ends in an error before anything is written.
pub reconcile_objects-refused :
    (lib : Library)
    → OwnerLaws lib
    → (site : Site) {c : Client} (s : Server c) → ServerLaws s
    → (r : SiteReconciler) (hash : String → String) (e : Entropy) (w : c.World) (x : Secret)
      (other : ObjectMeta)
    → s.Serves w
    → s.stored Kind.secret (key lib site (site_secret site)) w ≡ some x
    → lib.is_controlled_by x.meta other ≡ true
    → lib.is_controlled_by x.meta site.meta ≡ false
    → (t : String) × (reconcile_objects lib c r hash e site w ≡ (err (message t), w))
unfolding reconcile_objects ◌>>=◌ reconcile_secret mutate_secret
reconcile_objects-refused lib laws site {c} s sl r hash e w x other up taken theirs not_ours =
    let (t, refused) = laws.set_refused site.meta x.meta other theirs not_ours in
    let o : Secret = record { meta = new_meta (site_secret site) site; contents = none } in
    let fails : c.create_or_update Kind.secret o (mutate_secret lib e site) w
        ≡ (err (message t), w) =
      sl.fails Kind.secret o (mutate_secret lib e site) w (message t) up
        (rw (taken, current) (rw (refused, mutate_secret) refl)) in
    (t, rw (fails, reconcile_objects, ◌>>=◌, reconcile_secret) refl)
