-- ===== src/Tests/Several.antt =====
-- Tests: requests for two Sites on the cluster in memory.
use site_operator.Common.{
  String, Bool, true, false, List, some, [], ◌∷◌, ◌≡◌, ◌≢◌, inl, inr, refl, ap, ◌∙◌, ◌==◌, ◌&&◌,
  eq_iff, arith,
}
use site_operator.Common.Outcome.{ok}
use site_operator.Kube.Meta.{Key, OwnerReference, object_key}
use site_operator.Kube.Objects.{Kind}
use site_operator.Kube.Server.{Frame}
use site_operator.Controller.{reconcile}
use site_operator.Controller.EndToEnd.{site_wish}
use site_operator.Controller.Spares.{reconcile-Leaves, reconcile-Confined}
use site_operator.Controller.Histories.{
  History, here, next, other_request, own_request, Stands, History-Stays,
}
use site_operator.Controller.Histories.Guards.{IsDistinct}
use site_operator.Controller.Converge.Stages.{Granted, AllOurs, AllOurs-others}
use site_operator.Controller.Converge.Shapes.{wishes}
use site_operator.Tests.Fixtures.{full_site, plain_site, own_cluster, zero_entropy}
use site_operator.Tests.Owners.{small_library, small_owners, small_errors}
use site_operator.Tests.Conditions.{small_conditions}
use site_operator.Tests.Memory.{Cluster, found, put, put-Frame, put-found, memory, memory_server}
use site_operator.Tests.Answers.{memory_laws}
use site_operator.Tests.Passes.{operator, hash, start, full_key, start-site, resolves, parses, ours}

abbrev plain_key : Key
plain_key = object_key plain_site.meta

-- Both Sites are stored.
abbrev both : Cluster
both = put Kind.site plain_key (some plain_site) start

keys_differ : plain_key ≢ full_key
keys_differ e =
    let names : "plain" ≡ "full" = ap (λ (k : Key). k.name) e in
    let wrong : ("plain" == "full") ≡ true = (eq_iff "plain" "full").1 names in ground arith

both-full : found Kind.site full_key both ≡ some full_site
both-full =
    put-Frame Kind.site Kind.site plain_key full_key (some plain_site) start (inr keys_differ)
    ∙ start-site

both-plain : found Kind.site plain_key both ≡ some plain_site
both-plain = put-found Kind.site plain_key (some plain_site) start

both-ours :
    AllOurs small_library full_site memory_server
      (wishes small_library full_site hash own_cluster)
      both
both-ours =
    AllOurs-others small_library full_site memory_server start both
      (wishes small_library full_site hash own_cluster) (site_wish plain_key ∷ [])
      (λ k m apart. put-Frame Kind.site k plain_key m (some plain_site) start apart.0)
      (ground arith) ours

-- An object has one controller.
one_controller :
    (b : Bool) (uid : String) → (b && uid == "full") ≡ true → (b && uid == "plain") ≡ false
one_controller false uid e = refl
one_controller true uid e = let full : uid ≡ "full" = (eq_iff uid "full").0 e in rw full refl

sites-IsDistinct : IsDistinct small_library full_site plain_site
sites-IsDistinct m held = go m.owner_references held
  where
    go :
        (refs : List OwnerReference)
        → small_library.is_controlled_by (record m { owner_references = refs }) full_site.meta
          ≡ true
        → small_library.is_controlled_by (record m { owner_references = refs }) plain_site.meta
          ≡ false
    go [] e = refl
    go (x ∷ xs) e = one_controller x.controller x.uid e

-- The cluster after the first request, in which the other Site is as it was.
abbrev first : Cluster
first = (reconcile small_library memory operator hash zero_entropy full_key both).1

first-plain : found Kind.site plain_key first ≡ some plain_site
first-plain =
    (reconcile-Leaves small_library small_owners memory_server memory_laws operator hash
      zero_entropy full_key full_site Kind.site plain_key both tt both-full (inr keys_differ)
      (λ own. absurd own)).1
    ∙ both-plain

-- A request for each Site after the first.
abbrev second : Cluster
second = (reconcile small_library memory operator hash zero_entropy plain_key first).1

abbrev third : Cluster
third = (reconcile small_library memory operator hash zero_entropy full_key second).1

three_requests :
    History small_library memory_server operator hash own_cluster full_key full_site first third
three_requests =
    next
      (next here (
        other_request zero_entropy plain_key plain_site first first-plain keys_differ
          sites-IsDistinct))
      (own_request zero_entropy second)

History-Stays_example :
    (u' : Cluster) × (reconcile small_library memory operator hash zero_entropy full_key third
      ≡ (ok tt, u'))
    × Granted memory_server (wishes small_library full_site hash own_cluster) third
    × Stands small_library memory_server operator hash own_cluster full_key full_site u'
    × Frame memory_server Kind.site full_key third u'
History-Stays_example =
    History-Stays small_library memory_server operator hash own_cluster full_key full_site
      small_owners small_errors small_conditions memory_laws resolves zero_entropy zero_entropy both
      third tt both-full parses both-ours three_requests

-- A request for `full` leaves the Deployment `plain` as it is.
reconcile-Confined_example :
    found Kind.deployment plain_key first ≡ found Kind.deployment plain_key both
reconcile-Confined_example =
    reconcile-Confined small_library small_owners memory_server memory_laws operator hash
      zero_entropy full_key full_site Kind.deployment plain_key both tt both-full
      (inl (ground arith)) keys_differ
