-- ===== src/Zupd/System.antt =====
-- The plugin as a whole: from the table that `initialize` built, requests, calls of the zone
-- controller and changes that others make to the cluster come in any order.
use ksdns.Prelude.{ℕ, String, ◌≡◌, sym, subst, Option, List}
use ksdns.Prelude.Go.{Error}
use ksdns.Zupd.Coredns.{Coredns, FileZoneLaws, MatchesLaw}
use ksdns.Zupd.Zones.{Zones}
use ksdns.Zupd.Invariant.{IsServable}
use ksdns.Zupd.State.{Request, Reply, DynamicUpdate}
use ksdns.Zupd.Serve.{serve_dns}
use ksdns.Zupd.Serve.Safety.{IsSafe, serve_dns-IsSafe}
use ksdns.Zupd.Reconcile.{reconcile}
use ksdns.Zupd.Reconcile.Effects.{reconcile-IsServable}
use ksdns.Zupd.Initialize.{initialize, loaded}
use ksdns.Zupd.Initialize.Effects.{Loads, initialize-IsServable}

module _ (c : Coredns) where
  pub data Step (d : DynamicUpdate c) : DynamicUpdate c → Type 0 where
    request :
        (write_msg : Reply c → Option Error) (now : ℕ) (r : Request c)
        → Step d (serve_dns c write_msg now r d).1
    object_event : (namespace name : String) → Step d (reconcile c namespace name d).1
    cluster_change : (k : c.Cluster) → Step d (record d { cluster = k })

  pub data Reach (d : DynamicUpdate c) : DynamicUpdate c → Type 0 where
    here : Reach d d
    next : {e f : DynamicUpdate c} → Reach d e → Step e f → Reach d f

module _ (c : Coredns) (laws : FileZoneLaws c) (law : MatchesLaw c) where
  open laws use {origin}

  pub Step-IsServable :
      {d e : DynamicUpdate c} → Step c d e → IsServable origin d.zones → IsServable origin e.zones
  Step-IsServable {d} (request write_msg now r) h =
      (serve_dns-IsSafe c laws write_msg now r d law h).servable
  Step-IsServable {d} (object_event namespace name) h =
      reconcile-IsServable c laws namespace name d h
  Step-IsServable (cluster_change k) h = h

  pub Reach-IsServable :
      {d e : DynamicUpdate c} → Reach c d e → IsServable origin d.zones → IsServable origin e.zones
  Reach-IsServable here h = h
  Reach-IsServable (next r s) h = Step-IsServable s (Reach-IsServable r h)

  -- From a table that `initialize` returned, after any sequence of requests, object events and
  -- changes of the cluster, the next request runs into no nil pointer, and the table lists each
  -- zone once, with a static and a dynamic zone of the listed origin.
  pub Reach-IsSafe :
      (k : c.Cluster) (lines : List (List String)) (zs : Zones c.FileZone) {d e : DynamicUpdate c}
      (write_msg : Reply c → Option Error) (now : ℕ) (r : Request c)
      → initialize c k lines ≡ loaded zs
      → d.zones ≡ zs
      → Reach c d e
      → IsSafe c laws write_msg now (serve_dns c write_msg now r e)
  Reach-IsSafe k lines zs {d} {e} write_msg now r built start reach =
      serve_dns-IsSafe c laws write_msg now r e law (
        Reach-IsServable reach (
          subst (λ t. IsServable origin t) (sym start)
            (subst (λ m. Loads (IsServable origin) m) built
              (initialize-IsServable c laws k lines))))
