-- ===== src/Zupd/Quiet.antt =====
-- The plugin while no event finds an object that is being deleted: object events
-- (zone_controller.go), requests, and changes of the cluster.
use ksdns.Prelude.{
  ℕ, String, ◌≡◌, ◌≢◌, sym, ◌∙◌, subst, true, some, false, Option, arith, is_some, is_some-eq_some,
  inl, inr, In, ◌⊎◌, ◌↔◌,
}
use ksdns.Prelude.Go.{Error, ok, Result-cases}
use ksdns.Zupd.Coredns.{Coredns, FileZoneLaws, MatchesLaw, Zone}
use ksdns.Zupd.Dns
use ksdns.Zupd.Zones.{Zones}
use ksdns.Zupd.Zones.Consistency.{listed-has_zone}
use ksdns.Zupd.Invariant.{IsServable}
use ksdns.Zupd.State.{Request, Reply, DynamicUpdate}
use ksdns.Zupd.Merge.Contents.{Holds}
use ksdns.Zupd.Serve.{answer_from, serve_dns}
use ksdns.Zupd.Serve.Serials.{query_reads_merged}
use ksdns.Zupd.Reconcile.{is_deleting, put_zone, load_object, reconcile}
use ksdns.Zupd.Reconcile.Beginnings.{reconcile-live}
use ksdns.Zupd.System.{Step, request, object_event, Step-IsServable}
use ksdns.Zupd.System as System
use ksdns.Zupd.Spec.Refinement.{serve_dns-Effect}

module _ (c : Coredns) where
  open c use {FileZone}

  -- Every zone that the one table has, the other has.
  abbrev pub Keeps : Zones FileZone → Zones FileZone → Type 0
  Keeps zs zs' = (n : String) → is_some (zs.z n) ≡ true → is_some (zs'.z n) ≡ true

  put_zone-Keeps :
      (name : String) (parsed : FileZone) (zs : Zones FileZone)
      → Keeps zs (put_zone c name parsed zs)
  unfolding put_zone
  put_zone-Keeps name parsed zs n h = ground arith

  load_object-Keeps :
      (obj : Zone) (d : DynamicUpdate c) → Keeps d.zones (load_object c obj d).1.zones
  unfolding load_object
  load_object-Keeps obj d n h = elim (Result-cases (c.parse_zone obj.spec.zone (c.fqdn obj.name))) [
    | inl (e, p) ↦ rw (p, load_object) h
    | inr (parsed, p) ↦ rw (p, load_object) (put_zone-Keeps (c.fqdn obj.name) parsed d.zones n h)
  ]

  live_event-Keeps :
      (namespace name : String) (d : DynamicUpdate c)
      → ((obj : Zone) → c.get_zone d.cluster namespace name ≡ ok obj → is_deleting obj ≡ false)
      → Keeps d.zones (reconcile c namespace name d).1.zones
  unfolding reconcile
  live_event-Keeps namespace name d live n h =
      elim (Result-cases (c.get_zone d.cluster namespace name)) [
        | inl (e, p) ↦ rw (p, reconcile) h
        | inr (obj, p) ↦
            subst (λ e. is_some (e.1.zones.z n) ≡ true)
              (sym (reconcile-live c namespace name obj d p (live obj p)))
              (load_object-Keeps obj d n h)
      ]

  serve_dns-Keeps :
      (write_msg : Reply c → Option Error) (now : ℕ) (r : Request c) (d : DynamicUpdate c)
      → Keeps d.zones (serve_dns c write_msg now r d).1.zones
  serve_dns-Keeps write_msg now r d n h = elim (serve_dns-Effect c write_msg now r d) [
    | inl e ↦ subst (λ zs. is_some (zs.z n) ≡ true) (sym e) h
    | inr (zone, dz, u, there, e) ↦ subst (λ zs. is_some (zs.z n) ≡ true) (sym e) h
  ]

  -- Requests, changes of the cluster, and the events of objects that are not found, or not being
  -- deleted when they are read.
  pub data Quiet (d : DynamicUpdate c) : DynamicUpdate c → Type 0 where
    other_request :
        (write : Reply c → Option Error) (now : ℕ) (other : Request c)
        → Quiet d (serve_dns c write now other d).1
    cluster_change : (k : c.Cluster) → Quiet d (record d { cluster = k })
    live_event :
        (namespace name : String)
        → ((obj : Zone) → c.get_zone d.cluster namespace name ≡ ok obj → is_deleting obj ≡ false)
        → Quiet d (reconcile c namespace name d).1

  pub data Quietly (d : DynamicUpdate c) : DynamicUpdate c → Type 0 where
    start : Quietly d d
    then_step : {e f : DynamicUpdate c} → Quietly d e → Quiet e f → Quietly d f

  pub Quiet-Step : {d e : DynamicUpdate c} → Quiet d e → Step c d e
  Quiet-Step (other_request write now other) = request write now other
  Quiet-Step (cluster_change k) = System.cluster_change k
  Quiet-Step (live_event namespace name live) = object_event namespace name

  pub Quiet-Keeps : {d e : DynamicUpdate c} → Quiet d e → Keeps d.zones e.zones
  Quiet-Keeps {d} (other_request write now other) = serve_dns-Keeps write now other d
  Quiet-Keeps (cluster_change k) = λ n h. h
  Quiet-Keeps {d} (live_event namespace name live) = live_event-Keeps namespace name d live

  Quietly-Keeps : {d e : DynamicUpdate c} → Quietly d e → Keeps d.zones e.zones
  Quietly-Keeps start = λ n h. h
  Quietly-Keeps (then_step run q) = λ n h. Quiet-Keeps q n (Quietly-Keeps run n h)

module _ (c : Coredns) (laws : FileZoneLaws c) (law : MatchesLaw c) where
  open c use {FileZone, Rr}
  open laws use {origin}

  Quietly-IsServable :
      {d e : DynamicUpdate c}
      → Quietly c d e
      → IsServable origin d.zones
      → IsServable origin e.zones
  Quietly-IsServable start h = h
  Quietly-IsServable (then_step run q) h =
      Step-IsServable c laws law (Quiet-Step c q) (Quietly-IsServable run h)

  -- A zone that is listed in a table with both parts of each zone, and any sequence of requests,
  -- changes of the cluster (the object's disappearance among them) and events of objects that are
  -- not found or not being deleted: a query for the zone is still answered from the records
  -- of a static and a dynamic zone of the table.
  pub unfinalized_zone_served :
      (write_msg : Reply c → Option Error) (now : ℕ) (zone : String) (r : Request c)
      {d e : DynamicUpdate c}
      → IsServable origin d.zones
      → In zone d.zones.names
      → Quietly c d e
      → r.opcode ≢ Dns.opcode_update
      → r.opcode ≢ Dns.opcode_notify
      → r.qtype ≢ Dns.type_axfr
      → r.qtype ≢ Dns.type_ixfr
      → c.matches e.zones.names r.qname ≡ zone
      → zone ≢ ""
      → (s : FileZone) × (dz : FileZone) × (m : FileZone) × (e.zones.z zone ≡ some s)
        × (e.zones.dynamic_zones zone ≡ some dz)
        × ((x : Rr) → Holds c laws m x ↔ (Holds c laws s x ⊎ Holds c laws dz x))
        × (serve_dns c write_msg now r e ≡ answer_from c write_msg m r e)
  unfinalized_zone_served write_msg now zone r {d} {e} h listed run u n x y match some_zone =
      let servable = Quietly-IsServable run h in
      let there = Quietly-Keeps c run zone (listed-has_zone zone d.zones h.consistent listed).0 in
      let (s, static) = is_some-eq_some (e.zones.z zone) there in
      let (dz, dynamic) =
        is_some-eq_some (e.zones.dynamic_zones zone) (servable.consistent.same_keys zone ∙ there) in
      let (m, holds, apex, served) =
        query_reads_merged c laws write_msg now zone s dz r e servable static dynamic u n x y match
          some_zone in
      (s, dz, m, static, dynamic, holds, served)
