-- ===== src/Zupd/Reads/Deletion.antt =====
-- A zone that is deleted between two reads of a query.
use ksdns.Prelude.{
  String, ◌≡◌, ◌≢◌, refl, ap, ◌∙◌, true, Option, none, arith, eq_iff, eq_refl, is_some,
  is_some-eq_some,
}
use ksdns.Prelude.Go.{Error, ok}
use ksdns.Zupd.Coredns.{Coredns, FileZoneLaws, MatchesLaw, Zone}
use ksdns.Zupd.Dns
use ksdns.Zupd.Zones.{delete_zone}
use ksdns.Zupd.Zones.Consistency.{listed-has_zone}
use ksdns.Zupd.Invariant.{IsServable}
use ksdns.Zupd.State.{Request, Reply, DynamicUpdate, nil_pointer}
use ksdns.Zupd.Reconcile.{is_deleting, reconcile}
use ksdns.Zupd.Reads.{
  arrived, matched, merging, answered, guarded, advance, find_dynamic, read_static, reads,
}

module _ (c : Coredns) (laws : FileZoneLaws c) (law : MatchesLaw c)
    (write_msg : Reply c → Option Error) (r : Request c) where
  open laws use {origin}

  abbrev zone_of_request : DynamicUpdate c → String
  zone_of_request d = c.matches d.zones.names r.qname

  module _ (d : DynamicUpdate c) (h : IsServable origin d.zones)
      (known : zone_of_request d ≢ "") where
    zone_listed : is_some (d.zones.z (zone_of_request d)) ≡ true
    zone_listed =
        (listed-has_zone (zone_of_request d) d.zones h.consistent
          (law d.zones.names r.qname known)).0

    second_read :
        r.qtype ≢ Dns.type_axfr
        → r.qtype ≢ Dns.type_ixfr
        → r.opcode ≢ Dns.opcode_notify
        → reads c write_msg r 2 (arrived, d) ≡ (merging (zone_of_request d), d)
    unfolding reads
    second_read no_axfr no_ixfr no_notify =
        let (dz, p) =
          is_some-eq_some (d.zones.dynamic_zones (zone_of_request d))
            (h.consistent.same_keys (zone_of_request d) ∙ zone_listed) in
        let first : advance c write_msg r arrived d ≡ (matched (zone_of_request d), d) =
          unfold advance in ground (arith, eq_iff (zone_of_request d) "") in
        let second : advance c write_msg r (matched (zone_of_request d)) d
            ≡ (merging (zone_of_request d), d) =
          unfold advance find_dynamic in rw (p, find_dynamic) (unfold guarded in ground arith) in
        ap (λ s. advance c write_msg r s.0 s.1) first ∙ second

    deleted :
        (namespace name : String) (obj : Zone)
        → c.get_zone d.cluster namespace name ≡ ok obj
        → is_deleting obj ≡ true
        → c.fqdn obj.name ≡ (zone_of_request d)
        → (reconcile c namespace name d).1.zones.z (zone_of_request d) ≡ none
    unfolding reconcile delete_zone
    deleted namespace name obj found deleting same =
        let there : is_some (d.zones.z (c.fqdn obj.name)) ≡ true =
          ap (λ n. is_some (d.zones.z n)) same ∙ zone_listed in
        rw (found, reconcile)
          (rw (deleting, there) (rw same (rw (eq_refl (zone_of_request d)) refl)))

    read_of_nothing :
        (e : DynamicUpdate c)
        → e.zones.z (zone_of_request d) ≡ none
        → (advance c write_msg r (merging (zone_of_request d)) e).0 ≡ answered nil_pointer
    unfolding advance read_static
    read_of_nothing e p = rw (p, read_static) refl

  -- For a query (no transfer, NOTIFY or update) to a zone of a table that lists its zones once, with
  -- both parts of each: if the event of its object, which is being deleted, comes between the second
  -- read of the handler and the third, the handler goes on with a nil zone.
  pub deletion_between_reads :
      (d : DynamicUpdate c) (namespace name : String) (obj : Zone) (h : IsServable origin d.zones)
      (known : zone_of_request d ≢ "")
      → r.qtype ≢ Dns.type_axfr
      → r.qtype ≢ Dns.type_ixfr
      → r.opcode ≢ Dns.opcode_notify
      → r.opcode ≢ Dns.opcode_update
      → c.get_zone d.cluster namespace name ≡ ok obj
      → is_deleting obj ≡ true
      → c.fqdn obj.name ≡ zone_of_request d
      → (advance c write_msg r
          (reads c write_msg r 2 (arrived, d)).0
          (reconcile c namespace name d).1).0
        ≡ answered nil_pointer
  deletion_between_reads d namespace name obj h known no_axfr no_ixfr no_notify query found deleting
        same =
      ap (λ s. (advance c write_msg r s.0 (reconcile c namespace name d).1).0)
        (second_read d h known no_axfr no_ixfr no_notify)
      ∙ read_of_nothing d h known (reconcile c namespace name d).1
          (deleted d h known namespace name obj found deleting same)
