-- ===== src/Zupd/Reads.antt =====
-- A request that is no update, as `ServeDNS` (dynamicupdate.go) and `Merge` (merge.go) read the
-- table for it: field by field and with no lock, so that what else happens to the table may come
-- between two reads.
pub mod Alone
pub mod Survival
pub mod Deletion
use ksdns.Prelude.{
  ℕ, zero, suc, String, Bool, Option, none, some, concat, ◌||◌, ◌==◌, str_eq, if◌then◌else◌, ◌≡◌,
}
use ksdns.Prelude.Go.{Error, ok}
use ksdns.Zupd.Coredns.{Coredns, Zone}
use ksdns.Zupd.Dns
use ksdns.Zupd.State.{Request, Reply, DynamicUpdate, Outcome, rcode, next_plugin, nil_pointer}
use ksdns.Zupd.Merge.{insert_each}
use ksdns.Zupd.Serve.{answer_from, serve_dns}
use ksdns.Zupd.Reconcile.{is_deleting, reconcile}
use ksdns.Zupd.Quiet.{Quiet}

module _ (c : Coredns) where
  open c use {FileZone, all, copy}

  -- Where the handler stands: what it has read and not yet used.
  pub data Stage : Type 0 where
    arrived : Stage
    matched : String → Stage  -- the zone of the request is chosen
    merging : String → Stage  -- in `Merge`, before it reads `d.Zones.Z`
    paired : String → FileZone → Stage  -- in `Merge`, before it reads `d.Zones.DynamicZones`
    answered : Outcome → Stage

  -- The tests between the search for the dynamic zone and the call of `Merge`.
  unfoldable pub guarded : Request c → String → Stage
  guarded r zone =
      if r.qtype == Dns.type_axfr || r.qtype == Dns.type_ixfr
      then answered (rcode Dns.rcode_refused)
      else if r.opcode == Dns.opcode_notify
      then answered (rcode Dns.rcode_success)
      else merging zone

  module _ (write_msg : Reply c → Option Error) (r : Request c) where
    abbrev pub choose : String → Stage
    choose zone = if str_eq zone "" then answered next_plugin else matched zone

    unfoldable pub find_dynamic : String → DynamicUpdate c → Stage × DynamicUpdate c
    find_dynamic zone d = elim (d.zones.dynamic_zones zone) [
      | none ↦ (answered (rcode Dns.rcode_server_failure), d)
      | some dz ↦ (guarded r zone, d)
    ]

    -- Where `Merge` finds no static or no dynamic zone it returns nil, and the handler locks a nil
    -- zone.
    unfoldable pub read_static : String → DynamicUpdate c → Stage × DynamicUpdate c
    read_static zone d = elim (d.zones.z zone) [
      | none ↦ (answered nil_pointer, d)
      | some z ↦ (paired zone z, d)
    ]

    unfoldable pub read_dynamic : String → FileZone → DynamicUpdate c → Stage × DynamicUpdate c
    read_dynamic zone z d = elim (d.zones.dynamic_zones zone) [
      | none ↦ (answered nil_pointer, d)
      | some dz ↦
          let m = insert_each c (insert_each c (copy z) (concat (all z))) (concat (all dz)) in
          let (outcome, d') = answer_from c write_msg m r d in (answered outcome, d')
    ]

    -- One read of the table, and what follows it up to the next one.
    unfoldable pub advance : Stage → DynamicUpdate c → Stage × DynamicUpdate c
    unfolding find_dynamic read_static read_dynamic
    advance arrived d = (choose (c.matches d.zones.names r.qname), d)
    advance (matched zone) d = find_dynamic zone d
    advance (merging zone) d = read_static zone d
    advance (paired zone z) d = read_dynamic zone z d
    advance (answered outcome) d = (answered outcome, d)

    -- So many reads with nothing between them.
    unfoldable pub reads : ℕ → Stage × DynamicUpdate c → Stage × DynamicUpdate c
    reads zero s = s
    reads (suc n) s = reads n (advance s.0 s.1)

    -- The reads of the handler, interleaved with such steps in any order.
    pub data Interleaved (d : DynamicUpdate c) : Stage → DynamicUpdate c → Type 0 where
      start : Interleaved d arrived d
      own :
          {p : Stage} {e : DynamicUpdate c}
          → Interleaved d p e
          → Interleaved d (advance p e).0 (advance p e).1
      others :
          {p : Stage} {e f : DynamicUpdate c} → Interleaved d p e → Quiet c e f → Interleaved d p f
