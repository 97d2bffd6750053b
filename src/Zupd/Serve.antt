-- ===== src/Zupd/Serve.antt =====
-- `ServeDNS` (dynamicupdate.go), one function for each part of the handler. `now` is the clock's
-- Unix time in milliseconds, and `write_msg` what the connection says to a reply.
pub mod Safety
pub mod Serials
pub mod Order
pub mod Secondaries
pub mod Outcomes
use ksdns.Prelude.{
  ℕ, ◌%◌, ◌^◌, String, Bool, true, false, Option, none, some, List, [], ◌∷◌, map, concat, ◌||◌,
  ◌==◌, str_eq, if◌then◌else◌, is_some,
}
use ksdns.Prelude.Go.{Error, Result, ok, err}
use ksdns.Prelude.Maps.{set}
use ksdns.Zupd.Coredns.{
  Coredns, Zone, ZoneStatus, DynamicRr, LookupResult, success, no_data, name_error, delegation,
  server_failure,
}
use ksdns.Zupd.Dns
use ksdns.Zupd.Zones.{Zones}
use ksdns.Zupd.State.{Request, Reply, DynamicUpdate, Outcome, rcode, next_plugin, nil_pointer}
use ksdns.Zupd.Merge.{merge}
use ksdns.Zupd.Update.{Progress, continue, stop, apply_questions}

-- `uint32(time.Now().UnixMilli())`
unfoldable pub soa_serial : ℕ → ℕ
soa_serial now = now % 2 ^ 32

abbrev is_empty {ℓ} : {A : Type ℓ} → List A → Bool
is_empty [] = true
is_empty (x ∷ xs) = false

module _ (c : Coredns) where
  open c use {FileZone, Rr, Cluster}

  -- `dz` is a pointer: what the handler does to it, it does to the zone in the table.
  abbrev pub store_dynamic : String → FileZone → DynamicUpdate c → DynamicUpdate c
  store_dynamic zone dz d = record d {
    zones = record (d.zones) { dynamic_zones = set zone dz d.zones.dynamic_zones };
  }

  -- The loop over the namespaces, which passes over every error.
  unfoldable pub find_object : Cluster → List String → String → Option Zone
  find_object k [] name = none
  find_object k (ns ∷ namespaces) name = elim (c.get_zone k ns name) [
    | ok obj ↦ some obj
    | err e ↦ find_object k namespaces name
  ]

  -- The status that an update writes: the text of every record of the dynamic zone, and the serial.
  abbrev pub status_of : FileZone → ℕ → ZoneStatus
  status_of dz serial = record {
    dynamic_rrs = map (λ r. record { rr = c.rr_string r }) (concat (c.all dz));
    serial = serial;
  }

  abbrev pub write_serial : ℕ → ℕ → (ℕ → ℕ) → ℕ → ℕ
  write_serial a serial heap b = if a == b then serial else heap b

  -- The loop over the apex: each SOA record gets the serial and is inserted in the merged zone.
  -- The heap comes back with whether an insertion failed.
  unfoldable pub set_serials : FileZone → List Rr → ℕ → (ℕ → ℕ) → (ℕ → ℕ) × Bool
  set_serials z [] serial heap = (heap, false)
  set_serials z (r ∷ rs) serial heap =
      let skip = set_serials z rs serial heap in
      elim (c.soa_address r) [
        | none ↦ skip
        | some a ↦
            let heap' = write_serial a serial heap in
            let rest = set_serials (c.insert z r).0 rs serial heap' in
            if is_some (c.insert z r).1 then (heap', true) else rest
      ]

  abbrev pub update_reply : Reply c
  update_reply = record {
    rcode = Dns.rcode_success;
    authoritative = true;
    answer = [];
    ns = [];
    extra = [];
  }

  -- `w.WriteMsg`, and the two codes that follow it.
  abbrev write_reply :
      (Reply c → Option Error) → Reply c → DynamicUpdate c → Outcome × DynamicUpdate c
  write_reply write_msg m d = elim (write_msg m) [
    | some e ↦ (rcode Dns.rcode_server_failure, d)
    | none ↦ (rcode Dns.rcode_success, record d { written = m ∷ d.written })
  ]

  -- A NOTIFY that fails is logged only.
  abbrev pub notify : String → DynamicUpdate c → DynamicUpdate c
  notify zone d = if d.has_transfer then record d { notified = zone ∷ d.notified } else d

  -- From `z = d.Merge(zone)` to the end of the update's branch.
  unfoldable pub finish_update :
      (Reply c → Option Error) → String → ℕ → DynamicUpdate c → Outcome × DynamicUpdate c
  finish_update write_msg zone serial d = elim (merge c zone d.zones) [
    | none ↦ (nil_pointer, d)
    | some z ↦ elim (c.apex_if_defined z) [
      | err e ↦ (rcode Dns.rcode_server_failure, d)
      | ok apex ↦
          let (heap, failed) = set_serials z apex serial d.soa_serials in
          let d' = record d { soa_serials = heap } in
          if failed
          then (rcode Dns.rcode_server_failure, d')
          else write_reply write_msg update_reply (notify zone d')
    ]
  ]

  -- From `make([]rfc1035v1alpha1.DynamicRR, 0)` on: the update of the object's status.
  unfoldable pub persist_found :
      (Reply c → Option Error)
      → String
      → FileZone
      → ℕ
      → Zone
      → DynamicUpdate c
      → Outcome × DynamicUpdate c
  persist_found write_msg zone dz serial obj d =
      let (cluster, failure) =
        c.update_status d.cluster (record obj { status = status_of dz serial }) in
      let d' = record d { cluster = cluster } in
      if is_some failure
      then (rcode Dns.rcode_server_failure, d')
      else finish_update write_msg zone serial d'

  -- The search for the zone's object, whose name has no final dot.
  unfoldable pub persist :
      (Reply c → Option Error) → String → FileZone → ℕ → DynamicUpdate c → Outcome × DynamicUpdate c
  persist write_msg zone dz serial d = elim (find_object d.cluster d.namespaces (c.trim_dot zone)) [
    | none ↦ (rcode Dns.rcode_refused, d)
    | some obj ↦ persist_found write_msg zone dz serial obj d
  ]

  unfoldable pub handle_update :
      (Reply c → Option Error)
      → ℕ
      → String
      → FileZone
      → Request c
      → DynamicUpdate c
      → Outcome × DynamicUpdate c
  handle_update write_msg now zone dz r d = elim (apply_questions c r.question dz r.ns) [
    | stop code dz' ↦ (rcode code, store_dynamic zone dz' d)
    | continue dz' ↦ persist write_msg zone dz' (soa_serial now) (store_dynamic zone dz' d)
  ]

  -- The `switch` on the result of the lookup; `none` is a SERVFAIL that writes nothing.
  abbrev lookup_reply : LookupResult → List Rr → List Rr → List Rr → Option (Reply c)
  lookup_reply name_error answer ns extra = some (record {
    rcode = Dns.rcode_name_error;
    authoritative = true;
    answer = answer;
    ns = ns;
    extra = extra;
  })
  lookup_reply delegation answer ns extra = some (record {
    rcode = Dns.rcode_success;
    authoritative = false;
    answer = answer;
    ns = ns;
    extra = extra;
  })
  lookup_reply server_failure answer ns extra =
      if is_empty answer
      then none
      else some (record {
        rcode = Dns.rcode_server_failure;
        authoritative = true;
        answer = answer;
        ns = ns;
        extra = extra;
      })
  lookup_reply _ answer ns extra = some (record {
    rcode = Dns.rcode_success;
    authoritative = true;
    answer = answer;
    ns = ns;
    extra = extra;
  })

  -- From the test of `Expired` on.
  unfoldable pub answer_from :
      (Reply c → Option Error) → FileZone → Request c → DynamicUpdate c → Outcome × DynamicUpdate c
  answer_from write_msg z r d =
      let found = c.lookup z r.qname r.qtype in
      let m = lookup_reply found.result found.answer found.ns found.extra in
      if c.is_expired z then (rcode Dns.rcode_server_failure, d) else elim m [
        | none ↦ (rcode Dns.rcode_server_failure, d)
        | some reply ↦ write_reply write_msg reply d
      ]

  unfoldable pub answer_query :
      (Reply c → Option Error) → String → Request c → DynamicUpdate c → Outcome × DynamicUpdate c
  answer_query write_msg zone r d = elim (merge c zone d.zones) [
    | none ↦ (nil_pointer, d)
    | some z ↦ answer_from write_msg z r d
  ]

  -- The tests between the search for the dynamic zone and the two branches.
  unfoldable pub serve_zone :
      (Reply c → Option Error)
      → ℕ
      → String
      → FileZone
      → Request c
      → DynamicUpdate c
      → Outcome × DynamicUpdate c
  serve_zone write_msg now zone dz r d =
      if r.qtype == Dns.type_axfr || r.qtype == Dns.type_ixfr
      then (rcode Dns.rcode_refused, d)
      else if r.opcode == Dns.opcode_notify
      then (rcode Dns.rcode_success, d)
      else if r.opcode == Dns.opcode_update
      then handle_update write_msg now zone dz r d
      else answer_query write_msg zone r d

  unfoldable pub serve_dns :
      (Reply c → Option Error) → ℕ → Request c → DynamicUpdate c → Outcome × DynamicUpdate c
  serve_dns write_msg now r d =
      let zone = c.matches d.zones.names r.qname in
      if str_eq zone "" then (next_plugin, d) else elim (d.zones.dynamic_zones zone) [
        | none ↦ (rcode Dns.rcode_server_failure, d)
        | some dz ↦ serve_zone write_msg now zone dz r d
      ]
