-- ===== src/Zupd/Serve/Outcomes.antt =====
-- What a request changes, by its outcome.
use ksdns.Prelude.{
  ℕ, String, ◌≡◌, ◌≢◌, ap, ◌∙◌, false, Option, none, some, List, ◌∷◌, arith, eq_refl, Option-cases,
  inl, inr,
}
use ksdns.Prelude.Go.{Error, ok, Result-cases}
use ksdns.Zupd.Coredns.{Coredns, Zone}
use ksdns.Zupd.Dns
use ksdns.Zupd.State.{Request, Reply, DynamicUpdate, rcode}
use ksdns.Zupd.Merge.{merge}
use ksdns.Zupd.Update.{continue, apply_questions}
use ksdns.Zupd.Update.Effects.{zone_of, Progress-cases, apply_questions-IsError}
use ksdns.Zupd.Serve.Safety.{zones-persist}
use ksdns.Zupd.Serve.{
  soa_serial, status_of, find_object, update_reply, persist_found, store_dynamic, finish_update,
  persist, handle_update, answer_from, answer_query, serve_zone, serve_dns, set_serials,
}

module _ (c : Coredns) (write_msg : Reply c → Option Error) (now : ℕ) where
  open c use {FileZone}

  -- A request that is no update changes nothing but the messages written: no zone, no object, no
  -- serial, and no NOTIFY goes out.
  pub query_changes_nothing :
      (r : Request c) (d : DynamicUpdate c)
      → r.opcode ≢ Dns.opcode_update
      → (serve_dns c write_msg now r d).1
        ≡ record d { written = (serve_dns c write_msg now r d).1.written }
  unfolding serve_dns serve_zone answer_query answer_from
  query_changes_nothing r d h = ground arith

  pub finish_update_success :
      (zone : String) (serial : ℕ) (d : DynamicUpdate c)
      → (finish_update c write_msg zone serial d).0 ≡ rcode Dns.rcode_success
      → (m : FileZone) × (apex : List c.Rr) × (merge c zone d.zones ≡ some m)
        × (c.apex_if_defined m ≡ ok apex)
        × ((set_serials c m apex serial d.soa_serials).1 ≡ false)
        × ((finish_update c write_msg zone serial d).1.soa_serials
            ≡ (set_serials c m apex serial d.soa_serials).0)
        × ((finish_update c write_msg zone serial d).1.cluster ≡ d.cluster)
        × ((finish_update c write_msg zone serial d).1.written ≡ update_reply c ∷ d.written)
  unfolding finish_update
  finish_update_success zone serial d h = elim (Option-cases (merge c zone d.zones)) [
    | inl p ↦ absurd (ground arith)
    | inr (m, p) ↦ elim (Result-cases (c.apex_if_defined m)) [
      | inl (e, q) ↦ absurd (ground arith)
      | inr (apex, q) ↦ (m, apex, p, q, ground arith, ground arith, ground arith, ground arith)
    ]
  ]

  cluster-finish_update :
      (zone : String) (serial : ℕ) (d : DynamicUpdate c)
      → (finish_update c write_msg zone serial d).1.cluster ≡ d.cluster
  unfolding finish_update
  cluster-finish_update zone serial d = ground arith

  abbrev pub updated : Zone → FileZone → ℕ → DynamicUpdate c → DynamicUpdate c
  updated obj dz serial d = record d {
    cluster = (c.update_status d.cluster (record obj { status = status_of c dz serial })).0;
  }

  persist_success :
      (zone : String) (dz : FileZone) (serial : ℕ) (d : DynamicUpdate c)
      → (persist c write_msg zone dz serial d).0 ≡ rcode Dns.rcode_success
      → (obj : Zone) × (find_object c d.cluster d.namespaces (c.trim_dot zone) ≡ some obj)
        × ((c.update_status d.cluster (record obj { status = status_of c dz serial })).1 ≡ none)
        × (persist c write_msg zone dz serial d
            ≡ finish_update c write_msg zone serial (updated obj dz serial d))
  persist_success zone dz serial d h =
      elim (Option-cases (find_object c d.cluster d.namespaces (c.trim_dot zone))) [
        | inl p ↦ absurd (unfold persist in ground arith)
        | inr (obj, p) ↦ (
          obj,
          p,
          unfold persist persist_found in ground arith,
          unfold persist persist_found in ground arith,
        )
      ]

  module _ (zone : String) (dz : FileZone) (r : Request c) (d : DynamicUpdate c) where
    -- Whatever an update answers, the dynamic zone in memory is the one that its loop left.
    pub handle_update_keeps :
        (handle_update c write_msg now zone dz r d).1.zones.dynamic_zones zone
        ≡ some (zone_of (apply_questions c r.question dz r.ns))
    unfolding handle_update
    handle_update_keeps = elim (Progress-cases (apply_questions c r.question dz r.ns)) [
      | inl (dz', e) ↦
          rw (e, handle_update)
            (rw (zones-persist c write_msg zone dz' (soa_serial now) (store_dynamic c zone dz' d))
              (rw (eq_refl zone)))
      | inr (code, dz', e) ↦ rw (e, handle_update) (rw (eq_refl zone))
    ]

    pub handle_update_finishes :
        (handle_update c write_msg now zone dz r d).0 ≡ rcode Dns.rcode_success
        → (dz' : FileZone) × (obj : Zone) × (apply_questions c r.question dz r.ns ≡ continue dz')
          × (find_object c d.cluster d.namespaces (c.trim_dot zone) ≡ some obj)
          × ((c.update_status d.cluster
                (record obj { status = status_of c dz' (soa_serial now) })).1
              ≡ none)
          × (handle_update c write_msg now zone dz r d
              ≡ finish_update c write_msg zone
                  (soa_serial now)
                  (updated obj dz' (soa_serial now) (store_dynamic c zone dz' d)))
    handle_update_finishes h = elim (Progress-cases (apply_questions c r.question dz r.ns)) [
      | inl (dz', e) ↦
          let run : handle_update c write_msg now zone dz r d
              ≡ persist c write_msg zone dz' (soa_serial now) (store_dynamic c zone dz' d) =
            unfold handle_update in rw (e, handle_update) in
          let (obj, found, stored, end) =
            persist_success zone dz' (soa_serial now) (store_dynamic c zone dz' d) (rw run at h) in
          (dz', obj, e, found, stored, run ∙ end)
      | inr (code, dz', e) ↦
          absurd
            (unfold handle_update in ground (arith, apply_questions-IsError c r.question dz r.ns))
    ]

    -- An update answers success only if every record was applied, the zone's object was found in
    -- one of the namespaces and took the texts of all records of the dynamic zone and the serial,
    -- and the reply was written.
    pub handle_update_success :
        (handle_update c write_msg now zone dz r d).0 ≡ rcode Dns.rcode_success
        → (dz' : FileZone) × (obj : Zone) × (apply_questions c r.question dz r.ns ≡ continue dz')
          × (find_object c d.cluster d.namespaces (c.trim_dot zone) ≡ some obj)
          × ((c.update_status d.cluster
                (record obj { status = status_of c dz' (soa_serial now) })).1
              ≡ none)
          × ((handle_update c write_msg now zone dz r d).1.cluster
              ≡ (c.update_status d.cluster
                  (record obj { status = status_of c dz' (soa_serial now) })).0)
          × ((handle_update c write_msg now zone dz r d).1.written ≡ update_reply c ∷ d.written)
    handle_update_success h =
        let (dz', obj, applied, found, stored, run) = handle_update_finishes h in
        let (m, apex, _, _, _, _, same, written) =
          finish_update_success zone (soa_serial now)
            (updated obj dz' (soa_serial now) (store_dynamic c zone dz' d)) (rw run at h) in
        (
          dz',
          obj,
          applied,
          found,
          stored,
          ap (λ p. p.1.cluster) run ∙ same,
          ap (λ p. p.1.written) run ∙ written,
        )
