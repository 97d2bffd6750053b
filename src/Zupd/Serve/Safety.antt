-- ===== src/Zupd/Serve/Safety.antt =====
-- Every request keeps the table of zones, and none runs into a nil pointer.
use ksdns.Prelude.{
  ℕ, String, ◌≡◌, ◌≢◌, refl, sym, ap, ◌∙◌, Option, some, arith, str_eq, eq_iff, is_some, Bool-cases,
  Option-cases, inl, inr, In, ◌==◌, ◌||◌,
}
use mathlib.Core.Bool.{false≢true}
use ksdns.Prelude.Go.{Error}
use ksdns.Zupd.Coredns.{Coredns, FileZoneLaws, MatchesLaw, Zone}
use ksdns.Zupd.Dns
use ksdns.Zupd.Invariant.{IsServable, IsServable-set_dynamic}
use ksdns.Zupd.State.{Request, Reply, DynamicUpdate, Outcome, nil_pointer}
use ksdns.Zupd.Merge.{merge}
use ksdns.Zupd.Merge.Contents.{merge_total}
use ksdns.Zupd.Update.{Progress, continue, stop, apply_questions}
use ksdns.Zupd.Update.Effects.{zone_of, origin-apply_questions}
use ksdns.Zupd.Serve.{
  soa_serial, status_of, find_object, persist_found, store_dynamic, finish_update, persist,
  handle_update, answer_from, answer_query, serve_zone, serve_dns,
}

abbrev updated : {c : Coredns} → Zone → c.FileZone → ℕ → DynamicUpdate c → DynamicUpdate c
updated {c} obj dz serial d = record d {
  cluster = (c.update_status d.cluster (record obj { status = status_of c dz serial })).0;
}

module _ (c : Coredns) (write_msg : Reply c → Option Error) where
  open c use {FileZone}

  zones-finish_update :
      (zone : String) (serial : ℕ) (d : DynamicUpdate c)
      → (finish_update c write_msg zone serial d).1.zones ≡ d.zones
  unfolding finish_update
  zones-finish_update zone serial d = ground arith

  pub zones-persist :
      (zone : String) (dz : FileZone) (serial : ℕ) (d : DynamicUpdate c)
      → (persist c write_msg zone dz serial d).1.zones ≡ d.zones
  unfolding persist persist_found
  zones-persist zone dz serial d =
      elim (Option-cases (find_object c d.cluster d.namespaces (c.trim_dot zone))) [
        | inl p ↦ rw (p, persist) refl
        | inr (obj, p) ↦
            rw (p, persist)
              (ground (arith, zones-finish_update zone serial (updated obj dz serial d)))
      ]

  finish_update_safe :
      (zone : String) (serial : ℕ) (d : DynamicUpdate c) (m : FileZone)
      → merge c zone d.zones ≡ some m
      → (finish_update c write_msg zone serial d).0 ≢ nil_pointer
  unfolding finish_update
  finish_update_safe zone serial d m h = ground arith

  persist_safe :
      (zone : String) (dz : FileZone) (serial : ℕ) (d : DynamicUpdate c) (m : FileZone)
      → merge c zone d.zones ≡ some m
      → (persist c write_msg zone dz serial d).0 ≢ nil_pointer
  unfolding persist persist_found
  persist_safe zone dz serial d m h =
      elim (Option-cases (find_object c d.cluster d.namespaces (c.trim_dot zone))) [
        | inl p ↦ rw (p, persist) (λ e. cc)
        | inr (obj, p) ↦
            rw (p, persist)
              (ground (arith, finish_update_safe zone serial (updated obj dz serial d) m h))
      ]

  answer_query_safe :
      (zone : String) (r : Request c) (d : DynamicUpdate c) (m : FileZone)
      → merge c zone d.zones ≡ some m
      → (answer_query c write_msg zone r d).0 ≢ nil_pointer
  unfolding answer_query answer_from
  answer_query_safe zone r d m h = ground arith

  pub zones-answer_query :
      (zone : String) (r : Request c) (d : DynamicUpdate c)
      → (answer_query c write_msg zone r d).1.zones ≡ d.zones
  unfolding answer_query answer_from
  zones-answer_query zone r d = ground arith

module _ (c : Coredns) (laws : FileZoneLaws c) (write_msg : Reply c → Option Error) (now : ℕ) where
  open c use {FileZone}
  open laws use {origin}

  -- The outcome is no panic, and the table that is left satisfies the invariant.
  pub record IsSafe (result : Outcome × DynamicUpdate c) : Type 0 where
    pub no_panic : result.0 ≢ nil_pointer
    pub servable : IsServable origin result.1.zones

  handle_update-IsSafe :
      (zone : String) (dz : FileZone) (r : Request c) (d : DynamicUpdate c)
      → IsServable origin d.zones
      → In zone d.zones.names
      → d.zones.dynamic_zones zone ≡ some dz
      → IsSafe (handle_update c write_msg now zone dz r d)
  unfolding handle_update
  handle_update-IsSafe zone dz r d h i e =
      finish (apply_questions c r.question dz r.ns) refl
        (origin-apply_questions c laws zone r.question dz r.ns (h.dynamic_origins zone dz e))
    where
      stored :
          (dz' : FileZone)
          → origin dz' ≡ zone
          → IsServable origin (store_dynamic c zone dz' d).zones
      stored dz' o = IsServable-set_dynamic origin zone dz' d.zones o h (ap is_some e)

      finish :
          (p : Progress FileZone)
          → apply_questions c r.question dz r.ns ≡ p
          → origin (zone_of p) ≡ zone
          → IsSafe (handle_update c write_msg now zone dz r d)
      finish (stop code dz') q o =
          rw (q, handle_update) (record { no_panic = λ x. cc; servable = stored dz' o })
      finish (continue dz') q o =
          let (m, found) =
            merge_total c laws zone (store_dynamic c zone dz' d).zones (stored dz' o).consistent
              i in
          rw (q, handle_update)
            (record {
              no_panic =
                  persist_safe c write_msg zone dz' (soa_serial now) (store_dynamic c zone dz' d) m
                    found;
              servable =
                  rw
                    (zones-persist c write_msg zone dz' (soa_serial now)
                      (store_dynamic c zone dz' d))
                    (stored dz' o);
            })

  serve_zone-IsSafe :
      (zone : String) (dz : FileZone) (r : Request c) (d : DynamicUpdate c)
      → IsServable origin d.zones
      → In zone d.zones.names
      → d.zones.dynamic_zones zone ≡ some dz
      → IsSafe (serve_zone c write_msg now zone dz r d)
  unfolding serve_zone
  serve_zone-IsSafe zone dz r d h i e =
      let (m, found) = merge_total c laws zone d.zones h.consistent i in
      elim (Bool-cases (r.qtype == Dns.type_axfr || r.qtype == Dns.type_ixfr)) [
        | inl p ↦ rw p (record { no_panic = λ x. cc; servable = h })
        | inr p ↦ elim (Bool-cases (r.opcode == Dns.opcode_notify)) [
          | inl q ↦ rw (p, q) (record { no_panic = λ x. cc; servable = h })
          | inr q ↦ elim (Bool-cases (r.opcode == Dns.opcode_update)) [
            | inl u ↦ rw (p, q, u) (handle_update-IsSafe zone dz r d h i e)
            | inr u ↦
                rw (p, q, u)
                  (record {
                    no_panic = answer_query_safe c write_msg zone r d m found;
                    servable = rw (zones-answer_query c write_msg zone r d) h;
                  })
          ]
        ]
      ]

  -- On a table that satisfies the invariant, no request makes the handler run into a nil pointer,
  -- and the table that it leaves satisfies the invariant.
  pub serve_dns-IsSafe :
      (r : Request c) (d : DynamicUpdate c)
      → MatchesLaw c
      → IsServable origin d.zones
      → IsSafe (serve_dns c write_msg now r d)
  unfolding serve_dns
  serve_dns-IsSafe r d law h = elim (Bool-cases (str_eq (c.matches d.zones.names r.qname) "")) [
    | inl p ↦ rw p (record { no_panic = λ x. cc; servable = h })
    | inr p ↦ elim (Option-cases (d.zones.dynamic_zones (c.matches d.zones.names r.qname))) [
      | inl q ↦ rw (p, serve_dns) (rw (q, serve_dns) (record { no_panic = λ x. cc; servable = h }))
      | inr (dz, q) ↦
          rw (p, serve_dns)
            (rw (q, serve_dns)
              (serve_zone-IsSafe (c.matches d.zones.names r.qname) dz r d h
                (law d.zones.names r.qname
                  (λ x. false≢true (sym p ∙ (eq_iff (c.matches d.zones.names r.qname) "").1 x)))
                q))
    ]
  ]
