-- ===== src/Zupd/Serve/Serials.antt =====
-- The serial that an update gives to the zone, and the zone that a query is answered from.
use ksdns.Prelude.{
  ℕ, String, ◌≡◌, ◌≢◌, sym, ap, ◌∙◌, subst, false, Option, some, List, [], ◌∷◌, arith, concat,
  eq_iff, eq_refl, is_some, Bool-cases, Option-cases, inl, inr, ◌⊎◌, In, ◌↔◌,
}
use ksdns.Prelude.Go.{Error, ok, ok-injective}
use ksdns.Zupd.Coredns.{Coredns, FileZoneLaws}
use ksdns.Zupd.Dns
use ksdns.Zupd.Invariant.{IsServable}
use ksdns.Zupd.State.{Request, Reply, DynamicUpdate, rcode}
use ksdns.Zupd.Merge.{merge, insert_each}
use ksdns.Zupd.Merge.Contents.{Holds, merge_found, merge-apex, merge-Holds_iff}
use ksdns.Zupd.Update.Effects.{zone_of, origin-apply_questions}
use ksdns.Zupd.Serve.{
  soa_serial, store_dynamic, write_serial, handle_update, answer_from, answer_query, serve_zone,
  serve_dns, set_serials,
}
use ksdns.Zupd.Serve.Outcomes.{updated, finish_update_success, handle_update_finishes}

module _ (c : Coredns) where
  open c use {FileZone, Rr}

  set_serials_keeps :
      (z : FileZone) (rs : List Rr) (serial a : ℕ) (heap : ℕ → ℕ)
      → heap a ≡ serial
      → (set_serials c z rs serial heap).0 a ≡ serial
  unfolding set_serials
  set_serials_keeps z [] serial a heap h = h
  set_serials_keeps z (r ∷ rs) serial a heap h = elim (Option-cases (c.soa_address r)) [
    | inl p ↦ rw (p, set_serials) (set_serials_keeps z rs serial a heap h)
    | inr (b, p) ↦
        let written : write_serial c b serial heap a ≡ serial = ground arith in
        elim (Bool-cases (is_some (c.insert z r).1)) [
          | inl q ↦ rw (p, set_serials) (rw q written)
          | inr q ↦
              rw (p, set_serials)
                (rw q (
                  set_serials_keeps (c.insert z r).0 rs serial a (write_serial c b serial heap)
                    written))
        ]
  ]

  write_serial_self : (a serial : ℕ) (heap : ℕ → ℕ) → write_serial c a serial heap a ≡ serial
  write_serial_self a serial heap = ground arith

  -- If no insertion fails, each SOA record of the list has the serial.
  set_serials_writes :
      (z : FileZone) (rs : List Rr) (serial a : ℕ) (heap : ℕ → ℕ) (r : Rr)
      → (set_serials c z rs serial heap).1 ≡ false
      → In r rs
      → c.soa_address r ≡ some a
      → (set_serials c z rs serial heap).0 a ≡ serial
  unfolding set_serials
  set_serials_writes z [] serial a heap r h i e = absurd i
  set_serials_writes z (x ∷ xs) serial a heap r h (inl i) e =
      let p : c.soa_address x ≡ some a = ap c.soa_address (sym i) ∙ e in
      elim (Bool-cases (is_some (c.insert z x).1)) [
        | inl q ↦ absurd (ground arith)
        | inr q ↦
            rw (p, set_serials)
              (rw q (
                set_serials_keeps (c.insert z x).0 xs serial a (write_serial c a serial heap)
                  (write_serial_self a serial heap)))
      ]
  set_serials_writes z (x ∷ xs) serial a heap r h (inr i) e =
      elim (Option-cases (c.soa_address x)) [
        | inl p ↦
            rw (p, set_serials)
              (set_serials_writes z xs serial a heap r (rw (p, set_serials) at h) i e)
        | inr (b, p) ↦ elim (Bool-cases (is_some (c.insert z x).1)) [
          | inl q ↦ absurd (ground arith)
          | inr q ↦
              rw (p, set_serials)
                (rw q (
                  set_serials_writes (c.insert z x).0 xs serial a (write_serial c b serial heap) r
                    (rw q at (rw (p, set_serials) at h)) i e))
        ]
      ]

module _ (c : Coredns) (laws : FileZoneLaws c) (write_msg : Reply c → Option Error) (now : ℕ) where
  open c use {FileZone, Rr}
  open laws use {origin}

  module _ (zone : String) (s dz : FileZone) (r : Request c) (d : DynamicUpdate c)
      (h : IsServable origin d.zones) (static : d.zones.z zone ≡ some s)
      (dynamic : d.zones.dynamic_zones zone ≡ some dz) where
    -- For a zone that has a static and a dynamic part of its origin: after an update that answers
    -- success, every SOA record of the static part's apex holds the serial that the update wrote to
    -- the object's status.
    pub update_sets_serial :
        (apex : List Rr) (soa : Rr) (a : ℕ)
        → (handle_update c write_msg now zone dz r d).0 ≡ rcode Dns.rcode_success
        → c.apex_if_defined s ≡ ok apex
        → In soa apex
        → c.soa_address soa ≡ some a
        → (handle_update c write_msg now zone dz r d).1.soa_serials a ≡ soa_serial now
    update_sets_serial apex soa a success has i e =
        let (dz', obj, applied, found, stored, run) =
          handle_update_finishes c write_msg now zone dz r d success in
        let (m, apex', merged, has', fine, heap, _, _) =
          finish_update_success c write_msg now zone (soa_serial now)
            (updated c write_msg now obj dz' (soa_serial now) (store_dynamic c zone dz' d))
            (rw run at success) in
        let here : (store_dynamic c zone dz' d).zones.dynamic_zones zone ≡ some dz' =
          rw (eq_refl zone) in
        let o : origin dz' ≡ zone =
          subst (λ p. origin (zone_of p) ≡ zone) applied
            (origin-apply_questions c laws zone r.question dz r.ns
              (h.dynamic_origins zone dz dynamic)) in
        let same : c.apex_if_defined m ≡ c.apex_if_defined s =
          merge-apex c laws zone (store_dynamic c zone dz' d).zones s dz' m static here
            (h.static_origins zone s static ∙ sym o) merged in
        let equal : apex ≡ apex' = ok-injective (sym has ∙ sym same ∙ has') in
        ap (λ p. p.1.soa_serials a) run
        ∙ ap (λ f. f a) heap
        ∙ set_serials_writes c m apex' (soa_serial now) a d.soa_serials soa fine
            (subst (λ l. In soa l) equal i) e

    -- A request that is no update, NOTIFY or zone transfer, for a listed zone that has a static and
    -- a dynamic part of that origin, is answered by the lookup in a zone `m` that holds the records
    -- of the two parts and no others, and has the static part's apex.
    pub query_reads_merged :
        r.opcode ≢ Dns.opcode_update
        → r.opcode ≢ Dns.opcode_notify
        → r.qtype ≢ Dns.type_axfr
        → r.qtype ≢ Dns.type_ixfr
        → c.matches d.zones.names r.qname ≡ zone
        → zone ≢ ""
        → (m : FileZone) × ((x : Rr) → Holds c laws m x ↔ (Holds c laws s x ⊎ Holds c laws dz x))
          × (c.apex_if_defined m ≡ c.apex_if_defined s)
          × (serve_dns c write_msg now r d ≡ answer_from c write_msg m r d)
    unfolding serve_dns serve_zone answer_query
    query_reads_merged u n x y match some_zone =
        let m = insert_each c (insert_each c (c.copy s) (concat (c.all s))) (concat (c.all dz)) in
        let merged : merge c zone d.zones ≡ some m =
          merge_found c laws zone d.zones s dz static dynamic in
        let same = h.static_origins zone s static ∙ sym (h.dynamic_origins zone dz dynamic) in
        (
          m,
          merge-Holds_iff c laws zone d.zones s dz m static dynamic same merged,
          merge-apex c laws zone d.zones s dz m static dynamic same merged,
          ground (arith, eq_iff zone ""),
        )
