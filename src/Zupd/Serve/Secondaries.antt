-- ===== src/Zupd/Serve/Secondaries.antt =====
-- From an update to the zone transfers that follow it: `ServeDNS` (dynamicupdate.go), `Merge`
-- (merge.go) and `Transfer` (xfer.go).
use ksdns.Prelude.{
  ℕ, String, ◌≡◌, sym, ap, ◌∙◌, subst, true, Option, some, List, ◌∷◌, arith, In, ◌⊎◌, ◌↔◌, eq_refl,
  concat,
}
use ksdns.Prelude.Go.{Error, ok}
use ksdns.Zupd.Coredns.{Coredns, FileZoneLaws}
use ksdns.Zupd.Dns
use ksdns.Zupd.Invariant.{IsServable}
use ksdns.Zupd.State.{Request, Reply, DynamicUpdate, rcode}
use ksdns.Zupd.Zones.{Zones}
use ksdns.Zupd.Merge.{merge, insert_each, transfer}
use ksdns.Zupd.Merge.Contents.{Holds, merge_found, merge-apex, merge-Holds_iff}
use ksdns.Zupd.Update.{continue, apply_questions}
use ksdns.Zupd.Update.Effects.{zone_of, origin-apply_questions}
use ksdns.Zupd.Serve.{soa_serial, store_dynamic, finish_update, handle_update}
use ksdns.Zupd.Serve.Outcomes.{updated, handle_update_finishes}
use ksdns.Zupd.Serve.Serials.{update_sets_serial}

module _ (c : Coredns) where
  open c use {FileZone, Rr}

  transfer_found :
      (zs : Zones FileZone) (zone : String) (m : FileZone) (serial : ℕ)
      → merge c zone zs ≡ some m
      → transfer c zs zone serial ≡ c.transfer_zone m serial
  unfolding transfer
  transfer_found zs zone m serial e = rw (e, transfer)

  module _ (write_msg : Reply c → Option Error) (zone : String) (serial : ℕ) (d : DynamicUpdate c)
      (success : (finish_update c write_msg zone serial d).0 ≡ rcode Dns.rcode_success) where
    zones-finish_update : (finish_update c write_msg zone serial d).1.zones ≡ d.zones
    unfolding finish_update
    zones-finish_update = ground arith

    notified-finish_update :
        d.has_transfer ≡ true
        → (finish_update c write_msg zone serial d).1.notified ≡ zone ∷ d.notified
    unfolding finish_update
    notified-finish_update has = ground arith

module _ (c : Coredns) (laws : FileZoneLaws c) (write_msg : Reply c → Option Error) (now : ℕ) where
  open c use {FileZone, Rr}
  open laws use {origin}

  module _ (zone : String) (s dz : FileZone) (r : Request c) (d : DynamicUpdate c)
      (h : IsServable origin d.zones) (static : d.zones.z zone ≡ some s)
      (dynamic : d.zones.dynamic_zones zone ≡ some dz) where
    -- For a zone that has a static and a dynamic part of its origin, and with the transfer plugin:
    -- an update that answers success sends one NOTIFY for the zone, and a transfer that follows, from
    -- whatever serial, is one of a zone `m` that holds the static records and those of the dynamic
    -- zone as the update left it, and no others, under the static zone's apex, whose SOA record has
    -- the update's serial.
    pub update_reaches_secondaries :
        (apex : List Rr) (soa : Rr) (a : ℕ)
        → (handle_update c write_msg now zone dz r d).0 ≡ rcode Dns.rcode_success
        → d.has_transfer ≡ true
        → c.apex_if_defined s ≡ ok apex
        → In soa apex
        → c.soa_address soa ≡ some a
        → (m : FileZone) × (dz' : FileZone) × (apply_questions c r.question dz r.ns ≡ continue dz')
          × ((handle_update c write_msg now zone dz r d).1.notified ≡ zone ∷ d.notified)
          × ((serial : ℕ)
              → transfer c (handle_update c write_msg now zone dz r d).1.zones zone serial
                ≡ c.transfer_zone m serial)
          × ((x : Rr) → Holds c laws m x ↔ (Holds c laws s x ⊎ Holds c laws dz' x))
          × (c.apex_if_defined m ≡ ok apex)
          × ((handle_update c write_msg now zone dz r d).1.soa_serials a ≡ soa_serial now)
    update_reaches_secondaries apex soa a success has_transfer has i e =
        let (dz', obj, applied, found, stored, run) =
          handle_update_finishes c write_msg now zone dz r d success in
        let saved = updated c write_msg now obj dz' (soa_serial now) (store_dynamic c zone dz' d) in
        let here : saved.zones.dynamic_zones zone ≡ some dz' = rw (eq_refl zone) in
        let o : origin dz' ≡ zone =
          subst (λ p. origin (zone_of p) ≡ zone) applied
            (origin-apply_questions c laws zone r.question dz r.ns
              (h.dynamic_origins zone dz dynamic)) in
        let same = h.static_origins zone s static ∙ sym o in
        let m = insert_each c (insert_each c (c.copy s) (concat (c.all s))) (concat (c.all dz')) in
        let merged : merge c zone saved.zones ≡ some m =
          merge_found c laws zone saved.zones s dz' static here in
        let finished = rw run at success in
        let zones =
          ap (λ p. p.1.zones) run
          ∙ zones-finish_update c write_msg zone (soa_serial now) saved finished in
        (
          m,
          dz',
          applied,
          ap (λ p. p.1.notified) run
              ∙ notified-finish_update c write_msg zone (soa_serial now) saved finished
                  has_transfer,
          λ serial.
              ap (λ zs. transfer c zs zone serial) zones
              ∙ transfer_found c saved.zones zone m serial merged,
          merge-Holds_iff c laws zone saved.zones s dz' m static here same merged,
          merge-apex c laws zone saved.zones s dz' m static here same merged ∙ has,
          update_sets_serial c laws write_msg now zone s dz r d h static dynamic apex soa a success
              has i e,
        )
