-- ===== src/Zupd/Serve/Order.antt =====
-- The serials of two updates in the order of RFC 1982, which secondaries compare them by
-- (dynamicupdate.go).
use ksdns.Prelude.{ℕ, String, ◌≡◌, ◌↔◌, ◌+◌, ◌-◌, ◌%◌, ◌<◌, Option, some, List, arith, In}
use ksdns.Prelude.Go.{Error, ok}
use ksdns.Zupd.Coredns.{Coredns, FileZoneLaws}
use ksdns.Zupd.Dns
use ksdns.Zupd.Invariant.{IsServable}
use ksdns.Zupd.State.{Request, Reply, DynamicUpdate, rcode}
use ksdns.Zupd.Serve.{soa_serial, handle_update}
use ksdns.Zupd.Serve.Serials.{update_sets_serial}

-- How far the serial `t` is ahead of `s` on the circle of 2³².
abbrev pub ahead : ℕ → ℕ → ℕ
ahead s t = (t + 4294967296 - s) % 4294967296

-- RFC 1982, section 3.2: `t` is greater than `s`.
abbrev pub Newer : ℕ → ℕ → Type 0
Newer s t = (0 < ahead s t) × (ahead s t < 2147483648)

ahead-soa_serial :
    (early late : ℕ)
    → early < late
    → late < early + 4294967296
    → ahead (soa_serial early) (soa_serial late) ≡ late - early
unfolding soa_serial
ahead-soa_serial early late p q = omega arith

soa_serial-Newer :
    (early late : ℕ)
    → early < late
    → late < early + 4294967296
    → Newer (soa_serial early) (soa_serial late) ↔ (late < early + 2147483648)
soa_serial-Newer early late p q =
    let e = ahead-soa_serial early late p q in
    ((λ (newer, near). omega arith), λ near. (omega arith, omega arith))

module _ (c : Coredns) (laws : FileZoneLaws c) (write_msg : Reply c → Option Error) where
  open c use {FileZone, Rr}
  open laws use {origin}

  -- Two updates of a zone that both answer success, at two times less than 2³² milliseconds apart,
  -- in two states with the same static part, whatever happened in between: the SOA serial after the
  -- later one is newer, in RFC 1982's order, than the one after the earlier exactly if the times are
  -- less than 2³¹ milliseconds, about 24.8 days, apart.
  pub serial_advances :
      (zone : String) (s dz dz' : FileZone) (r r' : Request c) (d d' : DynamicUpdate c)
      (apex : List Rr) (soa : Rr) (a early late : ℕ)
      → IsServable origin d.zones
      → IsServable origin d'.zones
      → d.zones.z zone ≡ some s
      → d'.zones.z zone ≡ some s
      → d.zones.dynamic_zones zone ≡ some dz
      → d'.zones.dynamic_zones zone ≡ some dz'
      → c.apex_if_defined s ≡ ok apex
      → In soa apex
      → c.soa_address soa ≡ some a
      → (handle_update c write_msg early zone dz r d).0 ≡ rcode Dns.rcode_success
      → (handle_update c write_msg late zone dz' r' d').0 ≡ rcode Dns.rcode_success
      → early < late
      → late < early + 4294967296
      → Newer
          ((handle_update c write_msg early zone dz r d).1.soa_serials a)
          ((handle_update c write_msg late zone dz' r' d').1.soa_serials a)
        ↔ (late < early + 2147483648)
  serial_advances zone s dz dz' r r' d d' apex soa a early late h h' static static' dynamic dynamic'
        has i e success success' p q =
      rw
        (update_sets_serial c laws write_msg early zone s dz r d h static dynamic apex soa a success
          has i e)
        (rw
          (update_sets_serial c laws write_msg late zone s dz' r' d' h' static' dynamic' apex soa a
            success' has i e)
          (soa_serial-Newer early late p q))
