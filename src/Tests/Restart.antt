-- ===== src/Tests/Restart.antt =====
-- The theorems on what is saved and read back, at the zone "a.".
use ksdns.Prelude.{◌≡◌, ◌↔◌, refl, String, List, All, str_eq, false, some, [], ◌∷◌, ◌++◌, inl}
use ksdns.Zupd.Coredns.{Zone, DynamicRr}
use ksdns.Zupd.Zones.{Zones}
use ksdns.Zupd.Serve.{handle_update}
use ksdns.Zupd.Initialize.{initialize, loaded}
use ksdns.Zupd.Initialize.Entries.{HasRecords}
use ksdns.Zupd.Restart.{HoldsText}
use ksdns.Zupd.Restart.Durability.{success_survives_restart}
use ksdns.Zupd.Status.{set_dynamic_rrs, get_dynamic_rrs_as_zone, set_dynamic_rrs_roundtrip}
use ksdns.Tests.Toy.{FileZone, address, toy, toy_laws, toy_reads, toy_lists}
use ksdns.Tests.Zupd.{object, static, dynamic, start, connection}
use ksdns.Tests.Updates.{addition, addition_succeeds}

set_dynamic_rrs_roundtrip_example :
    (z : FileZone) × (get_dynamic_rrs_as_zone toy
        (set_dynamic_rrs toy (dynamic.tree ++ []) object.status)
        "a."
      ≡ some (some z))
    × ((t : String)
        → HoldsText toy toy_laws toy_reads z t ↔ HoldsText toy toy_laws toy_reads dynamic t)
set_dynamic_rrs_roundtrip_example =
    set_dynamic_rrs_roundtrip toy toy_laws toy_reads dynamic object.status (address "dynamic")
      (inl refl)

-- Every text is read as a record.
all_read : (rrs : List DynamicRr) → HasRecords toy rrs
all_read [] = tt
all_read (rr ∷ rrs) = (λ h. cc, all_read rrs)

others_read :
    (items : List Zone)
    → All (λ z. str_eq z.name "a." ≡ false → HasRecords toy z.status.dynamic_rrs) items
others_read [] = tt
others_read (z ∷ items) = (λ other. all_read z.status.dynamic_rrs, others_read items)

success_survives_restart_example :
    (zs : Zones FileZone) × (z : FileZone) × (left : FileZone) × (initialize toy
        (handle_update toy connection 5000 "a." dynamic addition (start (object ∷ []))).1.cluster
        (("ns" ∷ []) ∷ [])
      ≡ loaded zs)
    × (zs.dynamic_zones "a." ≡ some z)
    × ((handle_update toy connection 5000 "a." dynamic addition
            (start (object ∷ []))).1.zones.dynamic_zones
          "a."
        ≡ some left)
    × ((t : String)
        → HoldsText toy toy_laws toy_reads z t ↔ HoldsText toy toy_laws toy_reads left t)
success_survives_restart_example =
    success_survives_restart toy toy_laws toy_reads toy_lists connection 5000 dynamic addition
      (start (object ∷ [])) object static refl refl refl refl addition_succeeds
      (λ items listed. others_read items)
