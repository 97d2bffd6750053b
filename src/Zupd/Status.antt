-- ===== src/Zupd/Status.antt =====
-- The methods of a zone's status that take and give its dynamic records
-- (pkg/zupd/api/v1alpha1/zone_types.go).
use ksdns.Prelude.{String, ◌≡◌, refl, ap, Option, none, some, List, [], ◌∷◌, map, concat, In, ◌↔◌}
use ksdns.Zupd.Coredns.{Coredns, FileZoneLaws, ReadsBack, ZoneStatus}
use ksdns.Zupd.Merge.Contents.{Holds}
use ksdns.Zupd.Initialize.{restore_rrs}
use ksdns.Zupd.Restart.{HoldsText, restart_restores}

module _ (c : Coredns) where
  open c use {FileZone, Rr}

  unfoldable pub set_dynamic_rrs : List Rr → ZoneStatus → ZoneStatus
  set_dynamic_rrs rrs status = record status {
    dynamic_rrs = map (λ r. record { rr = c.rr_string r }) rrs;
  }

  -- A zone whose tree has no element is given as nil.
  abbrev if_any : List (List Rr) → FileZone → Option FileZone
  if_any [] z = none
  if_any (e ∷ es) z = some z

  -- The loop is the one of `initialize`, on a new zone; `none` where it panics.
  unfoldable pub get_dynamic_rrs_as_zone : ZoneStatus → String → Option (Option FileZone)
  get_dynamic_rrs_as_zone status name = elim (restore_rrs c (c.new_zone name) status.dynamic_rrs) [
    | none ↦ none
    | some z ↦ some (if_any (c.all z) z)
  ]

  if_any-some :
      (z : FileZone) (es : List (List Rr)) (x : Rr) → In x (concat es) → if_any es z ≡ some z
  if_any-some z [] x h = absurd h
  if_any-some z (e ∷ es) x h = refl

module _ (c : Coredns) (laws : FileZoneLaws c) (reads : ReadsBack c) where
  open c use {FileZone, Rr}

  -- The records of a zone that has one, set in a status and taken back under the zone's origin,
  -- come as a zone with records of exactly the same texts.
  pub set_dynamic_rrs_roundtrip :
      (dz : FileZone) (status : ZoneStatus) (x : Rr)
      → Holds c laws dz x
      → (z : FileZone) × (get_dynamic_rrs_as_zone c
            (set_dynamic_rrs c (concat (c.all dz)) status)
            (laws.origin dz)
          ≡ some (some z))
        × ((t : String) → HoldsText c laws reads z t ↔ HoldsText c laws reads dz t)
  unfolding set_dynamic_rrs get_dynamic_rrs_as_zone
  set_dynamic_rrs_roundtrip dz status x h =
      let (z, read, same) = restart_restores c laws reads (laws.origin dz) dz status.serial refl in
      let (y, held, _) = (same (c.rr_string x)).1 (x, h, refl) in
      (z, rw (read, get_dynamic_rrs_as_zone) (ap some (if_any-some c z (c.all z) y held)), same)
