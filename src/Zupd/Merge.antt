-- ===== src/Zupd/Merge.antt =====
-- `Merge` (merge.go), and what is served from its result alone: `Transfer` (xfer.go); with them
-- `Reload` (reload.go), whose timer loop is commented out in the source.
pub mod Contents
use ksdns.Prelude.{ℕ, String, Option, none, some, List, [], ◌∷◌, concat, ◌==◌, if◌then◌else◌}
use ksdns.Prelude.Go.{Error, message, Result, ok, err}
use ksdns.Zupd.Coredns.{Coredns}
use ksdns.Zupd.Zones.{Zones}

module _ (c : Coredns) where
  open c use {FileZone, Rr, insert, all, copy}

  -- The two loops of `Merge`; a record that cannot be inserted is logged and skipped.
  unfoldable pub insert_each : FileZone → List Rr → FileZone
  insert_each z [] = z
  insert_each z (r ∷ rs) = insert_each (insert z r).0 rs

  unfoldable pub merge : String → Zones FileZone → Option FileZone
  merge origin zs = elim (zs.z origin) [
    | none ↦ none
    | some z ↦ elim (zs.dynamic_zones origin) [
      | none ↦ none
      | some dz ↦ some (insert_each (insert_each (copy z) (concat (all z))) (concat (all dz)))
    ]
  ]

  -- `ErrNotAuthoritative` of the transfer plugin.
  abbrev not_authoritative : Error
  not_authoritative = message "not authoritative for zone"

  unfoldable pub transfer : Zones FileZone → String → ℕ → Result c.Stream
  transfer zs zone serial = elim (merge zone zs) [
    | none ↦ err not_authoritative
    | some z ↦ c.transfer_zone z serial
  ]

  pub reload : Zones FileZone → String → Option Error
  reload zs zone_name = elim (zs.z zone_name) [
    | none ↦ some (message "zone not found")
    | some z ↦ if c.reload_interval z == 0 then none else none
  ]
