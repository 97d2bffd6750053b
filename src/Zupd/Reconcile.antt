-- ===== src/Zupd/Reconcile.antt =====
-- The controller that follows the `Zone` objects (zone_controller.go). The zone table's lock is
-- held over the whole change, so one call is one step.
pub mod Effects
pub mod Beginnings
use ksdns.Prelude.{
  ℕ, String, Bool, true, false, Option, none, some, List, [], ◌∷◌, ◌++◌, ◌&&◌, not, ◌==◌,
  if◌then◌else◌, is_some,
}
use ksdns.Prelude.Go.{Error, is_not_found, Result, ok, err}
use ksdns.Prelude.Maps.{set}
use ksdns.Zupd.Coredns.{Coredns, Zone}
use ksdns.Zupd.Zones.{Zones, delete_zone}
use ksdns.Zupd.State.{DynamicUpdate}

-- `IsZero` of the deletion time: nil, or the zero time.
abbrev is_zero : Option ℕ → Bool
is_zero none = true
is_zero (some t) = t == 0

unfoldable pub is_deleting : Zone → Bool
is_deleting zone = not (is_zero zone.deletion_timestamp)

module _ (c : Coredns) where
  open c use {FileZone, fqdn}

  -- A zone that the table does not have gets an entry and an empty dynamic zone; of one that it
  -- has only the static zone changes.
  unfoldable pub put_zone : String → FileZone → Zones FileZone → Zones FileZone
  put_zone name parsed zs =
      if is_some (zs.z name) then record zs { z = set name parsed zs.z } else record {
        z = set name parsed zs.z;
        names = zs.names ++ name ∷ [];
        dynamic_zones = set name (c.new_zone name) zs.dynamic_zones;
      }

  -- `r.transfer.Notify`, which does nothing on a nil transfer.
  abbrev send_notify : String → DynamicUpdate c → DynamicUpdate c
  send_notify zone d = record d {
    notified = if d.has_transfer then zone ∷ d.notified else d.notified;
  }

  -- From the lock to the end: `file.Parse`, the table and the NOTIFY.
  unfoldable pub load_object : Zone → DynamicUpdate c → Option Error × DynamicUpdate c
  load_object zone d = elim (c.parse_zone zone.spec.zone (fqdn zone.name)) [
    | err e ↦ (some e, d)
    | ok parsed ↦ (
      none,
      send_notify (fqdn zone.name) (record d { zones = put_zone (fqdn zone.name) parsed d.zones }),
    )
  ]

  unfoldable pub reconcile : String → String → DynamicUpdate c → Option Error × DynamicUpdate c
  reconcile namespace name d = elim (c.get_zone d.cluster namespace name) [
    | err e ↦ (if is_not_found e then none else some e, d)
    | ok zone ↦
        if is_deleting zone && is_some (d.zones.z (fqdn zone.name))
        then (none, record d { zones = delete_zone (fqdn zone.name) d.zones })
        else load_object zone d
  ]
