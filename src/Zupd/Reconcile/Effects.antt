-- ===== src/Zupd/Reconcile/Effects.antt =====
-- What one call of the zone controller does.
use ksdns.Prelude.{
  ◌∷◌, String, ◌≡◌, true, false, none, some, arith, str_eq, eq_refl, not, ◌&&◌, if◌then◌else◌,
  is_some, Bool-cases, inl, inr,
}
use ksdns.Prelude.Go.{Error, ok, Result-cases}
use ksdns.Zupd.Coredns.{Coredns, FileZoneLaws, Zone}
use ksdns.Zupd.Zones.{Zones, delete_zone}
use ksdns.Zupd.Invariant.{IsServable, IsServable-set_static, IsServable-add, IsServable-delete}
use ksdns.Zupd.State.{DynamicUpdate}
use ksdns.Zupd.Reconcile.{is_deleting, put_zone, load_object, reconcile}

module _ (c : Coredns) (laws : FileZoneLaws c) where
  open laws use {origin}

  put_zone-IsServable :
      (n : String) (z : c.FileZone) (zs : Zones c.FileZone)
      → origin z ≡ n
      → IsServable origin zs
      → IsServable origin (put_zone c n z zs)
  unfolding put_zone
  put_zone-IsServable n z zs o h = elim (Bool-cases (is_some (zs.z n))) [
    | inl e ↦ rw e (IsServable-set_static origin n z zs o h e)
    | inr e ↦ rw e (IsServable-add origin n z zs o h (c.new_zone n) (laws.origin-new_zone n) e)
  ]

  load_object-IsServable :
      (zone : Zone) (d : DynamicUpdate c)
      → IsServable origin d.zones
      → IsServable origin (load_object c zone d).1.zones
  unfolding load_object
  load_object-IsServable zone d h =
      elim (Result-cases (c.parse_zone zone.spec.zone (c.fqdn zone.name))) [
        | inl (e, p) ↦ rw (p, load_object) h
        | inr (parsed, p) ↦
            rw (p, load_object)
              (put_zone-IsServable (c.fqdn zone.name) parsed d.zones
                (laws.origin-parse_zone _ _ _ p) h)
      ]

  -- Whatever the cluster says of the object, one call of the zone controller keeps the table of
  -- zones consistent, each zone under its origin.
  pub reconcile-IsServable :
      (namespace name : String) (d : DynamicUpdate c)
      → IsServable origin d.zones
      → IsServable origin (reconcile c namespace name d).1.zones
  unfolding reconcile
  reconcile-IsServable namespace name d h =
      elim (Result-cases (c.get_zone d.cluster namespace name)) [
        | inl (e, p) ↦ rw (p, reconcile) h
        | inr (zone, p) ↦
            elim (Bool-cases (is_deleting zone && is_some (d.zones.z (c.fqdn zone.name)))) [
              | inl gone ↦
                  rw (p, reconcile)
                    (rw gone (IsServable-delete origin (c.fqdn zone.name) d.zones h))
              | inr live ↦ rw (p, reconcile) (rw live (load_object-IsServable zone d h))
            ]
      ]

module _ (c : Coredns) (namespace name : String) (d : DynamicUpdate c) where
  -- A call that returns an error has changed nothing.
  reconcile_error_keeps :
      (e : Error) → (reconcile c namespace name d).0 ≡ some e → (reconcile c namespace name d).1 ≡ d
  unfolding reconcile load_object
  reconcile_error_keeps e h = ground arith

  module _ (zone : Zone) (found : c.get_zone d.cluster namespace name ≡ ok zone)
      (parsed : c.FileZone)
      (parses : c.parse_zone zone.spec.zone (c.fqdn zone.name) ≡ ok parsed) where
    -- For an object that is found, is not being deleted, and whose text parses, the call returns no
    -- error and the zone's static part is what was parsed; the dynamic part is kept if the zone was
    -- there and is a new one if not; no other name is touched.
    pub reconcile_applies :
        is_deleting zone ≡ false
        → (j : String)
        → ((reconcile c namespace name d).0 ≡ none)
          × ((reconcile c namespace name d).1.zones.z j
              ≡ (if str_eq (c.fqdn zone.name) j then some parsed else d.zones.z j))
          × ((reconcile c namespace name d).1.zones.dynamic_zones j ≡ (
              if str_eq (c.fqdn zone.name) j && not (is_some (d.zones.z (c.fqdn zone.name)))
              then some (c.new_zone (c.fqdn zone.name))
              else d.zones.dynamic_zones j))
    unfolding reconcile load_object put_zone
    reconcile_applies live j = ground arith

    -- Such a call sends one NOTIFY, for the zone, if there is the transfer plugin.
    pub reconcile_notifies :
        is_deleting zone ≡ false
        → (reconcile c namespace name d).1.notified
          ≡ (if d.has_transfer then c.fqdn zone.name ∷ d.notified else d.notified)
    unfolding reconcile load_object
    reconcile_notifies live = ground arith

    -- An object that is being deleted, whose text parses and whose zone is in the table, takes its
    -- zone out of the table at the first call, and puts it back at the second, as long as the
    -- object is still there.
    pub reconcile_deleting_twice :
        is_deleting zone ≡ true
        → is_some (d.zones.z (c.fqdn zone.name)) ≡ true
        → ((reconcile c namespace name d).1.zones.z (c.fqdn zone.name) ≡ none)
          × ((reconcile c namespace name (reconcile c namespace name d).1).1.zones.z
                (c.fqdn zone.name)
              ≡ some parsed)
    unfolding reconcile load_object put_zone delete_zone
    reconcile_deleting_twice gone there = ground (arith, eq_refl (c.fqdn zone.name))
