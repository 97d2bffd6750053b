-- ===== src/Zupd/Reconcile/Beginnings.antt =====
-- A zone that the table does not have comes to it at the start (`initialize`, setup.go) or by an
-- event of its object (`Reconcile`, zone_controller.go).
use ksdns.Prelude.{String, ◌≡◌, refl, ap, ◌∙◌, none, some, eq_refl, false, inl, inr}
use ksdns.Prelude.Go.{ok, Result-cases}
use ksdns.Prelude.Maps.{set}
use ksdns.Zupd.Coredns.{Coredns, Zone}
use ksdns.Zupd.Zones.{Zones}
use ksdns.Zupd.State.{DynamicUpdate}
use ksdns.Zupd.Initialize.{load_zone, restore_zone, restore_rrs, loaded}
use ksdns.Zupd.Reconcile.{is_deleting, put_zone, load_object, reconcile}

module _ (c : Coredns) where
  open c use {FileZone, fqdn}

  load_object-load_zone :
      (obj : Zone) (d : DynamicUpdate c)
      → d.zones.z (fqdn obj.name) ≡ none
      → (load_object c obj d).1.zones ≡ load_zone c d.zones obj
  unfolding load_object load_zone put_zone
  load_object-load_zone obj d unknown =
      elim (Result-cases (c.parse_zone obj.spec.zone (fqdn obj.name))) [
        | inl (e, p) ↦ rw (p, load_object, unknown) refl
        | inr (parsed, p) ↦ rw (p, load_object, unknown) refl
      ]

  pub reconcile-live :
      (namespace name : String) (obj : Zone) (d : DynamicUpdate c)
      → c.get_zone d.cluster namespace name ≡ ok obj
      → is_deleting obj ≡ false
      → reconcile c namespace name d ≡ load_object c obj d
  unfolding reconcile
  reconcile-live namespace name obj d found live = rw (found, reconcile) (rw live refl)

  load_zone_entry :
      (obj : Zone) (zs : Zones FileZone) (parsed : FileZone)
      → zs.z (fqdn obj.name) ≡ none
      → c.parse_zone obj.spec.zone (fqdn obj.name) ≡ ok parsed
      → ((load_zone c zs obj).z (fqdn obj.name) ≡ some parsed)
        × ((load_zone c zs obj).dynamic_zones (fqdn obj.name) ≡ some (c.new_zone (fqdn obj.name)))
  unfolding load_zone
  load_zone_entry obj zs parsed unknown p = (
    rw (unknown, p) (rw (eq_refl (fqdn obj.name)) refl),
    rw (unknown, p) (rw (eq_refl (fqdn obj.name)) refl),
  )

  restore_zone_entry :
      (obj : Zone) (zs : Zones FileZone) (parsed dz dz' : FileZone)
      → zs.z (fqdn obj.name) ≡ some parsed
      → zs.dynamic_zones (fqdn obj.name) ≡ some dz
      → restore_rrs c dz obj.status.dynamic_rrs ≡ some dz'
      → (zs' : Zones FileZone) × (restore_zone c zs obj ≡ loaded zs')
        × (zs'.dynamic_zones (fqdn obj.name) ≡ some dz')
  unfolding restore_zone
  restore_zone_entry obj zs parsed dz dz' known dynamic read = (
    record zs { dynamic_zones = set (fqdn obj.name) dz' zs.dynamic_zones },
    rw (known, dynamic, read) refl,
    rw (eq_refl (fqdn obj.name)) refl,
  )

  -- For an object that is not being deleted, of a name that the table does not have: its event does
  -- to the table just what the first loop of the start does with the object, whether its text parses
  -- or not. The second loop has no counterpart: where the text parses, the event leaves the dynamic
  -- zone new, and the start goes on to read the records of the status back into it, unless one of
  -- the texts has no record.
  pub event_skips_status :
      (namespace name : String) (obj : Zone) (d : DynamicUpdate c)
      → c.get_zone d.cluster namespace name ≡ ok obj
      → is_deleting obj ≡ false
      → d.zones.z (fqdn obj.name) ≡ none
      → ((reconcile c namespace name d).1.zones ≡ load_zone c d.zones obj)
        × ((parsed : FileZone)
            → c.parse_zone obj.spec.zone (fqdn obj.name) ≡ ok parsed
            → ((reconcile c namespace name d).1.zones.dynamic_zones (fqdn obj.name)
                ≡ some (c.new_zone (fqdn obj.name)))
              × ((dz : FileZone)
                  → restore_rrs c (c.new_zone (fqdn obj.name)) obj.status.dynamic_rrs ≡ some dz
                  → (zs : Zones FileZone) × (restore_zone c (load_zone c d.zones obj) obj
                      ≡ loaded zs)
                    × (zs.dynamic_zones (fqdn obj.name) ≡ some dz)))
  event_skips_status namespace name obj d found live unknown =
      let alike : (reconcile c namespace name d).1.zones ≡ load_zone c d.zones obj =
        ap (λ e. e.1.zones) (reconcile-live namespace name obj d found live)
        ∙ load_object-load_zone obj d unknown in
      (
        alike,
        λ parsed parses.
            let (known, dynamic) = load_zone_entry obj d.zones parsed unknown parses in
            (
              ap (λ zs. zs.dynamic_zones (fqdn obj.name)) alike ∙ dynamic,
              λ dz.
                  restore_zone_entry obj (load_zone c d.zones obj) parsed
                    (c.new_zone (fqdn obj.name)) dz known dynamic,
            ),
      )
