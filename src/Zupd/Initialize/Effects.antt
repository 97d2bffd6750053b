-- ===== src/Zupd/Initialize/Effects.antt =====
-- The table of zones that `initialize` builds, and the records that it takes back from a status.
use ksdns.Prelude.{
  String, ◌≡◌, refl, sym, ap, ◌∙◌, none, some, some-injective, List, [], ◌∷◌, arith, is_some,
  Bool-cases, Option-cases, inl, inr,
}
use ksdns.Prelude.Go.{Result-cases}
use ksdns.Zupd.Coredns.{Coredns, FileZoneLaws, Zone, DynamicRr}
use ksdns.Zupd.Zones.{Zones}
use ksdns.Zupd.Invariant.{IsServable, IsServable-add, IsServable-set_dynamic}
use ksdns.Zupd.Initialize.{
  Loaded, loaded, failed, nil_pointer, nil_record, and_then, read_namespaces, load_zone, load_zones,
  restore_rrs, restore_zone, restore_zones, load_namespaces, initialize, no_zones,
}

-- The table is one that satisfies the predicate, if there is one; no zone that is nil was met.
abbrev pub Loads : {F : Type 0} → (Zones F → Type 0) → Loaded F → Type 0
Loads P (loaded zs) = P zs
Loads P (failed e) = Unit
Loads P nil_pointer = ⊥
Loads P nil_record = Unit

Loads-and_then :
    {F : Type 0} (P : Zones F → Type 0) (m : Loaded F) (f : Zones F → Loaded F)
    → Loads P m
    → ((zs : Zones F) → P zs → Loads P (f zs))
    → Loads P (and_then m f)
Loads-and_then P (loaded zs) f h k = k zs h
Loads-and_then P (failed e) f h k = h
Loads-and_then P nil_pointer f h k = h
Loads-and_then P nil_record f h k = h

module _ (c : Coredns) (laws : FileZoneLaws c) where
  open c use {FileZone, Cluster, fqdn}
  open laws use {origin}

  load_zone-IsServable :
      (zs : Zones FileZone) (zone : Zone)
      → IsServable origin zs
      → IsServable origin (load_zone c zs zone)
  unfolding load_zone
  load_zone-IsServable zs zone h = elim (Bool-cases (is_some (zs.z (fqdn zone.name)))) [
    | inl e ↦ rw e h
    | inr e ↦ elim (Result-cases (c.parse_zone zone.spec.zone (fqdn zone.name))) [
      | inl (_, p) ↦ rw (e, p) h
      | inr (parsed, p) ↦
          rw (e, p)
            (IsServable-add origin (fqdn zone.name) parsed zs (laws.origin-parse_zone _ _ _ p) h
              (c.new_zone (fqdn zone.name)) (laws.origin-new_zone _) e)
    ]
  ]

  load_zones-IsServable :
      (zs : Zones FileZone) (items : List Zone)
      → IsServable origin zs
      → IsServable origin (load_zones c zs items)
  unfolding load_zones
  load_zones-IsServable zs [] h = h
  load_zones-IsServable zs (zone ∷ items) h =
      load_zones-IsServable (load_zone c zs zone) items (load_zone-IsServable zs zone h)

  origin-restore_rrs :
      (dz dz' : FileZone) (rrs : List DynamicRr)
      → restore_rrs c dz rrs ≡ some dz'
      → origin dz' ≡ origin dz
  unfolding restore_rrs
  origin-restore_rrs dz dz' [] h = ap origin (sym (some-injective h))
  origin-restore_rrs dz dz' (rr ∷ rrs) h = elim (Result-cases (c.new_rr rr.rr)) [
    | inl (_, p) ↦ origin-restore_rrs dz dz' rrs (rw (p, restore_rrs) at h)
    | inr (r, p) ↦ elim (Option-cases r) [
      | inl q ↦ let panics : none ≡ some dz' = rw (p, q, restore_rrs) at h in absurd (cc)
      | inr (r', q) ↦
          origin-restore_rrs (c.insert dz r').0 dz' rrs (rw (p, q, restore_rrs) at h)
          ∙ laws.origin-insert dz r'
    ]
  ]

  restore_zone-IsServable :
      (zs : Zones FileZone) (zone : Zone)
      → IsServable origin zs
      → Loads (IsServable origin) (restore_zone c zs zone)
  unfolding restore_zone
  restore_zone-IsServable zs zone h = elim (Bool-cases (is_some (zs.z (fqdn zone.name)))) [
    | inr e ↦ rw e h
    | inl e ↦ elim (Option-cases (zs.dynamic_zones (fqdn zone.name))) [
      | inl p ↦ absurd (ground (arith, h.consistent.same_keys (fqdn zone.name)))
      | inr (dz, p) ↦ elim (Option-cases (restore_rrs c dz zone.status.dynamic_rrs)) [
        | inl q ↦ rw (e, p, q) tt
        | inr (dz', q) ↦
            rw (e, p, q)
              (IsServable-set_dynamic origin (fqdn zone.name) dz' zs
                (origin-restore_rrs dz dz' zone.status.dynamic_rrs q ∙ h.dynamic_origins _ dz p) h
                (ap is_some p))
      ]
    ]
  ]

  restore_zones-IsServable :
      (zs : Zones FileZone) (items : List Zone)
      → IsServable origin zs
      → Loads (IsServable origin) (restore_zones c zs items)
  unfolding restore_zones
  restore_zones-IsServable zs [] h = h
  restore_zones-IsServable zs (zone ∷ items) h =
      Loads-and_then (IsServable origin) (restore_zone c zs zone) _
        (restore_zone-IsServable zs zone h) (λ zs' h'. restore_zones-IsServable zs' items h')

  load_namespaces-IsServable :
      (k : Cluster) (zs : Zones FileZone) (namespaces : List String)
      → IsServable origin zs
      → Loads (IsServable origin) (load_namespaces c k zs namespaces)
  unfolding load_namespaces
  load_namespaces-IsServable k zs [] h = h
  load_namespaces-IsServable k zs (n ∷ namespaces) h = elim (Result-cases (c.list_zones k n)) [
    | inl (_, p) ↦ rw (p, load_namespaces) tt
    | inr (items, p) ↦
        rw (p, load_namespaces)
          (Loads-and_then (IsServable origin) (restore_zones c (load_zones c zs items) items) _
            (restore_zones-IsServable (load_zones c zs items) items
              (load_zones-IsServable zs items h))
            (λ zs' h'. load_namespaces-IsServable k zs' namespaces h'))
  ]

  -- Whatever the configuration and the cluster, `initialize` meets no zone that is nil, and a table
  -- that it returns lists each of its zones once, has a dynamic zone for each static one, and has each
  -- zone under its origin.
  pub initialize-IsServable :
      (k : Cluster) (lines : List (List String)) → Loads (IsServable origin) (initialize c k lines)
  unfolding initialize
  initialize-IsServable k lines = elim (Result-cases (read_namespaces [] lines)) [
    | inl (_, p) ↦ rw (p, initialize) tt
    | inr (namespaces, p) ↦
        rw (p, initialize)
          (load_namespaces-IsServable k (no_zones c) namespaces (record {
            consistent = record { listed_once = λ n. refl; same_keys = λ n. refl };
            static_origins = λ n z e. cc;
            dynamic_origins = λ n z e. cc;
          }))
  ]
