-- ===== src/Zupd/Initialize/Entries.antt =====
-- What `initialize` puts in the table under one name.
use ksdns.Prelude.{
  String, ◌≡◌, ◌≢◌, refl, ap, ◌∙◌, List, [], ◌∷◌, ◌++◌, inl, inr, All, Option, none, some, false,
  str_eq, arith, Bool-cases, Option-cases, eq_refl,
}
use ksdns.Prelude.Go.{ok, Result-cases}
use ksdns.Zupd.Coredns.{Coredns, Zone, DynamicRr}
use ksdns.Prelude.Go.{Error}
use ksdns.Zupd.Zones.{Zones}
use ksdns.Zupd.Initialize.{
  Loaded, loaded, failed, nil_pointer, nil_record, and_then, load_zone, load_zones, restore_rrs,
  restore_zone, restore_zones, load_namespaces, no_zones, initialize, read_namespaces,
}

module _ (c : Coredns) where
  open c use {FileZone, fqdn}

  -- Every text that parses has a record.
  abbrev pub HasRecords : List DynamicRr → Type 0
  HasRecords = All (λ rr. c.new_rr rr.rr ≢ ok none)

  -- Every text that parses, in the status of the other objects of the object's namespace, has a
  -- record.
  abbrev pub OthersHaveRecords : c.Cluster → Zone → Type 0
  OthersHaveRecords k obj =
      (items : List Zone)
      → c.list_zones k obj.namespace ≡ ok items
      → All (λ z. str_eq (fqdn z.name) (fqdn obj.name) ≡ false → HasRecords z.status.dynamic_rrs)
          items

  restore_rrs_total :
      (dz : FileZone) (rrs : List DynamicRr)
      → HasRecords rrs
      → (dz' : FileZone) × (restore_rrs c dz rrs ≡ some dz')
  unfolding restore_rrs
  restore_rrs_total dz [] h = (dz, refl)
  restore_rrs_total dz (rr ∷ rrs) (h, hs) = elim (Result-cases (c.new_rr rr.rr)) [
    | inl (_, p) ↦ rw (p, restore_rrs) (restore_rrs_total dz rrs hs)
    | inr (r, p) ↦ elim (Option-cases r) [
      | inl q ↦ absurd (h (p ∙ ap ok q))
      | inr (r', q) ↦ rw (p, q, restore_rrs) (restore_rrs_total (c.insert dz r').0 rrs hs)
    ]
  ]

  -- What a table has under a name.
  abbrev entry : String → Zones FileZone → Option FileZone × Option FileZone
  entry n zs = (zs.z n, zs.dynamic_zones n)

  load_zone-entry :
      (n : String) (zs : Zones FileZone) (zone : Zone)
      → str_eq (fqdn zone.name) n ≡ false
      → entry n (load_zone c zs zone) ≡ entry n zs
  unfolding load_zone
  load_zone-entry n zs zone h = ground arith

  load_zones-entry :
      (n : String) (zs : Zones FileZone) (items : List Zone)
      → All (λ zone. str_eq (fqdn zone.name) n ≡ false) items
      → entry n (load_zones c zs items) ≡ entry n zs
  unfolding load_zones
  load_zones-entry n zs [] h = refl
  load_zones-entry n zs (zone ∷ items) (h, hs) =
      load_zones-entry n (load_zone c zs zone) items hs ∙ load_zone-entry n zs zone h

  load_zones-append :
      (zs : Zones FileZone) (xs ys : List Zone)
      → load_zones c zs (xs ++ ys) ≡ load_zones c (load_zones c zs xs) ys
  unfolding load_zones
  load_zones-append zs [] ys = refl
  load_zones-append zs (x ∷ xs) ys = load_zones-append (load_zone c zs x) xs ys

  -- The object of a name that is not in the table and whose text parses gets both zones.
  load_zone-new :
      (zs : Zones FileZone) (zone : Zone) (parsed : FileZone)
      → zs.z (fqdn zone.name) ≡ none
      → c.parse_zone zone.spec.zone (fqdn zone.name) ≡ ok parsed
      → entry (fqdn zone.name) (load_zone c zs zone)
        ≡ (some parsed, some (c.new_zone (fqdn zone.name)))
  unfolding load_zone
  load_zone-new zs zone parsed h p = ground (arith, eq_refl (fqdn zone.name))

  restore_zone-entry :
      (n : String) (zs zs' : Zones FileZone) (zone : Zone)
      → str_eq (fqdn zone.name) n ≡ false
      → restore_zone c zs zone ≡ loaded zs'
      → entry n zs' ≡ entry n zs
  unfolding restore_zone
  restore_zone-entry n zs zs' zone h e = ground arith

  restore_zone-own :
      (zs zs' : Zones FileZone) (zone : Zone) (s dz : FileZone)
      → entry (fqdn zone.name) zs ≡ (some s, some dz)
      → restore_zone c zs zone ≡ loaded zs'
      → entry (fqdn zone.name) zs' ≡ (some s, restore_rrs c dz zone.status.dynamic_rrs)
  unfolding restore_zone
  restore_zone-own zs zs' zone s dz h e = ground (arith, eq_refl (fqdn zone.name))

  and_then-loaded :
      (m : Loaded FileZone) (f : Zones FileZone → Loaded FileZone) (zs : Zones FileZone)
      → and_then m f ≡ loaded zs
      → (mid : Zones FileZone) × (m ≡ loaded mid) × (f mid ≡ loaded zs)
  and_then-loaded (loaded mid) f zs h = (mid, refl, h)
  and_then-loaded (failed e) f zs h = absurd (cc)
  and_then-loaded nil_pointer f zs h = absurd (cc)
  and_then-loaded nil_record f zs h = absurd (cc)

  restore_zones-entry :
      (n : String) (zs zs' : Zones FileZone) (items : List Zone)
      → All (λ zone. str_eq (fqdn zone.name) n ≡ false) items
      → restore_zones c zs items ≡ loaded zs'
      → entry n zs' ≡ entry n zs
  unfolding restore_zones
  restore_zones-entry n zs zs' [] h e = cc
  restore_zones-entry n zs zs' (zone ∷ items) (h, hs) e =
      let (mid, first, rest) = and_then-loaded (restore_zone c zs zone) _ zs' e in
      restore_zones-entry n mid zs' items hs rest ∙ restore_zone-entry n zs mid zone h first

  restore_zones-own :
      (zs zs' : Zones FileZone) (before : List Zone) (zone : Zone) (behind : List Zone)
      (s dz : FileZone)
      → All (λ other. str_eq (fqdn other.name) (fqdn zone.name) ≡ false) before
      → All (λ other. str_eq (fqdn other.name) (fqdn zone.name) ≡ false) behind
      → entry (fqdn zone.name) zs ≡ (some s, some dz)
      → restore_zones c zs (before ++ zone ∷ behind) ≡ loaded zs'
      → entry (fqdn zone.name) zs' ≡ (some s, restore_rrs c dz zone.status.dynamic_rrs)
  unfolding restore_zones
  restore_zones-own zs zs' [] zone behind s dz hb ha h e =
      let (mid, first, rest) = and_then-loaded (restore_zone c zs zone) _ zs' e in
      restore_zones-entry (fqdn zone.name) mid zs' behind ha rest
      ∙ restore_zone-own zs mid zone s dz h first
  restore_zones-own zs zs' (other ∷ before) zone behind s dz (hb, hbs) ha h e =
      let (mid, first, rest) = and_then-loaded (restore_zone c zs other) _ zs' e in
      restore_zones-own mid zs' before zone behind s dz hbs ha
        (restore_zone-entry (fqdn zone.name) zs mid other hb first ∙ h) rest

  load_zones-own :
      (before : List Zone) (zone : Zone) (behind : List Zone) (parsed : FileZone)
      → All (λ other. str_eq (fqdn other.name) (fqdn zone.name) ≡ false) before
      → All (λ other. str_eq (fqdn other.name) (fqdn zone.name) ≡ false) behind
      → c.parse_zone zone.spec.zone (fqdn zone.name) ≡ ok parsed
      → entry (fqdn zone.name) (load_zones c (no_zones c) (before ++ zone ∷ behind))
        ≡ (some parsed, some (c.new_zone (fqdn zone.name)))
  unfolding load_zones
  load_zones-own before zone behind parsed hb ha p =
      let n = fqdn zone.name in
      let early = load_zones c (no_zones c) before in
      ap (entry n) (load_zones-append (no_zones c) before (zone ∷ behind))
      ∙ load_zones-entry n (load_zone c early zone) behind ha
      ∙ load_zone-new early zone parsed (ap (λ e. e.0) (load_zones-entry n (no_zones c) before hb))
          p

  pub load_namespaces_one :
      (k : c.Cluster) (ns : String) (items : List Zone)
      → c.list_zones k ns ≡ ok items
      → initialize c k ((ns ∷ []) ∷ [])
        ≡ and_then (restore_zones c (load_zones c (no_zones c) items) items) loaded
  unfolding initialize read_namespaces load_namespaces
  load_namespaces_one k ns items h = elim (Bool-cases (str_eq ns "*")) [
    | inl e ↦ rw (e, h, load_namespaces) refl
    | inr e ↦ rw (e, h, load_namespaces) refl
  ]

  -- What `initialize` builds of a namespace's objects, if it builds a table.
  pub restored_entry :
      (zs : Zones FileZone) (before : List Zone) (zone : Zone) (behind : List Zone)
      (parsed : FileZone)
      → All (λ other. str_eq (fqdn other.name) (fqdn zone.name) ≡ false) before
      → All (λ other. str_eq (fqdn other.name) (fqdn zone.name) ≡ false) behind
      → c.parse_zone zone.spec.zone (fqdn zone.name) ≡ ok parsed
      → and_then
          (restore_zones c
            (load_zones c (no_zones c) (before ++ zone ∷ behind))
            (before ++ zone ∷ behind))
          loaded
        ≡ loaded zs
      → zs.dynamic_zones (fqdn zone.name)
        ≡ restore_rrs c (c.new_zone (fqdn zone.name)) zone.status.dynamic_rrs
  restored_entry zs before zone behind parsed hb ha p e =
      let (mid, restored, same) = and_then-loaded _ loaded zs e in
      let built = load_zones c (no_zones c) (before ++ zone ∷ behind) in
      ap (λ t. t.1)
        (restore_zones-own built zs before zone behind parsed (c.new_zone (fqdn zone.name)) hb ha
          (load_zones-own before zone behind parsed hb ha p) (restored ∙ same))

  restore_zone_never_fails :
      (zs : Zones FileZone) (zone : Zone) (e : Error) → restore_zone c zs zone ≢ failed e
  unfolding restore_zone
  restore_zone_never_fails zs zone e h = ground arith

  restore_zone_no_nil_record :
      (zs : Zones FileZone) (zone : Zone)
      → HasRecords zone.status.dynamic_rrs
      → restore_zone c zs zone ≢ nil_record
  unfolding restore_zone
  restore_zone_no_nil_record zs zone has h =
      elim (Option-cases (zs.dynamic_zones (fqdn zone.name))) [
        | inl q ↦ ground arith
        | inr (dz, q) ↦
            let (dz', e) = restore_rrs_total dz zone.status.dynamic_rrs has in ground arith
      ]

  -- Where every text that parses has a record, no nil record is inserted.
  pub restore_zones_no_nil_record :
      (zs : Zones FileZone) (items : List Zone)
      → All (λ zone. HasRecords zone.status.dynamic_rrs) items
      → restore_zones c zs items ≢ nil_record
  unfolding restore_zones
  restore_zones_no_nil_record zs [] has h = cc
  restore_zones_no_nil_record zs (zone ∷ items) (has, hass) h =
      split (restore_zone c zs zone) refl (λ mid. restore_zones_no_nil_record mid items hass) h
    where
      split :
          (m : Loaded FileZone)
          → restore_zone c zs zone ≡ m
          → ((mid : Zones FileZone) → restore_zones c mid items ≢ nil_record)
          → and_then m (λ zs'. restore_zones c zs' items) ≡ nil_record
          → ⊥
      split (loaded mid) p later q = later mid q
      split (failed x) p later q = cc
      split nil_pointer p later q = cc
      split nil_record p later q = restore_zone_no_nil_record zs zone has p

  pub restore_zones_never_fails :
      (zs : Zones FileZone) (items : List Zone) (e : Error) → restore_zones c zs items ≢ failed e
  unfolding restore_zones
  restore_zones_never_fails zs [] e h = cc
  restore_zones_never_fails zs (zone ∷ items) e h =
      split (restore_zone c zs zone) refl (λ mid. restore_zones_never_fails mid items e) h
    where
      split :
          (m : Loaded FileZone)
          → restore_zone c zs zone ≡ m
          → ((mid : Zones FileZone) → restore_zones c mid items ≢ failed e)
          → and_then m (λ zs'. restore_zones c zs' items) ≡ failed e
          → ⊥
      split (loaded mid) p later q = later mid q
      split (failed x) p later q = restore_zone_never_fails zs zone x p
      split nil_pointer p later q = cc
      split nil_record p later q = cc
