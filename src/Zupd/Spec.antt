-- ===== src/Zupd/Spec.antt =====
-- What the plugin promises of its zones, whatever its tables look like: a store that has, for each
-- zone served, what its object says and what updates have made of it. The list of names and its
-- order, and which map holds what, are forgotten.
pub mod Refinement
use ksdns.Prelude.{
  ℕ, String, Bool, Option, none, some, str_eq, if◌then◌else◌, is_some, not, ◌&&◌, ◌||◌, ◌==◌,
}
use ksdns.Prelude.Go.{Result, ok, err}
use ksdns.Zupd.Coredns.{Coredns, Zone}
use ksdns.Zupd.Dns
use ksdns.Zupd.State.{Request}
use ksdns.Zupd.Update.{apply_questions}
use ksdns.Zupd.Update.Effects.{zone_of}
use ksdns.Zupd.Reconcile.{is_deleting}

-- The static and the dynamic part of each zone.
abbrev pub Store : Type 0 → Type 0
Store F = String → Option (F × F)

module _ {F : Type 0} where
  abbrev dynamic_or : F → Option (F × F) → F
  dynamic_or new none = new
  dynamic_or new (some (s, dz)) = dz

  -- A new text for a zone, whose dynamic part stays; a zone that is new has an empty one.
  abbrev pub publish : String → F → F → Store F → Store F
  publish name parsed new st j =
      if str_eq name j then some (parsed, dynamic_or new (st name)) else st j

  abbrev pub withdraw : String → Store F → Store F
  withdraw name st j = if str_eq name j then none else st j

  abbrev replace_dynamic : F → Option (F × F) → Option (F × F)
  replace_dynamic dz none = none
  replace_dynamic dz (some (s, old)) = some (s, dz)

  abbrev pub change : String → F → Store F → Store F
  change name dz st j = if str_eq name j then replace_dynamic dz (st j) else st j

module _ (c : Coredns) where
  open c use {FileZone}

  -- What happens to the store: a request that comes for a zone (none, if its name is ""), and an
  -- event of an object, with the cluster that the object is read from.
  pub data Act : Type 0 where
    asked : Request c → String → Act
    noticed : c.Cluster → (namespace name : String) → Act

  -- An update, which a request for a zone transfer never is.
  abbrev pub is_update : Request c → Bool
  is_update r =
      not (r.qtype == Dns.type_axfr || r.qtype == Dns.type_ixfr) && r.opcode == Dns.opcode_update

  abbrev updated :
      Request c → String → Option (FileZone × FileZone) → Store FileZone → Store FileZone
  updated r name none st = st
  updated r name (some (s, dz)) st =
      if is_update r && not (str_eq name "")
      then change name (zone_of (apply_questions c r.question dz r.ns)) st
      else st

  abbrev loaded : String → Result FileZone → Store FileZone → Store FileZone
  loaded name (err e) st = st
  loaded name (ok parsed) st = publish name parsed (c.new_zone name) st

  abbrev followed : Result Zone → Store FileZone → Store FileZone
  followed (err e) st = st
  followed (ok obj) st =
      if is_deleting obj && is_some (st (c.fqdn obj.name))
      then withdraw (c.fqdn obj.name) st
      else loaded (c.fqdn obj.name) (c.parse_zone obj.spec.zone (c.fqdn obj.name)) st

  -- What becomes of the store. An update changes the dynamic part of its zone by its records; an
  -- event publishes the text of its object, or withdraws its zone; all else leaves it alone.
  unfoldable pub perform : Act → Store FileZone → Store FileZone
  perform (asked r name) st = updated r name (st name) st
  perform (noticed k namespace name) st = followed (c.get_zone k namespace name) st
