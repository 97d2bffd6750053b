-- ===== src/Zupd/Initialize.antt =====
-- `initialize` (setup.go): the plugin's arguments, and the table of zones built from the cluster.
-- The configuration comes as the arguments of each `dynamicupdate` line of the Corefile.
pub mod Effects
pub mod Entries
use ksdns.Prelude.{
  String, Bool, true, false, Option, none, some, List, [], ◌∷◌, ◌++◌, str_eq, if◌then◌else◌,
  is_some,
}
use ksdns.Prelude.Go.{Error, message, Result, ok, err}
use ksdns.Prelude.Maps.{empty, set}
use ksdns.Zupd.Coredns.{Coredns, Zone, DynamicRr}
use ksdns.Zupd.Zones.{Zones}

-- The loop over the configuration: a line with no argument is an error, and one that begins with
-- "*" forgets the namespaces before it.
unfoldable pub read_namespaces : List String → List (List String) → Result (List String)
read_namespaces namespaces [] = ok namespaces
read_namespaces namespaces ([] ∷ lines) =
    err (message "Wrong argument count or unexpected line ending")
read_namespaces namespaces ((namespace ∷ args) ∷ lines) =
    read_namespaces ((if str_eq namespace "*" then [] else namespaces) ++ namespace ∷ args) lines

-- The table, an error, or a panic: by a zone that is nil, or by a record that is.
pub data Loaded (FileZone : Type 0) : Type 0 where
  loaded : Zones FileZone → Loaded FileZone
  failed : Error → Loaded FileZone
  nil_pointer nil_record : Loaded FileZone

abbrev pub and_then : {F : Type 0} → Loaded F → (Zones F → Loaded F) → Loaded F
and_then (loaded zs) f = f zs
and_then (failed e) f = failed e
and_then nil_pointer f = nil_pointer
and_then nil_record f = nil_record

module _ (c : Coredns) where
  open c use {FileZone, Rr, Cluster, fqdn, new_rr, insert}

  -- The body of the first loop over the objects: the first object of a name is taken, and one that
  -- does not parse is logged and skipped.
  unfoldable pub load_zone : Zones FileZone → Zone → Zones FileZone
  load_zone zs zone =
      if is_some (zs.z (fqdn zone.name))
      then zs
      else elim (c.parse_zone zone.spec.zone (fqdn zone.name)) [
        | err e ↦ zs
        | ok parsed ↦ record {
          z = set (fqdn zone.name) parsed zs.z;
          names = zs.names ++ fqdn zone.name ∷ [];
          dynamic_zones = set (fqdn zone.name) (c.new_zone (fqdn zone.name)) zs.dynamic_zones;
        }
      ]

  unfoldable pub load_zones : Zones FileZone → List Zone → Zones FileZone
  load_zones zs [] = zs
  load_zones zs (zone ∷ items) = load_zones (load_zone zs zone) items

  -- The records of a status, each parsed and inserted; one that does not parse is skipped. A text
  -- with no record gives a nil one, and its insertion panics: `none`.
  unfoldable pub restore_rrs : FileZone → List DynamicRr → Option FileZone
  restore_rrs dz [] = some dz
  restore_rrs dz (rr ∷ rrs) = elim (new_rr rr.rr) [
    | err e ↦ restore_rrs dz rrs
    | ok r ↦ elim r [ none ↦ none | some r ↦ restore_rrs (insert dz r).0 rrs ]
  ]

  unfoldable pub any_parses : List DynamicRr → Bool
  any_parses [] = false
  any_parses (rr ∷ rrs) =
      let rest = any_parses rrs in elim (new_rr rr.rr) [ err e ↦ rest | ok r ↦ true ]

  -- The body of the second loop. The entry of `dz` is not tested: where it is nil, the first
  -- record that parses is inserted through a nil pointer.
  unfoldable pub restore_zone : Zones FileZone → Zone → Loaded FileZone
  restore_zone zs zone =
      if is_some (zs.z (fqdn zone.name))
      then elim (zs.dynamic_zones (fqdn zone.name)) [
        | none ↦ if any_parses zone.status.dynamic_rrs then nil_pointer else loaded zs
        | some dz ↦ elim (restore_rrs dz zone.status.dynamic_rrs) [
          | none ↦ nil_record
          | some dz' ↦
              loaded (record zs { dynamic_zones = set (fqdn zone.name) dz' zs.dynamic_zones })
        ]
      ]
      else loaded zs

  unfoldable pub restore_zones : Zones FileZone → List Zone → Loaded FileZone
  restore_zones zs [] = loaded zs
  restore_zones zs (zone ∷ items) = and_then (restore_zone zs zone) (λ zs'. restore_zones zs' items)

  unfoldable pub load_namespaces : Cluster → Zones FileZone → List String → Loaded FileZone
  load_namespaces k zs [] = loaded zs
  load_namespaces k zs (n ∷ namespaces) = elim (c.list_zones k n) [
    | err e ↦ failed e
    | ok items ↦
        and_then (restore_zones (load_zones zs items) items)
          (λ zs'. load_namespaces k zs' namespaces)
  ]

  abbrev pub no_zones : Zones FileZone
  no_zones = record { z = empty; names = []; dynamic_zones = empty }

  unfoldable pub initialize : Cluster → List (List String) → Loaded FileZone
  initialize k lines = elim (read_namespaces [] lines) [
    | err e ↦ failed e
    | ok namespaces ↦ load_namespaces k no_zones namespaces
  ]
