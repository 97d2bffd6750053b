-- ===== src/Zupd/Zones.antt =====
-- The plugin's table of zones and `Zones.DeleteZone` (dynamicupdate.go). The three fields are kept
-- under one lock; a nil map reads like an empty one.
pub mod Consistency
use ksdns.Prelude.{String, Bool, List, [], ◌∷◌, str_eq, if◌then◌else◌}
use ksdns.Prelude.Maps.{Map, delete}

pub record Zones (FileZone : Type 0) : Type 0 where
  pub z : Map FileZone
  pub names : List String
  pub dynamic_zones : Map FileZone

-- The loop over `Names`, which breaks at the first hit.
unfoldable pub remove_first : String → List String → List String
remove_first name [] = []
remove_first name (n ∷ names) =
    let rest = n ∷ remove_first name names in if str_eq n name then names else rest

unfoldable pub delete_zone : {FileZone : Type 0} → String → Zones FileZone → Zones FileZone
delete_zone name zs = record {
  z = delete name zs.z;
  names = remove_first name zs.names;
  dynamic_zones = delete name zs.dynamic_zones;
}
