-- ===== src/Zupd/Invariant.antt =====
-- The invariant of the plugin's table of zones, and the changes that the handlers make to it.
use ksdns.Prelude.{String, ◌≡◌, true, false, some, [], ◌∷◌, ◌++◌, arith, eq_iff, is_some}
use ksdns.Prelude.Maps.{Map, set, delete}
use ksdns.Zupd.Zones.{Zones, delete_zone}
use ksdns.Zupd.Zones.Consistency.{IsConsistent, delete_zone-IsConsistent, occurrences-append_one}

module _ {F : Type 0} (origin : F → String) where
  -- Each zone of a map has its key for its origin.
  abbrev HasOrigins : Map F → Type 0
  HasOrigins m = (n : String) (z : F) → m n ≡ some z → origin z ≡ n

  HasOrigins-set :
      (n : String) (z : F) (m : Map F) → origin z ≡ n → HasOrigins m → HasOrigins (set n z m)
  HasOrigins-set n z m e h j y p = ground (arith, eq_iff n j, h j y)

  HasOrigins-delete : (n : String) (m : Map F) → HasOrigins m → HasOrigins (delete n m)
  HasOrigins-delete n m h j y p = ground (arith, eq_iff n j, h j y)

  -- The table is consistent, and each zone stands under its origin.
  pub record IsServable (zs : Zones F) : Type 0 where
    pub consistent : IsConsistent zs
    pub static_origins : HasOrigins zs.z
    pub dynamic_origins : HasOrigins zs.dynamic_zones

  module _ (n : String) (z : F) (zs : Zones F) (o : origin z ≡ n) (h : IsServable zs) where
    pub IsServable-set_static :
        is_some (zs.z n) ≡ true → IsServable (record zs { z = set n z zs.z })
    IsServable-set_static here = record {
      consistent = record {
        listed_once = λ j. ground (arith, eq_iff n j, h.consistent.listed_once j);
        same_keys = λ j. ground (arith, eq_iff n j, h.consistent.same_keys j);
      };
      static_origins = HasOrigins-set n z zs.z o h.static_origins;
      dynamic_origins = h.dynamic_origins;
    }

    pub IsServable-set_dynamic :
        is_some (zs.dynamic_zones n) ≡ true
        → IsServable (record zs { dynamic_zones = set n z zs.dynamic_zones })
    IsServable-set_dynamic here = record {
      consistent = record {
        listed_once = h.consistent.listed_once;
        same_keys = λ j. ground (arith, eq_iff n j, h.consistent.same_keys j);
      };
      static_origins = h.static_origins;
      dynamic_origins = HasOrigins-set n z zs.dynamic_zones o h.dynamic_origins;
    }

    pub IsServable-add :
        (dz : F)
        → origin dz ≡ n
        → is_some (zs.z n) ≡ false
        → IsServable (record {
          z = set n z zs.z;
          names = zs.names ++ n ∷ [];
          dynamic_zones = set n dz zs.dynamic_zones;
        })
    IsServable-add dz o' absent = record {
      consistent = record {
        listed_once = λ j.
            ground
              (arith, eq_iff n j, h.consistent.listed_once j, occurrences-append_one j n zs.names);
        same_keys = λ j. ground (arith, eq_iff n j, h.consistent.same_keys j);
      };
      static_origins = HasOrigins-set n z zs.z o h.static_origins;
      dynamic_origins = HasOrigins-set n dz zs.dynamic_zones o' h.dynamic_origins;
    }

  pub IsServable-delete :
      (n : String) (zs : Zones F) → IsServable zs → IsServable (delete_zone n zs)
  unfolding delete_zone
  IsServable-delete n zs h = record {
    consistent = delete_zone-IsConsistent n zs h.consistent;
    static_origins = HasOrigins-delete n zs.z h.static_origins;
    dynamic_origins = HasOrigins-delete n zs.dynamic_zones h.dynamic_origins;
  }
