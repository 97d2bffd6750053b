-- ===== src/Zupd/Zones/Consistency.antt =====
-- The invariant of the table of zones: `Names` lists each key of `Z` once and nothing else, and
-- `DynamicZones` has the keys of `Z`.
use ksdns.Prelude.{
  ◌+◌, ◌-◌, ◌<◌, String, ◌≡◌, true, List, [], ◌∷◌, ◌++◌, arith, str_eq, eq_iff, if◌then◌else◌,
  is_some, occurrences, In, inl, inr,
}
use ksdns.Zupd.Zones.{Zones, remove_first, delete_zone}

pub record IsConsistent {FileZone : Type 0} (zs : Zones FileZone) : Type 0 where
  pub listed_once : (n : String) → occurrences n zs.names ≡ (if is_some (zs.z n) then 1 else 0)
  pub same_keys : (n : String) → is_some (zs.dynamic_zones n) ≡ is_some (zs.z n)

pub occurrences-append_one :
    (n m : String) (xs : List String)
    → occurrences n (xs ++ m ∷ []) ≡ occurrences n xs + (if str_eq m n then 1 else 0)
occurrences-append_one n m [] = ground arith
occurrences-append_one n m (x ∷ xs) = ground (arith, occurrences-append_one n m xs)

occurrences-remove_first :
    (n m : String) (xs : List String)
    → occurrences n (remove_first m xs) ≡ occurrences n xs - (if str_eq m n then 1 else 0)
unfolding remove_first
occurrences-remove_first n m [] = ground arith
occurrences-remove_first n m (x ∷ xs) =
    ground (arith, occurrences-remove_first n m xs, eq_iff x m, eq_iff m n, eq_iff x n)

pub In-occurrences : (n : String) (xs : List String) → In n xs → 0 < occurrences n xs
In-occurrences n [] h = absurd h
In-occurrences n (x ∷ xs) (inl e) = ground (arith, eq_iff x n)
In-occurrences n (x ∷ xs) (inr h) = ground (arith, In-occurrences n xs h)

-- Deleting a zone keeps the table consistent, whether the zone is there or not.
pub delete_zone-IsConsistent :
    {FileZone : Type 0} (name : String) (zs : Zones FileZone)
    → IsConsistent zs
    → IsConsistent (delete_zone name zs)
unfolding delete_zone
delete_zone-IsConsistent name zs h = record {
  listed_once = λ n. ground (arith, occurrences-remove_first n name zs.names, h.listed_once n);
  same_keys = λ n. ground (arith, h.same_keys n);
}

-- A listed name has both zones.
pub listed-has_zone :
    {FileZone : Type 0} (n : String) (zs : Zones FileZone)
    → IsConsistent zs
    → In n zs.names
    → (is_some (zs.z n) ≡ true) × (is_some (zs.dynamic_zones n) ≡ true)
listed-has_zone n zs h i =
    ground (arith, In-occurrences n zs.names i, h.listed_once n, h.same_keys n)
