-- ===== src/Zupd/Update/Effects.antt =====
-- What the loop over an update's records does.
use ksdns.Prelude.{ℕ, zero, suc, String, ◌≡◌, ◌≢◌, refl, ◌∙◌, List, [], ◌∷◌, arith, ◌⊎◌, inl, inr}
use ksdns.Zupd.Coredns.{Coredns, FileZoneLaws}
use ksdns.Zupd.Dns
use ksdns.Zupd.Update.{
  update_type, Progress, continue, stop, and_then, apply_rr, apply_rrs, apply_questions,
}

-- The zone that the loop leaves, whether it goes on or returns.
abbrev pub zone_of : {F : Type 0} → Progress F → F
zone_of (continue z) = z
zone_of (stop code z) = z

zone_of-and_then :
    {F : Type 0} (P : F → Type 0) (m : Progress F) (f : F → Progress F)
    → P (zone_of m)
    → ((z : F) → P z → P (zone_of (f z)))
    → P (zone_of (and_then m f))
zone_of-and_then P (continue z) f h k = k z h
zone_of-and_then P (stop code z) f h k = h

pub Progress-cases :
    {F : Type 0} (p : Progress F)
    → ((z : F) × (p ≡ continue z)) ⊎ ((code : ℕ) × (z : F) × (p ≡ stop code z))
Progress-cases (continue z) = inl (z, refl)
Progress-cases (stop code z) = inr (code, z, refl)

-- The codes with which the loop returns are errors.
abbrev pub IsError : {F : Type 0} → Progress F → Type 0
IsError (continue z) = Unit
IsError (stop code z) = code ≢ Dns.rcode_success

IsError-and_then :
    {F : Type 0} (m : Progress F) (f : F → Progress F)
    → IsError m
    → ((z : F) → IsError (f z))
    → IsError (and_then m f)
IsError-and_then (continue z) f h k = k z
IsError-and_then (stop code z) f h k = h

module _ (c : Coredns) where
  open c use {FileZone, Rr}

  apply_rr-IsError : (dz : FileZone) (r : Rr) → IsError (apply_rr c dz r)
  unfolding apply_rr update_type
  apply_rr-IsError dz r = ground arith

  apply_rrs-IsError : (dz : FileZone) (rs : List Rr) → IsError (apply_rrs c dz rs)
  unfolding apply_rrs
  apply_rrs-IsError dz [] = tt
  apply_rrs-IsError dz (r ∷ rs) =
      IsError-and_then (apply_rr c dz r) _ (apply_rr-IsError dz r) (λ z. apply_rrs-IsError z rs)

  pub apply_questions-IsError :
      (k : ℕ) (dz : FileZone) (rs : List Rr) → IsError (apply_questions c k dz rs)
  unfolding apply_questions
  apply_questions-IsError zero dz rs = tt
  apply_questions-IsError (suc k) dz rs =
      IsError-and_then (apply_rrs c dz rs) _ (apply_rrs-IsError dz rs)
        (λ z. apply_questions-IsError k z rs)

module _ (c : Coredns) (laws : FileZoneLaws c) where
  open c use {FileZone, Rr}
  open laws use {origin}

  origin-apply_rr : (dz : FileZone) (r : Rr) → origin (zone_of (apply_rr c dz r)) ≡ origin dz
  unfolding apply_rr update_type
  origin-apply_rr dz r = ground (arith, laws.origin-insert dz r, laws.origin-remove dz r)

  origin-apply_rrs :
      (o : String) (dz : FileZone) (rs : List Rr)
      → origin dz ≡ o
      → origin (zone_of (apply_rrs c dz rs)) ≡ o
  unfolding apply_rrs
  origin-apply_rrs o dz [] h = h
  origin-apply_rrs o dz (r ∷ rs) h =
      zone_of-and_then (λ z. origin z ≡ o) (apply_rr c dz r) _ (origin-apply_rr dz r ∙ h)
        (λ z e. origin-apply_rrs o z rs e)

  -- An update never moves the dynamic zone to another origin.
  pub origin-apply_questions :
      (o : String) (k : ℕ) (dz : FileZone) (rs : List Rr)
      → origin dz ≡ o
      → origin (zone_of (apply_questions c k dz rs)) ≡ o
  unfolding apply_questions
  origin-apply_questions o zero dz rs h = h
  origin-apply_questions o (suc k) dz rs h =
      zone_of-and_then (λ z. origin z ≡ o) (apply_rrs c dz rs) _ (origin-apply_rrs o dz rs h)
        (λ z e. origin-apply_questions o k z rs e)
