-- ===== src/Zupd/Update/Acceptance.antt =====
-- Which updates are accepted, and what is left of one that is not.
use ksdns.Prelude.{
  ◌≡◌, refl, ap, ◌∙◌, true, false, none, List, [], ◌∷◌, ◌++◌, arith, ◌⊎◌, inl, inr, if◌then◌else◌,
  All, ◌==◌,
}
use ksdns.Zupd.Coredns.{Coredns}
use ksdns.Zupd.Dns
use ksdns.Zupd.Update.Effects.{Progress-cases}
use ksdns.Zupd.Update.{update_type, is_allowed, continue, stop, apply_rr, apply_rrs}

module _ (c : Coredns) where
  open c use {FileZone, Rr, rr_name, rr_type, rr_class, is_domain_name}

  -- A record that the plugin applies: one of the five types, and of class IN, to be added, or NONE,
  -- to be taken out, unless its name is no domain name, where it has no effect.
  abbrev pub IsAcceptable : Rr → Type 0
  IsAcceptable r =
      (is_allowed (rr_type r) ≡ true)
      × ((is_domain_name (rr_name r) ≡ false)
          ⊎ ((rr_class r ≡ Dns.class_inet) ⊎ (rr_class r ≡ Dns.class_none)))

  -- The effect of an acceptable record, and of a list of them.
  abbrev pub effect : FileZone → Rr → FileZone
  effect dz r =
      if is_domain_name (rr_name r)
      then (if rr_class r == Dns.class_inet then (c.insert dz r).0 else c.remove dz r)
      else dz

  pub effects : FileZone → List Rr → FileZone
  effects dz [] = dz
  effects dz (r ∷ rs) = effects (effect dz r) rs

  apply_rr_continues :
      (dz dz' : FileZone) (r : Rr)
      → apply_rr c dz r ≡ continue dz'
      → IsAcceptable r × (dz' ≡ effect dz r)
  unfolding apply_rr update_type
  apply_rr_continues dz dz' r h = ground arith

  -- If the loop goes through, every record was acceptable, and the zone is the one that the
  -- effects of the records make, in order.
  pub apply_rrs_continues :
      (dz dz' : FileZone) (rs : List Rr)
      → apply_rrs c dz rs ≡ continue dz'
      → All IsAcceptable rs × (dz' ≡ effects dz rs)
  unfolding apply_rrs effects
  apply_rrs_continues dz dz' [] h = (tt, ground arith)
  apply_rrs_continues dz dz' (r ∷ rs) h = elim (Progress-cases (apply_rr c dz r)) [
    | inl (z, e) ↦
        let (acceptable, same) = apply_rr_continues dz z r e in
        let (rest, end) = apply_rrs_continues z dz' rs (rw e at h) in
        ((acceptable, rest), end ∙ ap (λ y. effects y rs) same)
    | inr (code, z, e) ↦ let impossible : stop code z ≡ continue dz' = rw e at h in cc
  ]

  -- The insertions of a list of acceptable records that is applied to the zone, in order, end with
  -- no error.
  abbrev pub Inserts : FileZone → List Rr → Type 0
  Inserts dz [] = Unit
  Inserts dz (r ∷ rs) =
      (is_domain_name (rr_name r) ≡ true → rr_class r ≡ Dns.class_inet → (c.insert dz r).1 ≡ none)
      × Inserts (effect dz r) rs

  apply_rr_acceptable :
      (dz : FileZone) (r : Rr)
      → (is_domain_name (rr_name r) ≡ true → rr_class r ≡ Dns.class_inet → (c.insert dz r).1 ≡ none)
      → IsAcceptable r
      → apply_rr c dz r ≡ continue (effect dz r)
  unfolding apply_rr update_type
  apply_rr_acceptable dz r e h = ground arith

  -- Acceptable records whose insertions end with no error, and then one that is not allowed: the
  -- loop stops with REFUSED, whatever comes after, and the zone keeps the effects of all the records
  -- before that one.
  pub refused_keeps_prefix :
      (dz : FileZone) (before : List Rr) (r : Rr) (after : List Rr)
      → Inserts dz before
      → All IsAcceptable before
      → is_allowed (rr_type r) ≡ false
      → apply_rrs c dz (before ++ r ∷ after) ≡ stop Dns.rcode_refused (effects dz before)
  unfolding apply_rrs effects
  refused_keeps_prefix dz [] r after fine h bad = unfold apply_rr in rw bad refl
  refused_keeps_prefix dz (b ∷ bs) r after (fine, fines) (h, hs) bad =
      rw (apply_rr_acceptable dz b fine h)
        (refused_keeps_prefix (effect dz b) bs r after fines hs bad)
