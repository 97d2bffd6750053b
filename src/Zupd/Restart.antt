-- ===== src/Zupd/Restart.antt =====
-- What a restart takes back: the records that an update wrote to the object's status are those
-- that `initialize` puts in the dynamic zone.
pub mod Durability
pub mod Replicas
use ksdns.Prelude.{
  ℕ, String, ◌≡◌, refl, sym, ap, ◌∙◌, subst, some, List, [], ◌∷◌, map, concat, ◌⊎◌, inl, inr, ◌↔◌,
  In,
}
use ksdns.Zupd.Coredns.{Coredns, FileZoneLaws, ReadsBack, DynamicRr}
use ksdns.Zupd.Merge.Contents.{Holds}
use ksdns.Zupd.Serve.{status_of}
use ksdns.Zupd.Initialize.{restore_rrs}

module _ (c : Coredns) (laws : FileZoneLaws c) (reads : ReadsBack c) where
  open c use {FileZone, Rr, rr_string}
  open laws use {origin}

  -- The zone's tree has a record that prints as the text.
  abbrev pub HoldsText : FileZone → String → Type 0
  HoldsText z t = (x : Rr) × Holds c laws z x × (rr_string x ≡ t)

  abbrev texts : List Rr → List DynamicRr
  texts = map (λ r. record { rr = rr_string r })

  -- The zone with each record inserted, as its text is read.
  restored : FileZone → List Rr → FileZone
  restored z [] = z
  restored z (r ∷ rs) = restored (c.insert z (reads r).0).0 rs

  restore_rrs-texts :
      (z : FileZone) (rs : List Rr) → restore_rrs c z (texts rs) ≡ some (restored z rs)
  unfolding restore_rrs restored
  restore_rrs-texts z [] = refl
  restore_rrs-texts z (r ∷ rs) =
      let (r', e, _) = reads r in rw (e, restore_rrs) (restore_rrs-texts (c.insert z r').0 rs)

  restored_keeps :
      (z : FileZone) (rs : List Rr) (x : Rr) → Holds c laws z x → Holds c laws (restored z rs) x
  unfolding restored
  restored_keeps z [] x h = h
  restored_keeps z (r ∷ rs) x h =
      restored_keeps (c.insert z (reads r).0).0 rs x (laws.insert_keeps z (reads r).0 x h)

  restored_only :
      (z : FileZone) (rs : List Rr) (x : Rr)
      → Holds c laws (restored z rs) x
      → ((r : Rr) × In r rs × (rr_string r ≡ rr_string x)) ⊎ Holds c laws z x
  unfolding restored
  restored_only z [] x h = inr h
  restored_only z (r ∷ rs) x h =
      let (r', _, same) = reads r in
      elim (restored_only (c.insert z (reads r).0).0 rs x h) [
        | inl (y, i, p) ↦ inl (y, inr i, p)
        | inr k ↦ elim (laws.insert_only z r' x k) [
          | inl q ↦ inl (r, inl refl, sym same ∙ ap rr_string (sym q))
          | inr q ↦ inr q
        ]
      ]

  restored_adds :
      (s z : FileZone) (rs : List Rr) (r : Rr)
      → ((y : Rr) → In y rs → Holds c laws s y)
      → origin s ≡ origin z
      → In r rs
      → HoldsText (restored z rs) (rr_string r)
  unfolding restored
  restored_adds s z [] r from o i = absurd i
  restored_adds s z (y ∷ ys) r from o (inl q) =
      let (y', _, same) = reads y in
      (
        y',
        restored_keeps (c.insert z y').0 ys y'
            (laws.insert_adds s z y y' (from y (inl refl)) same o),
        same ∙ ap rr_string (sym q),
      )
  restored_adds s z (y ∷ ys) r from o (inr i) =
      restored_adds s (c.insert z (reads y).0).0 ys r (λ w j. from w (inr j))
        (o ∙ sym (laws.origin-insert z (reads y).0)) i

  -- For a dynamic zone of a name, the status that an update writes is read back by `initialize`,
  -- into a new zone of that name, with no panic, and gives a zone with records of exactly the same
  -- texts.
  pub restart_restores :
      (name : String) (dz : FileZone) (serial : ℕ)
      → origin dz ≡ name
      → (z : FileZone) × (restore_rrs c (c.new_zone name) (status_of c dz serial).dynamic_rrs
          ≡ some z)
        × ((t : String) → HoldsText z t ↔ HoldsText dz t)
  restart_restores name dz serial o =
      let rs = concat (c.all dz) in
      (
        restored (c.new_zone name) rs,
        restore_rrs-texts (c.new_zone name) rs,
        λ t. (
          λ (x, h, e). elim (restored_only (c.new_zone name) rs x h) [
            | inl (r, i, p) ↦ (r, i, p ∙ e)
            | inr k ↦ absurd (subst (λ l. In x l) (laws.new_zone_empty name) k)
          ],
          λ (x, h, e). subst (HoldsText (restored (c.new_zone name) rs)) e (
              restored_adds dz (c.new_zone name) rs x (λ y i. i)
                (o ∙ sym (laws.origin-new_zone name)) h),
        ),
      )
