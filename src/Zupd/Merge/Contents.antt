-- ===== src/Zupd/Merge/Contents.antt =====
-- What the merged zone holds.
use ksdns.Prelude.{
  String, ◌≡◌, sym, ◌∙◌, refl, ◌↔◌, ◌⊎◌, inl, inr, some, List, [], ◌∷◌, In, concat, arith,
  is_some-eq_some, subst, ap,
}
use ksdns.Zupd.Coredns.{Coredns, FileZoneLaws}
use ksdns.Zupd.Zones.{Zones}
use ksdns.Zupd.Zones.Consistency.{IsConsistent, listed-has_zone}
use ksdns.Zupd.Merge.{insert_each, merge}

module _ (c : Coredns) (laws : FileZoneLaws c) where
  open c use {FileZone, Rr, insert, all, copy, apex_if_defined}
  open laws use {origin}

  -- The records in a zone's tree.
  abbrev pub Holds : FileZone → Rr → Type 0
  Holds z x = In x (concat (all z))

  origin-insert_each : (z : FileZone) (rs : List Rr) → origin (insert_each c z rs) ≡ origin z
  unfolding insert_each
  origin-insert_each z [] = refl
  origin-insert_each z (r ∷ rs) = origin-insert_each (insert z r).0 rs ∙ laws.origin-insert z r

  insert_each_keeps :
      (z : FileZone) (rs : List Rr) (x : Rr) → Holds z x → Holds (insert_each c z rs) x
  unfolding insert_each
  insert_each_keeps z [] x h = h
  insert_each_keeps z (r ∷ rs) x h =
      insert_each_keeps (insert z r).0 rs x (laws.insert_keeps z r x h)

  insert_each_only :
      (z : FileZone) (rs : List Rr) (x : Rr) → Holds (insert_each c z rs) x → In x rs ⊎ Holds z x
  unfolding insert_each
  insert_each_only z [] x h = inr h
  insert_each_only z (r ∷ rs) x h = elim (insert_each_only (insert z r).0 rs x h) [
    | inl p ↦ inl (inr p)
    | inr q ↦ elim (laws.insert_only z r x q) [ inl e ↦ inl (inl e) | inr k ↦ inr k ]
  ]

  -- Records of the tree of a zone `s` all reach the tree of a zone of the same origin.
  insert_each_adds :
      (s z : FileZone) (rs : List Rr) (x : Rr)
      → ((r : Rr) → In r rs → Holds s r)
      → origin s ≡ origin z
      → In x rs
      → Holds (insert_each c z rs) x
  unfolding insert_each
  insert_each_adds s z [] x from o h = absurd h
  insert_each_adds s z (r ∷ rs) x from o (inl e) = insert_each_keeps (insert z r).0 rs x (
      subst (λ y. Holds (insert z r).0 y) (sym e)
        (laws.insert_adds s z r r (from r (inl refl)) refl o))
  insert_each_adds s z (r ∷ rs) x from o (inr h) =
      insert_each_adds s (insert z r).0 rs x (λ y i. from y (inr i))
        (o ∙ sym (laws.origin-insert z r)) h

  insert_each_apex :
      (s z : FileZone) (rs : List Rr)
      → ((r : Rr) → In r rs → Holds s r)
      → origin s ≡ origin z
      → apex_if_defined (insert_each c z rs) ≡ apex_if_defined z
  unfolding insert_each
  insert_each_apex s z [] from o = refl
  insert_each_apex s z (r ∷ rs) from o =
      insert_each_apex s (insert z r).0 rs (λ y i. from y (inr i))
        (o ∙ sym (laws.origin-insert z r))
      ∙ laws.apex-insert s z r (from r (inl refl)) o

  pub merge_found :
      (n : String) (zs : Zones FileZone) (z dz : FileZone)
      → zs.z n ≡ some z
      → zs.dynamic_zones n ≡ some dz
      → merge c n zs
        ≡ some (insert_each c (insert_each c (copy z) (concat (all z))) (concat (all dz)))
  unfolding merge
  merge_found n zs z dz e f = ground arith

  -- A name that the table lists has a merged zone.
  pub merge_total :
      (n : String) (zs : Zones FileZone)
      → IsConsistent zs
      → In n zs.names
      → (z : FileZone) × (merge c n zs ≡ some z)
  merge_total n zs h i =
      let (static, dynamic) = listed-has_zone n zs h i in
      let (z, found) = is_some-eq_some (zs.z n) static in
      let (dz, found') = is_some-eq_some (zs.dynamic_zones n) dynamic in
      (
        insert_each c (insert_each c (copy z) (concat (all z))) (concat (all dz)),
        merge_found n zs z dz found found',
      )

  module _ (n : String) (zs : Zones FileZone) (s d m : FileZone) (static : zs.z n ≡ some s)
      (dynamic : zs.dynamic_zones n ≡ some d) (same : origin s ≡ origin d)
      (merged : merge c n zs ≡ some m) where
    base : FileZone
    base = insert_each c (copy s) (concat (all s))

    merge_lem : m ≡ insert_each c base (concat (all d))
    unfolding merge base
    merge_lem = ground arith

    origin-base : origin base ≡ origin s
    unfolding base
    origin-base = origin-insert_each (copy s) (concat (all s)) ∙ laws.origin-copy s

    base-Holds : (x : Rr) → Holds base x → Holds s x
    unfolding base
    base-Holds x h = elim (insert_each_only (copy s) (concat (all s)) x h) [
      | inl p ↦ p
      | inr q ↦ absurd (subst (λ l. In x l) (laws.copy_empty s) q)
    ]

    Holds-base : (x : Rr) → Holds s x → Holds base x
    unfolding base
    Holds-base x h =
        insert_each_adds s (copy s) (concat (all s)) x (λ r i. i) (sym (laws.origin-copy s)) h

    -- The merged zone holds the static zone's records, the dynamic zone's, and no others.
    pub merge-Holds_iff : (x : Rr) → Holds m x ↔ (Holds s x ⊎ Holds d x)
    merge-Holds_iff x = (
      λ h. elim (insert_each_only base (concat (all d)) x (subst (λ z. Holds z x) merge_lem h)) [
        | inl p ↦ inr p
        | inr q ↦ inl (base-Holds x q)
      ],
      λ h.
          subst (λ z. Holds z x) (sym merge_lem)
            (elim h [
              | inl p ↦ insert_each_keeps base (concat (all d)) x (Holds-base x p)
              | inr q ↦
                  insert_each_adds d base (concat (all d)) x (λ r i. i) (sym same ∙ sym origin-base)
                    q
            ]),
    )

    -- The merged zone has the apex, so the very SOA record, of the static zone.
    pub merge-apex : apex_if_defined m ≡ apex_if_defined s
    unfolding base
    merge-apex =
        ap apex_if_defined merge_lem
        ∙ insert_each_apex d base (concat (all d)) (λ r i. i) (sym same ∙ sym origin-base)
        ∙ insert_each_apex s (copy s) (concat (all s)) (λ r i. i) (sym (laws.origin-copy s))
        ∙ laws.apex-copy s
