-- ===== src/Zupd/Restart/Durability.antt =====
-- From an update that was acknowledged to the table that the next start builds.
use ksdns.Prelude.{
  ℕ, String, ◌≡◌, refl, sym, ap, ◌∙◌, subst, List, [], ◌∷◌, ◌↔◌, Option, none, some, arith, All,
  map, concat, ◌++◌,
}
use ksdns.Prelude.Go.{ok}
use ksdns.Zupd.Dns
use ksdns.Zupd.Coredns.{Coredns, FileZoneLaws, ListsUpdated, ReadsBack, Zone}
use ksdns.Zupd.State.{Request, Reply, DynamicUpdate, rcode}
use ksdns.Zupd.Update.Effects.{zone_of, origin-apply_questions}
use ksdns.Zupd.Serve.{handle_update, find_object, status_of, soa_serial}
use ksdns.Zupd.Serve.Outcomes.{handle_update_keeps, handle_update_success}
use ksdns.Zupd.Invariant.{IsServable}
use ksdns.Zupd.Initialize.Effects.{Loads, initialize-IsServable}
use ksdns.Zupd.Restart.{HoldsText, restart_restores}
use ksdns.Prelude.Go.{Error}
use ksdns.Zupd.Zones.{Zones}
use ksdns.Zupd.Initialize.{
  Loaded, loaded, failed, nil_pointer, nil_record, and_then, load_zones, restore_zones, no_zones,
  initialize,
}
use ksdns.Zupd.Initialize.Entries.{
  HasRecords, OthersHaveRecords, restored_entry, load_namespaces_one, restore_zones_never_fails,
  restore_zones_no_nil_record,
}

All-apply {ℓ} :
    {A : Type ℓ} (P Q : A → Type 0) (xs : List A) → All P xs → All (λ x. P x → Q x) xs → All Q xs
All-apply P Q [] h f = tt
All-apply P Q (x ∷ xs) (h, hs) (f, fs) = (f h, All-apply P Q xs hs fs)

All-around {ℓ} :
    {A : Type ℓ} (P Q : A → Type 0) (before : List A) (x : A) (behind : List A)
    → All P before
    → All P behind
    → Q x
    → All (λ y. P y → Q y) (before ++ x ∷ behind)
    → All Q (before ++ x ∷ behind)
All-around P Q [] x behind hb ha q (_, fs) = (q, All-apply P Q behind ha fs)
All-around P Q (y ∷ before) x behind (h, hb) ha q (f, fs) =
    (f h, All-around P Q before x behind hb ha q fs)

module _ (c : Coredns) (laws : FileZoneLaws c) where
  open c use {FileZone}
  open laws use {origin}

  -- A start that can list the objects of its one namespace, where every text of a status that parses
  -- has a record, builds a table.
  initialize_one :
      (k : c.Cluster) (ns : String) (items : List Zone)
      → c.list_zones k ns ≡ ok items
      → All (λ zone. HasRecords c zone.status.dynamic_rrs) items
      → (zs : Zones FileZone) × (initialize c k ((ns ∷ []) ∷ []) ≡ loaded zs)
        × (and_then (restore_zones c (load_zones c (no_zones c) items) items) loaded ≡ loaded zs)
  initialize_one k ns items h has =
      split (restore_zones c (load_zones c (no_zones c) items) items) refl
        (initialize-IsServable c laws k ((ns ∷ []) ∷ []))
    where
      run :
          initialize c k ((ns ∷ []) ∷ [])
          ≡ and_then (restore_zones c (load_zones c (no_zones c) items) items) loaded
      run = load_namespaces_one c k ns items h

      split :
          (m : Loaded FileZone)
          → restore_zones c (load_zones c (no_zones c) items) items ≡ m
          → Loads (IsServable origin) (initialize c k ((ns ∷ []) ∷ []))
          → (zs : Zones FileZone) × (initialize c k ((ns ∷ []) ∷ []) ≡ loaded zs)
            × (and_then (restore_zones c (load_zones c (no_zones c) items) items) loaded
                ≡ loaded zs)
      split (loaded zs) e s =
          (zs, run ∙ ap (λ m. and_then m loaded) e, ap (λ m. and_then m loaded) e)
      split (failed x) e s = absurd (restore_zones_never_fails c _ items x e)
      split nil_pointer e s =
          absurd (subst (Loads (IsServable origin)) (run ∙ ap (λ m. and_then m loaded) e) s)
      split nil_record e s = absurd (restore_zones_no_nil_record c _ items has e)

module _ (c : Coredns) (laws : FileZoneLaws c) (reads : ReadsBack c) (lists : ListsUpdated c) where
  open c use {FileZone, Rr, fqdn}
  open laws use {origin}

  saved_HasRecords : (rs : List Rr) → HasRecords c (map (λ r. record { rr = c.rr_string r }) rs)
  saved_HasRecords [] = tt
  saved_HasRecords (r ∷ rs) = (λ h. let (_, e, _) = reads r in cc, saved_HasRecords rs)

  -- The table that a start of a zupd of one namespace builds once the status of an object, whose
  -- text parses, was updated: the dynamic zone has the texts of the zone that was saved.
  initialize_after_update :
      (k : c.Cluster) (obj : Zone) (parsed saved : FileZone) (serial : ℕ)
      → (c.update_status k (record obj { status = status_of c saved serial })).1 ≡ none
      → c.parse_zone obj.spec.zone (fqdn obj.name) ≡ ok parsed
      → origin saved ≡ fqdn obj.name
      → OthersHaveRecords c
          (c.update_status k (record obj { status = status_of c saved serial })).0
          obj
      → (zs : Zones FileZone) × (z : FileZone) × (initialize c
            (c.update_status k (record obj { status = status_of c saved serial })).0
            ((obj.namespace ∷ []) ∷ [])
          ≡ loaded zs)
        × (zs.dynamic_zones (fqdn obj.name) ≡ some z)
        × ((t : String) → HoldsText c laws reads z t ↔ HoldsText c laws reads saved t)
  initialize_after_update k obj parsed saved serial stored parses o others =
      let written = record obj { status = status_of c saved serial } in
      let (before, behind, listed, hb, ha) = lists k written stored in
      let has =
        All-around _ _ before written behind hb ha (saved_HasRecords (concat (c.all saved)))
          (others (before ++ written ∷ behind) listed) in
      let (zs, built, same) = initialize_one c laws _ obj.namespace _ listed has in
      let (z, restored, texts) = restart_restores c laws reads (fqdn obj.name) saved serial o in
      (
        zs,
        z,
        built,
        restored_entry c zs before written behind parsed hb ha parses same ∙ restored,
        texts,
      )

  -- An update that answers success is still there after a restart: for a zupd of one namespace, an
  -- object of that namespace and of the zone's name whose text parses, a dynamic zone of that name,
  -- and other objects of the namespace whose statuses have no text that parses to no record,
  -- `initialize` run on the cluster that the update leaves builds a table whose dynamic zone has
  -- exactly the texts of the dynamic zone that the update left in memory.
  pub success_survives_restart :
      (write_msg : Reply c → Option Error) (now : ℕ) (dz : FileZone) (r : Request c)
      (d : DynamicUpdate c) (obj : Zone) (parsed : FileZone)
      → d.namespaces ≡ obj.namespace ∷ []
      → c.get_zone d.cluster obj.namespace (c.trim_dot (fqdn obj.name)) ≡ ok obj
      → c.parse_zone obj.spec.zone (fqdn obj.name) ≡ ok parsed
      → origin dz ≡ fqdn obj.name
      → (handle_update c write_msg now (fqdn obj.name) dz r d).0 ≡ rcode Dns.rcode_success
      → OthersHaveRecords c (handle_update c write_msg now (fqdn obj.name) dz r d).1.cluster obj
      → (zs : Zones FileZone) × (z : FileZone) × (left : FileZone) × (initialize c
            (handle_update c write_msg now (fqdn obj.name) dz r d).1.cluster
            ((obj.namespace ∷ []) ∷ [])
          ≡ loaded zs)
        × (zs.dynamic_zones (fqdn obj.name) ≡ some z)
        × ((handle_update c write_msg now (fqdn obj.name) dz r d).1.zones.dynamic_zones
              (fqdn obj.name)
            ≡ some left)
        × ((t : String) → HoldsText c laws reads z t ↔ HoldsText c laws reads left t)
  success_survives_restart write_msg now dz r d obj parsed one found parses o success others =
      let zone = fqdn obj.name in
      let (left, taken, applied, chosen, stored, cluster, _) =
        handle_update_success c write_msg now zone dz r d success in
      let same : taken ≡ obj = unfold find_object in ground arith in
      let serial = soa_serial now in
      let written : (c.update_status d.cluster (record obj { status = status_of c left serial })).1
          ≡ none =
        subst
          (λ x.
            (c.update_status d.cluster (record x { status = status_of c left serial })).1 ≡ none)
          same stored in
      let after : (c.update_status d.cluster (record obj { status = status_of c left serial })).0
          ≡ (handle_update c write_msg now zone dz r d).1.cluster =
        sym (
          cluster
          ∙ ap (λ x. (c.update_status d.cluster (record x { status = status_of c left serial })).0)
              same) in
      let kept : origin left ≡ zone =
        subst (λ p. origin (zone_of p) ≡ zone) applied
          (origin-apply_questions c laws zone r.question dz r.ns o) in
      let (zs, z, built, dynamic, texts) =
        initialize_after_update d.cluster obj parsed left serial written parses kept
          (subst (λ k. OthersHaveRecords c k obj) (sym after) others) in
      (
        zs,
        z,
        left,
        subst (λ k. initialize c k ((obj.namespace ∷ []) ∷ []) ≡ loaded zs) after built,
        dynamic,
        handle_update_keeps c write_msg now zone dz r d ∙ ap (λ p. some (zone_of p)) applied,
        texts,
      )
