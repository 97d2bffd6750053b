-- ===== src/Zupd/Spec/Refinement.antt =====
-- The plugin implements the store.
use mathlib.Core.Path.{fun_ext}
use ksdns.Prelude.{
  ℕ, String, ◌≡◌, refl, sym, ap, ◌∙◌, Bool, true, false, if◌then◌else◌, Option, none, some, str_eq,
  eq_iff, is_some, arith, is_some-eq_some, Bool-cases, Option-cases, inl, inr, ◌⊎◌, ◌==◌, ◌||◌,
  ◌&&◌,
}
use ksdns.Prelude.Maps.{set}
use ksdns.Prelude.Go.{Error, Result-cases}
use ksdns.Zupd.Coredns.{Coredns, FileZoneLaws, MatchesLaw}
use ksdns.Zupd.Dns
use ksdns.Zupd.Zones.{Zones, delete_zone}
use ksdns.Zupd.Invariant.{IsServable}
use ksdns.Zupd.Zones.Consistency.{IsConsistent}
use ksdns.Zupd.State.{Request, Reply, DynamicUpdate}
use ksdns.Zupd.Update.{apply_questions}
use ksdns.Zupd.Update.Effects.{zone_of, Progress-cases}
use ksdns.Zupd.Serve.{soa_serial, store_dynamic, handle_update, serve_zone, serve_dns}
use ksdns.Zupd.Serve.Safety.{zones-persist, zones-answer_query}
use ksdns.Zupd.Reconcile.{is_deleting, put_zone, load_object, reconcile}
use ksdns.Zupd.System.{
  Step, request, object_event, cluster_change, Reach, here, next, Reach-IsServable,
}
use ksdns.Zupd.Spec.{Store, publish, withdraw, change, Act, asked, noticed, is_update, perform}

if_and_true :
    {A : Type 0} (b : Bool) (x y : A) → (if b then x else y) ≡ (if b && true then x else y)
if_and_true true x y = refl
if_and_true false x y = refl

module _ {F : Type 0} where
  abbrev both : Option F → Option F → Option (F × F)
  both (some s) (some dz) = some (s, dz)
  both _ _ = none

  -- The store that a table stands for.
  abbrev pub view : Zones F → Store F
  view zs n = both (zs.z n) (zs.dynamic_zones n)

  view-delete_zone :
      (name : String) (zs : Zones F) → view (delete_zone name zs) ≡ withdraw name (view zs)
  unfolding delete_zone
  view-delete_zone name zs = fun_ext λ j. ground arith

  view-set_dynamic :
      (name : String) (dz : F) (zs : Zones F)
      → IsConsistent zs
      → is_some (zs.dynamic_zones name) ≡ true
      → view (record zs { dynamic_zones = set name dz zs.dynamic_zones }) ≡ change name dz (view zs)
  view-set_dynamic name dz zs h e = fun_ext λ j. ground (arith, eq_iff name j, h.same_keys j)

module _ (c : Coredns) where
  open c use {FileZone}

  view-put_zone :
      (name : String) (parsed : FileZone) (zs : Zones FileZone)
      → IsConsistent zs
      → view (put_zone c name parsed zs) ≡ publish name parsed (c.new_zone name) (view zs)
  unfolding put_zone
  view-put_zone name parsed zs h =
      fun_ext λ j. ground (arith, eq_iff name j, h.same_keys j, h.same_keys name)

module _ (c : Coredns) (write_msg : Reply c → Option Error) (now : ℕ) where
  open c use {FileZone}

  zones-handle_update :
      (zone : String) (dz : FileZone) (r : Request c) (d : DynamicUpdate c)
      → (handle_update c write_msg now zone dz r d).1.zones
        ≡ (store_dynamic c zone (zone_of (apply_questions c r.question dz r.ns)) d).zones
  zones-handle_update zone dz r d = elim (Progress-cases (apply_questions c r.question dz r.ns)) [
    | inl (dz', e) ↦
        unfold handle_update in
        rw (e, handle_update)
          (zones-persist c write_msg zone dz' (soa_serial now) (store_dynamic c zone dz' d))
    | inr (code, dz', e) ↦ unfold handle_update in rw (e, handle_update) refl
  ]

  -- What a request does to the table: nothing, or the change of an update.
  abbrev pub Effect : Request c → DynamicUpdate c → Zones FileZone → Type 0
  Effect r d zs =
      (zs ≡ d.zones)
      ⊎ ((zone : String) × (dz : FileZone) × (r.opcode ≡ Dns.opcode_update)
          × (d.zones.dynamic_zones zone ≡ some dz)
          × (zs ≡ (store_dynamic c zone (zone_of (apply_questions c r.question dz r.ns)) d).zones))

  serve_zone-Effect :
      (zone : String) (dz : FileZone) (r : Request c) (d : DynamicUpdate c)
      → d.zones.dynamic_zones zone ≡ some dz
      → Effect r d (serve_zone c write_msg now zone dz r d).1.zones
  unfolding serve_zone
  serve_zone-Effect zone dz r d h =
      elim (Bool-cases (r.qtype == Dns.type_axfr || r.qtype == Dns.type_ixfr)) [
        | inl p ↦ rw p (inl refl)
        | inr p ↦ elim (Bool-cases (r.opcode == Dns.opcode_notify)) [
          | inl q ↦ rw (p, q) (inl refl)
          | inr q ↦ elim (Bool-cases (r.opcode == Dns.opcode_update)) [
            | inl u ↦
                rw (p, q, u) (inr (zone, dz, ground arith, h, zones-handle_update zone dz r d))
            | inr u ↦ rw (p, q, u) (inl (zones-answer_query c write_msg zone r d))
          ]
        ]
      ]

  pub serve_dns-Effect :
      (r : Request c) (d : DynamicUpdate c) → Effect r d (serve_dns c write_msg now r d).1.zones
  unfolding serve_dns
  serve_dns-Effect r d = elim (Bool-cases (str_eq (c.matches d.zones.names r.qname) "")) [
    | inl p ↦ rw p (inl refl)
    | inr p ↦ elim (Option-cases (d.zones.dynamic_zones (c.matches d.zones.names r.qname))) [
      | inl q ↦ rw (p, serve_dns) (rw (q, serve_dns) (inl refl))
      | inr (dz, q) ↦
          rw (p, serve_dns)
            (rw (q, serve_dns) (serve_zone-Effect (c.matches d.zones.names r.qname) dz r d q))
    ]
  ]

  -- What becomes of the store at a request for a zone that the table has.
  abbrev Performs : String → FileZone → Request c → DynamicUpdate c → Type 0
  Performs zone dz r d = view (serve_zone c write_msg now zone dz r d).1.zones ≡ (
      if is_update c r
      then change zone (zone_of (apply_questions c r.question dz r.ns)) (view d.zones)
      else view d.zones)

  serve_zone-perform :
      (zone : String) (dz : FileZone) (r : Request c) (d : DynamicUpdate c)
      → IsConsistent d.zones
      → d.zones.dynamic_zones zone ≡ some dz
      → Performs zone dz r d
  unfolding serve_zone
  serve_zone-perform zone dz r d h there =
      elim (Bool-cases (r.qtype == Dns.type_axfr || r.qtype == Dns.type_ixfr)) [
        | inl p ↦ rw p refl
        | inr p ↦ elim (Bool-cases (r.opcode == Dns.opcode_notify)) [
          | inl q ↦
              let u : (r.opcode == Dns.opcode_update) ≡ false = ground arith in rw (p, q, u) refl
          | inr q ↦ elim (Bool-cases (r.opcode == Dns.opcode_update)) [
            | inl u ↦
                rw (p, q, u)
                  (ap view (zones-handle_update zone dz r d)
                    ∙ view-set_dynamic zone (zone_of (apply_questions c r.question dz r.ns)) d.zones
                        h (ap is_some there))
            | inr u ↦ rw (p, q, u) (ap view (zones-answer_query c write_msg zone r d))
          ]
        ]
      ]

  serve_dns-perform :
      (r : Request c) (d : DynamicUpdate c)
      → IsConsistent d.zones
      → view (serve_dns c write_msg now r d).1.zones
        ≡ perform c (asked r (c.matches d.zones.names r.qname)) (view d.zones)
  unfolding serve_dns perform
  serve_dns-perform r d h =
      let zone = c.matches d.zones.names r.qname in
      elim (Bool-cases (str_eq zone "")) [
        | inl p ↦ elim (Option-cases (view d.zones zone)) [
          | inl q ↦ rw (p, q) refl
          | inr ((s, dz), q) ↦ rw (p, q) (ground arith)
        ]
        | inr p ↦ elim (Option-cases (d.zones.dynamic_zones zone)) [
          | inl q ↦ elim (Option-cases (d.zones.z zone)) [
            | inl none_there ↦ rw (p, serve_dns) (rw (q, none_there) refl)
            | inr (s, found) ↦ absurd (ground (arith, h.same_keys zone))
          ]
          | inr (dz, q) ↦
              let (s, found) =
                is_some-eq_some (d.zones.z zone) (sym (h.same_keys zone) ∙ ap is_some q) in
              rw (p, serve_dns)
                (rw (q, serve_dns)
                  (rw (found, p)
                    (serve_zone-perform zone dz r d h q
                      ∙ if_and_true (is_update c r)
                          (change zone (zone_of (apply_questions c r.question dz r.ns))
                            (view d.zones))
                          (view d.zones))))
        ]
      ]

module _ (c : Coredns) where
  open c use {FileZone}

  reconcile-perform :
      (namespace name : String) (d : DynamicUpdate c)
      → IsConsistent d.zones
      → view (reconcile c namespace name d).1.zones
        ≡ perform c (noticed d.cluster namespace name) (view d.zones)
  unfolding reconcile load_object perform
  reconcile-perform namespace name d h = elim (Result-cases (c.get_zone d.cluster namespace name)) [
    | inl (e, p) ↦ rw (p, reconcile) refl
    | inr (obj, p) ↦
        let n = c.fqdn obj.name in
        let same : is_some (view d.zones n) ≡ is_some (d.zones.z n) =
          ground (arith, h.same_keys n) in
        elim (Bool-cases (is_deleting obj && is_some (d.zones.z n))) [
          | inl gone ↦ rw (p, reconcile) (rw (same, gone) (view-delete_zone n d.zones))
          | inr live ↦ elim (Result-cases (c.parse_zone obj.spec.zone n)) [
            | inl (e, q) ↦ rw (p, reconcile) (rw (same, live) (rw (q, load_object) refl))
            | inr (parsed, q) ↦
                rw (p, reconcile)
                  (rw (same, live) (rw (q, load_object) (view-put_zone c n parsed d.zones h)))
          ]
        ]
  ]

module _ (c : Coredns) (laws : FileZoneLaws c) (law : MatchesLaw c) where
  open laws use {origin}

  -- What happens to the store by a step of the plugin: a request comes for the zone that its name
  -- matches among the listed ones, and an event's object is read from the cluster as it then is.
  pub act_of : {d e : DynamicUpdate c} → Step c d e → Option (Act c)
  act_of {d} (request write_msg now r) = some (asked r (c.matches d.zones.names r.qname))
  act_of {d} (object_event namespace name) = some (noticed d.cluster namespace name)
  act_of (cluster_change k) = none

  abbrev perform_some : Option (Act c) → Store c.FileZone → Store c.FileZone
  perform_some none st = st
  perform_some (some act) st = perform c act st

  -- The store after the steps, by what happened in them alone.
  pub replay : {d e : DynamicUpdate c} → Reach c d e → Store c.FileZone → Store c.FileZone
  replay here st = st
  replay (next r step) st = perform_some (act_of step) (replay r st)

  Step-perform :
      {d e : DynamicUpdate c} (step : Step c d e)
      → IsServable origin d.zones
      → view e.zones ≡ perform_some (act_of step) (view d.zones)
  unfolding act_of
  Step-perform {d} (request write_msg now r) h = serve_dns-perform c write_msg now r d h.consistent
  Step-perform {d} (object_event namespace name) h =
      reconcile-perform c namespace name d h.consistent
  Step-perform (cluster_change k) h = refl

  -- The plugin refines the store: from a table that lists its zones once and has both parts of each
  -- under its origin, after any requests, object events and changes of the cluster, the tables
  -- stand for just the store that these make of the one at the start. There, an update changes the
  -- dynamic part of its zone by its records; an event withdraws the zone of an object that is being
  -- deleted, if it is there, and else publishes the object's text, if it parses, under the dynamic
  -- part that the zone has, or an empty one; and nothing else changes the store.
  pub Reach-replay :
      {d e : DynamicUpdate c} (reach : Reach c d e)
      → IsServable origin d.zones
      → view e.zones ≡ replay reach (view d.zones)
  unfolding replay
  Reach-replay here h = refl
  Reach-replay (next r step) h =
      Step-perform step (Reach-IsServable c laws law r h)
      ∙ ap (perform_some (act_of step)) (Reach-replay r h)
