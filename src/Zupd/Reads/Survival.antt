-- ===== src/Zupd/Reads/Survival.antt =====
-- What may come between the reads of a request and leave it its zones.
use ksdns.Prelude.{
  String, ◌≡◌, ◌≢◌, refl, sym, ◌∙◌, subst, true, Option, arith, ◌||◌, ◌==◌, str_eq, eq_iff, is_some,
  is_some-eq_some, Bool-cases, Option-cases, inl, inr,
}
use mathlib.Core.Bool.{false≢true}
use ksdns.Prelude.Go.{Error}
use ksdns.Zupd.Coredns.{Coredns, FileZoneLaws, MatchesLaw}
use ksdns.Zupd.Dns
use ksdns.Zupd.Zones.{Zones}
use ksdns.Zupd.Zones.Consistency.{listed-has_zone}
use ksdns.Zupd.Invariant.{IsServable}
use ksdns.Zupd.State.{Request, Reply, DynamicUpdate, nil_pointer}
use ksdns.Zupd.Serve.{answer_from}
use ksdns.Zupd.System.{Step-IsServable}
use ksdns.Zupd.Quiet.{Keeps, Quiet-Step, Quiet-Keeps}
use ksdns.Zupd.Reads.{
  Stage, arrived, matched, merging, paired, answered, guarded, advance, find_dynamic, read_static,
  read_dynamic, Interleaved, start, own, others,
}

module _ (c : Coredns) (laws : FileZoneLaws c) (law : MatchesLaw c)
    (write_msg : Reply c → Option Error) (r : Request c) where
  open c use {FileZone}
  open laws use {origin}

  -- What the handler has read is still in the table, and it has met no nil pointer.
  abbrev Stands : Stage c → Zones FileZone → Type 0
  Stands arrived zs = Unit {0}
  Stands (matched zone) zs = is_some (zs.z zone) ≡ true
  Stands (merging zone) zs = is_some (zs.z zone) ≡ true
  Stands (paired zone z) zs = is_some (zs.z zone) ≡ true
  Stands (answered outcome) zs = outcome ≢ nil_pointer

  Stands-Keeps :
      (p : Stage c) (zs zs' : Zones FileZone) → Keeps c zs zs' → Stands p zs → Stands p zs'
  Stands-Keeps arrived zs zs' k h = h
  Stands-Keeps (matched zone) zs zs' k h = k zone h
  Stands-Keeps (merging zone) zs zs' k h = k zone h
  Stands-Keeps (paired zone z) zs zs' k h = k zone h
  Stands-Keeps (answered outcome) zs zs' k h = h

  guarded-Stands :
      (zone : String) (zs : Zones FileZone)
      → is_some (zs.z zone) ≡ true
      → Stands (guarded c r zone) zs
  unfolding guarded
  guarded-Stands zone zs h =
      elim (Bool-cases (r.qtype == Dns.type_axfr || r.qtype == Dns.type_ixfr)) [
        | inl x ↦ rw x (λ e. cc)
        | inr x ↦ elim (Bool-cases (r.opcode == Dns.opcode_notify)) [
          | inl n ↦ rw (x, n) (λ e. cc)
          | inr n ↦ rw (x, n) h
        ]
      ]

  answer_from_safe :
      (m : FileZone) (d : DynamicUpdate c) → (answer_from c write_msg m r d).0 ≢ nil_pointer
  unfolding answer_from
  answer_from_safe m d = ground arith

  zones-answer_from :
      (m : FileZone) (d : DynamicUpdate c) → (answer_from c write_msg m r d).1.zones ≡ d.zones
  unfolding answer_from
  zones-answer_from m d = ground arith

  -- The handler's own reads.
  advance-Stands :
      (p : Stage c) (d : DynamicUpdate c)
      → IsServable origin d.zones
      → Stands p d.zones
      → Stands (advance c write_msg r p d).0 d.zones
        × ((advance c write_msg r p d).1.zones ≡ d.zones)
  unfolding advance find_dynamic read_static read_dynamic
  advance-Stands arrived d h s = elim (Bool-cases (str_eq (c.matches d.zones.names r.qname) "")) [
    | inl p ↦ rw p ((λ x. cc), refl)
    | inr p ↦ rw p (
      (listed-has_zone (c.matches d.zones.names r.qname) d.zones h.consistent (
          law d.zones.names r.qname
            (λ x. false≢true (sym p ∙ (eq_iff (c.matches d.zones.names r.qname) "").1 x)))).0,
      refl,
    )
  ]
  advance-Stands (matched zone) d h s = elim (Option-cases (d.zones.dynamic_zones zone)) [
    | inl p ↦ rw (p, find_dynamic) ((λ x. cc), refl)
    | inr (dz, p) ↦ rw (p, find_dynamic) (guarded-Stands zone d.zones s, refl)
  ]
  advance-Stands (merging zone) d h s =
      let (z, p) = is_some-eq_some (d.zones.z zone) s in rw (p, read_static) (s, refl)
  advance-Stands (paired zone z) d h s =
      let (dz, p) =
        is_some-eq_some (d.zones.dynamic_zones zone) (h.consistent.same_keys zone ∙ s) in
      rw (p, read_dynamic) (answer_from_safe _ d, zones-answer_from _ d)
  advance-Stands (answered outcome) d h s = (s, refl)

  Interleaved-Stands :
      {d e : DynamicUpdate c} {p : Stage c}
      → IsServable origin d.zones
      → Interleaved c write_msg r d p e
      → IsServable origin e.zones × Stands p e.zones
  Interleaved-Stands h start = (h, tt)
  Interleaved-Stands h (own {p} {e} i) =
      let (servable, stands) = Interleaved-Stands h i in
      let (still, same) = advance-Stands p e servable stands in
      (
        subst (IsServable origin) (sym same) servable,
        subst (Stands (advance c write_msg r p e).0) (sym same) still,
      )
  Interleaved-Stands h (others {p} {e} {f} i q) =
      let (servable, stands) = Interleaved-Stands h i in
      (
        Step-IsServable c laws law (Quiet-Step c q) servable,
        Stands-Keeps p e.zones f.zones (Quiet-Keeps c q) stands,
      )

  -- From a table that lists its zones once, with both parts of each, and for a request that is no
  -- update: whatever other requests, changes of the cluster and events of objects that are not being
  -- deleted come between the reads of the handler, it meets no nil pointer.
  pub quiet_reads_survive :
      {d e : DynamicUpdate c} {p : Stage c}
      → r.opcode ≢ Dns.opcode_update
      → IsServable origin d.zones
      → Interleaved c write_msg r d p e
      → p ≢ answered nil_pointer
  quiet_reads_survive {p = arrived} query h i = λ x. cc
  quiet_reads_survive {p = matched zone} query h i = λ x. cc
  quiet_reads_survive {p = merging zone} query h i = λ x. cc
  quiet_reads_survive {p = paired zone z} query h i = λ x. cc
  quiet_reads_survive {p = answered outcome} query h i =
      let stands : outcome ≢ nil_pointer = (Interleaved-Stands h i).1 in λ x. stands (cc)
