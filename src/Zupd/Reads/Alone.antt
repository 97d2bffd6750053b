-- ===== src/Zupd/Reads/Alone.antt =====
-- With nothing between its reads, the handler does what `serve_dns` says.
use ksdns.Prelude.{
  ℕ, String, ◌≡◌, ◌≢◌, refl, sym, ap, ◌∙◌, false, Option, none, some, arith, concat, ◌||◌, ◌==◌,
  str_eq, Bool-cases, Option-cases, inl, inr,
}
use ksdns.Prelude.Go.{Error}
use ksdns.Zupd.Coredns.{Coredns}
use ksdns.Zupd.Dns
use ksdns.Zupd.State.{Request, Reply, DynamicUpdate, Outcome, nil_pointer}
use ksdns.Zupd.Merge.{merge, insert_each}
use ksdns.Zupd.Serve.{answer_from, answer_query, serve_zone, serve_dns}
use ksdns.Zupd.Reads.{
  Stage, arrived, matched, merging, paired, answered, guarded, choose, advance, find_dynamic,
  read_static, read_dynamic, reads,
}

module _ (c : Coredns) (write_msg : Reply c → Option Error) (now : ℕ) (r : Request c)
    (d : DynamicUpdate c) where
  open c use {FileZone, all, copy}

  abbrev done : Outcome × DynamicUpdate c → Stage c × DynamicUpdate c
  done (o, e) = (answered o, e)

  answer_query_found :
      (zone : String) (o : Option FileZone)
      → merge c zone d.zones ≡ o
      → answer_query c write_msg zone r d
        ≡ elim o [ none ↦ (nil_pointer, d) | some m ↦ answer_from c write_msg m r d ]
  unfolding answer_query
  answer_query_found zone o e = rw (e, answer_query) refl

  -- Two reads from a stage, of which the first is known.
  then_read :
      (p q : Stage c) {s : Stage c × DynamicUpdate c}
      → advance c write_msg r p d ≡ (q, d)
      → advance c write_msg r q d ≡ s
      → reads c write_msg r 2 (p, d) ≡ s
  unfolding reads
  then_read p q one two = ap (λ t. advance c write_msg r t.0 t.1) one ∙ two

  merging_alone :
      (zone : String)
      → reads c write_msg r 2 (merging zone, d) ≡ done (answer_query c write_msg zone r d)
  unfolding advance read_static read_dynamic
  merging_alone zone = elim (Option-cases (d.zones.z zone)) [
    | inl p ↦
        then_read (merging zone) (answered nil_pointer) (rw (p, read_static) refl) refl
        ∙ ap done (sym (answer_query_found zone none (unfold merge in ground arith)))
    | inr (z, p) ↦ elim (Option-cases (d.zones.dynamic_zones zone)) [
      | inl q ↦
          then_read (merging zone) (paired zone z) (rw (p, read_static) refl)
            (rw (q, read_dynamic) refl)
          ∙ ap done (sym (answer_query_found zone none (unfold merge in ground arith)))
      | inr (dz, q) ↦
          then_read (merging zone) (paired zone z) (rw (p, read_static) refl)
            (rw (q, read_dynamic) refl)
          ∙ ap done (
              sym (
                answer_query_found zone
                  (some (insert_each c (insert_each c (copy z) (concat (all z))) (concat (all dz))))
                  (unfold merge in ground arith)))
    ]
  ]

  -- The reads from the choice of the zone on.
  matched_alone :
      (zone : String) (dz : FileZone)
      → r.opcode ≢ Dns.opcode_update
      → d.zones.dynamic_zones zone ≡ some dz
      → reads c write_msg r 3 (matched zone, d) ≡ done (serve_zone c write_msg now zone dz r d)
  unfolding reads advance find_dynamic guarded serve_zone
  matched_alone zone dz query q =
      elim (Bool-cases (r.qtype == Dns.type_axfr || r.qtype == Dns.type_ixfr)) [
        | inl x ↦ rw (q, find_dynamic) (rw x refl)
        | inr x ↦ elim (Bool-cases (r.opcode == Dns.opcode_notify)) [
          | inl n ↦ rw (q, find_dynamic) (rw (x, n) refl)
          | inr n ↦
              let no_update : (r.opcode == Dns.opcode_update) ≡ false = ground arith in
              rw (q, find_dynamic) (rw (x, n, no_update) (merging_alone zone))
        ]
      ]

  abbrev zone_of_request : String
  zone_of_request = c.matches d.zones.names r.qname

  serve_dns_known :
      (dz : FileZone)
      → str_eq zone_of_request "" ≡ false
      → d.zones.dynamic_zones zone_of_request ≡ some dz
      → serve_dns c write_msg now r d ≡ serve_zone c write_msg now zone_of_request dz r d
  unfolding serve_dns
  serve_dns_known dz p q = rw (p, serve_dns) (rw (q, serve_dns) refl)

  -- A request that is no update, with nothing between the reads of its handler: four reads give the
  -- outcome and the state of `serve_dns`.
  pub undisturbed :
      r.opcode ≢ Dns.opcode_update
      → reads c write_msg r 4 (arrived, d)
        ≡ (answered (serve_dns c write_msg now r d).0, (serve_dns c write_msg now r d).1)
  unfolding reads advance find_dynamic serve_dns
  undisturbed query = elim (Bool-cases (str_eq (c.matches d.zones.names r.qname) "")) [
    | inl p ↦ rw p refl
    | inr p ↦ elim (Option-cases (d.zones.dynamic_zones (c.matches d.zones.names r.qname))) [
      | inl q ↦ rw (p, serve_dns) (rw (q, serve_dns, find_dynamic) refl)
      | inr (dz, q) ↦
          ap (λ s. reads c write_msg r 3 (s, d))
            (let chosen : choose c write_msg r zone_of_request ≡ matched zone_of_request =
                rw p refl in
              chosen)
          ∙ matched_alone zone_of_request dz query q
          ∙ ap done (sym (serve_dns_known dz p q))
    ]
  ]
