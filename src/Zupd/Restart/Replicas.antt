-- ===== src/Zupd/Restart/Replicas.antt =====
-- Two plugins that save to one object: the operator runs zupd twice (`replicas` in `zupdDeployment`,
-- controllers/dns/zupd.go), and each process has its own table.
use ksdns.Prelude.{ℕ, String, ◌≡◌, sym, some-injective, ◌∙◌, subst, [], ◌∷◌, ◌↔◌, Option, some}
use ksdns.Prelude.Go.{Error, ok}
use ksdns.Zupd.Dns
use ksdns.Zupd.Coredns.{Coredns, FileZoneLaws, ListsUpdated, ReadsBack, Zone, ZoneStatus}
use ksdns.Zupd.State.{Request, Reply, DynamicUpdate, rcode}
use ksdns.Zupd.Update.{apply_questions}
use ksdns.Zupd.Update.Effects.{zone_of}
use ksdns.Zupd.Serve.{handle_update}
use ksdns.Zupd.Serve.Outcomes.{handle_update_keeps}
use ksdns.Zupd.Restart.{HoldsText}
use ksdns.Zupd.Restart.Durability.{success_survives_restart}
use ksdns.Zupd.Initialize.Entries.{OthersHaveRecords}
use ksdns.Zupd.Zones.{Zones}
use ksdns.Zupd.Initialize.{loaded, initialize}

module _ (c : Coredns) (laws : FileZoneLaws c) (reads : ReadsBack c) (lists : ListsUpdated c) where
  open c use {FileZone, Cluster, fqdn}
  open laws use {origin}

  -- A start on the cluster builds a table whose dynamic zone of the object's name has exactly the
  -- texts of the zone.
  abbrev pub StartsWith : Cluster → Zone → FileZone → Type 0
  StartsWith k obj saved =
      (zs : Zones FileZone) × (z : FileZone) × (initialize c k ((obj.namespace ∷ []) ∷ [])
        ≡ loaded zs)
      × (zs.dynamic_zones (fqdn obj.name) ≡ some z)
      × ((t : String) → HoldsText c laws reads z t ↔ HoldsText c laws reads saved t)

  saved_zone :
      (write_msg : Reply c → Option Error) (now : ℕ) (dz : FileZone) (r : Request c)
      (d : DynamicUpdate c) (obj : Zone) (parsed : FileZone)
      → d.namespaces ≡ obj.namespace ∷ []
      → c.get_zone d.cluster obj.namespace (c.trim_dot (fqdn obj.name)) ≡ ok obj
      → c.parse_zone obj.spec.zone (fqdn obj.name) ≡ ok parsed
      → origin dz ≡ fqdn obj.name
      → (handle_update c write_msg now (fqdn obj.name) dz r d).0 ≡ rcode Dns.rcode_success
      → OthersHaveRecords c (handle_update c write_msg now (fqdn obj.name) dz r d).1.cluster obj
      → StartsWith
          (handle_update c write_msg now (fqdn obj.name) dz r d).1.cluster
          obj
          (zone_of (apply_questions c r.question dz r.ns))
  saved_zone write_msg now dz r d obj parsed one found parses o success others =
      let (zs, z, left, built, dynamic, kept, texts) =
        success_survives_restart c laws reads lists write_msg now dz r d obj parsed one found parses
          o success others in
      let same : left ≡ zone_of (apply_questions c r.question dz r.ns) =
        some-injective (sym kept ∙ handle_update_keeps c write_msg now (fqdn obj.name) dz r d) in
      (
        zs,
        z,
        built,
        dynamic,
        subst (λ y. (t : String) → HoldsText c laws reads z t ↔ HoldsText c laws reads y t) same
            texts,
      )

  -- Two plugins `a` and `b` of one namespace, each with its own dynamic zone: `a` answers success to
  -- an update, and then `b`, which reads the object with the status that it then has, answers
  -- success to another. A start between the two finds exactly the texts of `a`'s dynamic zone; a
  -- start after both finds exactly those of `b`'s, so what only `a` was told is lost. Each
  -- start needs that the statuses of the other objects of the namespace have no text that parses to
  -- no record.
  pub second_replica_overwrites :
      (write_a write_b : Reply c → Option Error) (now_a now_b : ℕ) (dz_a dz_b : FileZone)
      (r_a r_b : Request c) (a b : DynamicUpdate c) (obj : Zone) (status : ZoneStatus)
      (parsed : FileZone)
      → a.namespaces ≡ obj.namespace ∷ []
      → b.namespaces ≡ obj.namespace ∷ []
      → c.get_zone a.cluster obj.namespace (c.trim_dot (fqdn obj.name)) ≡ ok obj
      → b.cluster ≡ (handle_update c write_a now_a (fqdn obj.name) dz_a r_a a).1.cluster
      → c.get_zone b.cluster obj.namespace (c.trim_dot (fqdn obj.name))
        ≡ ok (record obj { status = status })
      → c.parse_zone obj.spec.zone (fqdn obj.name) ≡ ok parsed
      → origin dz_a ≡ fqdn obj.name
      → origin dz_b ≡ fqdn obj.name
      → (handle_update c write_a now_a (fqdn obj.name) dz_a r_a a).0 ≡ rcode Dns.rcode_success
      → (handle_update c write_b now_b (fqdn obj.name) dz_b r_b b).0 ≡ rcode Dns.rcode_success
      → OthersHaveRecords c b.cluster obj
      → OthersHaveRecords c (handle_update c write_b now_b (fqdn obj.name) dz_b r_b b).1.cluster obj
      → StartsWith b.cluster obj (zone_of (apply_questions c r_a.question dz_a r_a.ns))
        × StartsWith
            (handle_update c write_b now_b (fqdn obj.name) dz_b r_b b).1.cluster
            obj
            (zone_of (apply_questions c r_b.question dz_b r_b.ns))
  second_replica_overwrites write_a write_b now_a now_b dz_a dz_b r_a r_b a b obj status parsed
        one_a one_b found_a behind found_b parses o_a o_b success_a success_b others_a others_b =
      (
        subst (λ k. StartsWith k obj (zone_of (apply_questions c r_a.question dz_a r_a.ns)))
            (sym behind)
            (saved_zone write_a now_a dz_a r_a a obj parsed one_a found_a parses o_a success_a
              (subst (λ k. OthersHaveRecords c k obj) behind others_a)),
        saved_zone write_b now_b dz_b r_b b (record obj { status = status }) parsed one_b found_b
            parses o_b success_b others_b,
      )
