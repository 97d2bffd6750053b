-- ===== src/Tests/Serving.antt =====
-- A zone of the Ksdns object, from the small API server to the small CoreDNS.
use ksdns.Prelude.{
  String, ◌≡◌, ◌↔◌, ◌⊎◌, refl, sym, ap, ◌∙◌, true, false, none, some, List, [], ◌∷◌, arith, str_eq,
  eq_iff, inl, inr, ◌&&◌, ◌==◌, Bool-cases,
}
use ksdns.Prelude.Go.{ok, ok-injective}
use ksdns.Zupd.Coredns.{ZoneSpec, Zone}
use ksdns.Operator.Objects.{
  Object, Body, Kind, kind_of, zone, config_map, secret, service_account, service, deployment, role,
  role_binding,
}
use ksdns.Deployed.Serving.{OneServer, written_zone_served}
use ksdns.Tests.Toy.{Rr, FileZone, toy, toy_laws}
use ksdns.Tests.Toy as Toy
use ksdns.Tests.Operator.{Server, kind_id, find, owner, server, server_laws}
use ksdns.Tests.Rewrites.{showing, server_updates, text_at, all_three, got-key}
use ksdns.Tests.Api.{zone_a, named}
use ksdns.Tests.Zupd.{table-IsServable, query, connection}
use ksdns.Tests.Zupd as Zupd
use ksdns.Prelude.Go.{not_found}
use ksdns.Api.Records.{to_rfc1035_zone, record_rr, record_string, add_rrs, add_records, new_a}
use ksdns.Api.Records.Text.{to_rfc1035_zone_exactly}
use ksdns.Operator.Kubernetes.{attempts}
use ksdns.Operator.Ensure.{ensure_zone}
use ksdns.Operator.Ensure.Rewrites.{zone_object}
use ksdns.Operator.Retry.{create_or_update_with_retries, trial}
use ksdns.Zupd.State.{DynamicUpdate}
use ksdns.Zupd.Merge.Contents.{Holds}
use ksdns.Zupd.Serve.{serve_dns, answer_from}
use ksdns.Zupd.Reconcile.{is_deleting, load_object, put_zone, reconcile}
use ksdns.Tests.Toy.{address, soa}

abbrev as_zone : Object → ZoneSpec → Zone
as_zone o spec = record {
  name = o.name;
  namespace = o.namespace;
  deletion_timestamp = none;
  spec = spec;
  status = record { dynamic_rrs = []; serial = 0 };
}

abbrev with_zone : Object → Body → List Zone → List Zone
with_zone o (zone spec) rest = as_zone o spec ∷ rest
with_zone o _ rest = rest

abbrev zones_of : List Object → List Zone
zones_of [] = []
zones_of (o ∷ os) = let rest = zones_of os in with_zone o o.body rest

-- The head of the list, in both readings.
hit :
    (o : Object) (b : Body) (rest : List Zone) (n name : String) (spec : ZoneSpec)
    → b ≡ zone spec
    → str_eq o.namespace n ≡ true
    → str_eq o.name name ≡ true
    → Toy.find (with_zone o b rest) n name ≡ ok (as_zone o spec)
hit o (zone s) rest n name spec e p q = ground arith
hit o (config_map d b) rest n name spec e p q = cc
hit o (secret d d') rest n name spec e p q = cc
hit o service_account rest n name spec e p q = cc
hit o (service s) rest n name spec e p q = cc
hit o (deployment s) rest n name spec e p q = cc
hit o (role s) rest n name spec e p q = cc
hit o (role_binding s t) rest n name spec e p q = cc

miss :
    (o : Object) (b : Body) (rest : List Zone) (n name : String)
    → ((kind_id (kind_of b) == 7) && str_eq o.namespace n && str_eq o.name name) ≡ false
    → Toy.find (with_zone o b rest) n name ≡ Toy.find rest n name
miss o (zone s) rest n name e = ground arith
miss o (config_map d b) rest n name e = refl
miss o (secret d d') rest n name e = refl
miss o service_account rest n name e = refl
miss o (service s) rest n name e = refl
miss o (deployment s) rest n name e = refl
miss o (role s) rest n name e = refl
miss o (role_binding s t) rest n name e = refl

zones_read :
    (os : List Object) (n name : String) (o : Object) (spec : ZoneSpec)
    → find os Kind.zone_kind n name ≡ ok o
    → o.body ≡ zone spec
    → Toy.find (zones_of os) n name ≡ ok (as_zone o spec)
zones_read [] n name o spec h b = cc
zones_read (x ∷ xs) n name o spec h b =
    elim (Bool-cases
      ((kind_id (kind_of x.body) == 7) && str_eq x.namespace n && str_eq x.name name)) [
        | inl e ↦
            let same : x ≡ o = ok-injective (rw e at h) in
            let (_, in_namespace, named_so) = all_three _ _ _ e in
            hit x x.body (zones_of xs) n name spec (ap (λ t. t.body) same ∙ b) in_namespace named_so
            ∙ ap (λ t. ok (as_zone t spec)) same
        | inr e ↦ miss x x.body (zones_of xs) n name e ∙ zones_read xs n name o spec (rw e at h) b
      ]

one_server : OneServer server toy
one_server = record {
  seen = λ s. zones_of s.objects;
  zone_seen = λ s n name o spec h b.
      let (working, in_namespace, named_so) = got-key s Kind.zone_kind n name o h in
      (as_zone o spec, zones_read s.objects n name o spec (rw working at h) b, named_so, refl);
}

abbrev nothing : Server
nothing = record { objects = []; pending = 0 }

abbrev made : Zone
made = as_zone (record (zone_object owner zone_a) { body = zone (text_at 7) }) (text_at 7)

made_by_step :
    one_server.seen (ensure_zone server showing 7 (some 2) owner zone_a nothing).1 ≡ made ∷ []
unfolding ensure_zone to_rfc1035_zone add_rrs add_records record_rr record_string new_a
    create_or_update_with_retries attempts trial one_server
made_by_step = refl

abbrev parsed : FileZone
parsed = record { origin = "a."; tree = address ((text_at 7).zone) ∷ []; apex = soa ∷ [] }

parses : toy.parse_zone ((text_at 7).zone) "a." ≡ ok parsed
unfolding record_rr new_a
parses = refl

abbrev plugin : DynamicUpdate toy
plugin = Zupd.start (made ∷ [])

is_live : (obj : Zone) → toy.get_zone (made ∷ []) "ns" "a." ≡ ok obj → is_deleting obj ≡ false
unfolding is_deleting
is_live obj h = ap is_deleting (sym (ok-injective h))

matched : toy.matches (reconcile toy "ns" "a." plugin).1.zones.names "a." ≡ "a."
unfolding reconcile load_object put_zone is_deleting record_rr new_a
matched = refl

written_zone_served_example :
    (dz : FileZone) × (merged : FileZone) × ((reconcile toy "ns" "a." plugin).0 ≡ none)
    × ((reconcile toy "ns" "a." plugin).1.notified ≡ "a." ∷ [])
    × ((reconcile toy "ns" "a." plugin).1.zones.dynamic_zones "a." ≡ some dz)
    × ((x : Rr)
        → Holds toy toy_laws merged x ↔ (Holds toy toy_laws parsed x ⊎ Holds toy toy_laws dz x))
    × (toy.apex_if_defined merged ≡ toy.apex_if_defined parsed)
    × (serve_dns toy connection 0 query (reconcile toy "ns" "a." plugin).1
        ≡ answer_from toy connection merged query (reconcile toy "ns" "a." plugin).1)
written_zone_served_example =
    written_zone_served server 4 server_laws (omega arith) server_updates showing 7 (some 2) owner
      zone_a nothing (zone_object owner zone_a) (text_at 7)
      ((to_rfc1035_zone_exactly showing 7 zone_a (some 2) (text_at 7)).1 (named, (refl, tt), refl))
      (inr (not_found, refl, refl, refl)) refl toy one_server toy_laws connection plugin parsed 0
      query table-IsServable (sym made_by_step) is_live parses (λ e. absurd (omega arith))
      (λ e. absurd (omega arith)) (λ e. absurd (omega arith)) (λ e. absurd (omega arith)) matched
      (λ e. ground (arith, eq_iff "a." ""))
