-- ===== src/Deployed/Serving.antt =====
-- From a zone of the Ksdns object to the answers of zupd: the step that ensures the zone
-- (controllers/dns/zone.go), the event of its object (zone_controller.go) and a query
-- (dynamicupdate.go).
use ksdns.Prelude.{
  if◌then◌else◌, ℕ, String, ◌≡◌, ◌≢◌, refl, ap, ◌∙◌, false, Option, none, some, ◌∷◌, ◌<◌, ◌⊎◌, ◌↔◌,
  is_some, is_some-eq_some, eq_refl,
}
use ksdns.Prelude.Go.{Error, ok}
use ksdns.Zupd.Coredns.{ZoneSpec, Coredns, FileZoneLaws, MatchesLaw}
use ksdns.Zupd.Coredns as Coredns
use ksdns.Zupd.Dns
use ksdns.Zupd.Invariant.{IsServable}
use ksdns.Zupd.State.{Request, Reply, DynamicUpdate}
use ksdns.Zupd.Merge.Contents.{Holds}
use ksdns.Zupd.Serve.{answer_from, serve_dns}
use ksdns.Zupd.Serve.Serials.{query_reads_merged}
use ksdns.Zupd.Reconcile.{is_deleting, reconcile}
use ksdns.Zupd.Reconcile.Effects.{reconcile_applies, reconcile_notifies, reconcile-IsServable}
use ksdns.Api.Records.{Zone, Miekg, to_rfc1035_zone}
use ksdns.Operator.Objects.{Kind, zone, Object, Ksdns}
use ksdns.Operator.Kubernetes.{Kubernetes, KubernetesLaws}
use ksdns.Operator.Ensure.{with_body, ensure_zone}
use ksdns.Operator.Ensure.Stored.{Given, UpdateLaws, stored_as}
use ksdns.Operator.Ensure.Rewrites.{zone_object}

-- One API server, as the operator's client and the plugin's read it: a Zone object that the one
-- reads, the other reads too, with the same name and text.
pub record OneServer (k : Kubernetes) (c : Coredns) : Type 0 where
  pub seen : k.Cluster → c.Cluster
  pub zone_seen :
      (s : k.Cluster) (namespace name : String) (o : Object) (spec : ZoneSpec)
      → k.get s Kind.zone_kind namespace name ≡ ok o
      → o.body ≡ zone spec
      → (obj : Coredns.Zone) × (c.get_zone (seen s) namespace name ≡ ok obj)
        × (obj.name ≡ name)
        × (obj.spec ≡ spec)

module _ (k : Kubernetes) (steps : ℕ) (laws : KubernetesLaws k steps) (room : 0 < steps)
    (law : UpdateLaws k) (m : Miekg) (now : ℕ) (ip : Option (m.Ip)) (owner : Ksdns) (z : Zone)
    (s : k.Cluster) (base : Object) (spec : ZoneSpec)
    (converted : to_rfc1035_zone m now z ip ≡ ok spec)
    (given : Given k s (zone_object owner z) base)
    (accepted : (k.create_or_update s (zone_object owner z) (with_body k owner (zone spec))).failure
      ≡ none) where
  -- What the plugin reads after the step.
  object_after :
      (c : Coredns) (one : OneServer k c)
      → (obj : Coredns.Zone) × (c.get_zone
            (one.seen (ensure_zone k m now ip owner z s).1)
            owner.namespace
            z.origin
          ≡ ok obj)
        × (obj.name ≡ z.origin)
        × (obj.spec ≡ spec)
  unfolding ensure_zone
  object_after c one =
      let (stored, read, body) =
        stored_as k law owner (zone_object owner z) (λ b. zone spec) steps s base laws room refl
          refl given accepted in
      one.zone_seen (ensure_zone k m now ip owner z s).1 owner.namespace z.origin stored spec
        (rw (converted, ensure_zone) read) body

  module _ (c : Coredns) (one : OneServer k c) (zone_laws : FileZoneLaws c)
      (write_msg : Reply c → Option Error) (d : DynamicUpdate c) (parsed : c.FileZone) where
    open c use {FileZone, Rr}
    open zone_laws use {origin}

    -- The step of the operator that ensures a zone whose object the server has, or says that it has
    -- not, and an update that the server accepts; then the event of that object, in a plugin that
    -- reads the same server and whose table has both parts of each zone. If the object is not being
    -- deleted and the text parses: the event ends well, one NOTIFY goes out for the zone, with
    -- the transfer plugin, and a
    -- query for it is answered from a zone that holds the records that the text parses to and those
    -- of the zone's dynamic part, and no others, under the apex of the text.
    pub written_zone_served :
        (now_ms : ℕ) (r : Request c)
        → IsServable origin d.zones
        → d.cluster ≡ one.seen (ensure_zone k m now ip owner z s).1
        → ((obj : Coredns.Zone)
            → c.get_zone d.cluster owner.namespace z.origin ≡ ok obj
            → is_deleting obj ≡ false)
        → c.parse_zone spec.zone (c.fqdn z.origin) ≡ ok parsed
        → r.opcode ≢ Dns.opcode_update
        → r.opcode ≢ Dns.opcode_notify
        → r.qtype ≢ Dns.type_axfr
        → r.qtype ≢ Dns.type_ixfr
        → c.matches (reconcile c owner.namespace z.origin d).1.zones.names r.qname ≡ c.fqdn z.origin
        → c.fqdn z.origin ≢ ""
        → (dz : FileZone) × (merged : FileZone) × ((reconcile c owner.namespace z.origin d).0
            ≡ none)
          × ((reconcile c owner.namespace z.origin d).1.notified
              ≡ (if d.has_transfer then c.fqdn z.origin ∷ d.notified else d.notified))
          × ((reconcile c owner.namespace z.origin d).1.zones.dynamic_zones (c.fqdn z.origin)
              ≡ some dz)
          × ((x : Rr)
              → Holds c zone_laws merged x ↔ (Holds c zone_laws parsed x ⊎ Holds c zone_laws dz x))
          × (c.apex_if_defined merged ≡ c.apex_if_defined parsed)
          × (serve_dns c write_msg now_ms r (reconcile c owner.namespace z.origin d).1
              ≡ answer_from c write_msg merged r (reconcile c owner.namespace z.origin d).1)
    written_zone_served now_ms r servable same live parses u n x y match some_zone =
        let (obj, seen, named, holds_text) = object_after c one in
        let e = (reconcile c owner.namespace z.origin d).1 in
        let found = ap (λ t. c.get_zone t owner.namespace z.origin) same ∙ seen in
        let obj_parses : c.parse_zone obj.spec.zone (c.fqdn obj.name) ≡ ok parsed =
          ap (λ t. c.parse_zone t.zone (c.fqdn obj.name)) holds_text
          ∙ ap (λ t. c.parse_zone spec.zone (c.fqdn t)) named
          ∙ parses in
        let is_live = live obj found in
        let (ends, here, _) =
          reconcile_applies c owner.namespace z.origin d obj found parsed obj_parses is_live
            (c.fqdn z.origin) in
        let static : e.zones.z (c.fqdn z.origin) ≡ some parsed =
          here ∙ rw (ap c.fqdn named) (rw (eq_refl (c.fqdn z.origin)) refl) in
        let after : IsServable origin e.zones =
          reconcile-IsServable c zone_laws owner.namespace z.origin d servable in
        let (dz, dynamic) =
          is_some-eq_some (e.zones.dynamic_zones (c.fqdn z.origin))
            (after.consistent.same_keys (c.fqdn z.origin) ∙ ap is_some static) in
        let (merged, holds, apex, served) =
          query_reads_merged c zone_laws write_msg now_ms (c.fqdn z.origin) parsed dz r e after
            static dynamic u n x y match some_zone in
        let notifies =
          reconcile_notifies c owner.namespace z.origin d obj found parsed obj_parses is_live
          ∙ ap (λ t. if d.has_transfer then c.fqdn t ∷ d.notified else d.notified) named in
        (dz, merged, ends, notifies, dynamic, holds, apex, served)
