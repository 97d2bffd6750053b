-- ===== src/Operator/Ensure/Rewrites.antt =====
-- The zone objects, written again: `ensureZones` (controllers/dns/zone.go) at two times.
use ksdns.Prelude.{inl, ℕ, String, ◌≡◌, ◌≢◌, refl, sym, ap, ◌∙◌, Option, none, ◌%◌, ◌^◌, ◌<◌}
use ksdns.Prelude.Go.{ok}
use ksdns.Zupd.Coredns.{ZoneSpec}
use ksdns.Api.Records.{Zone, Miekg, to_rfc1035_zone}
use ksdns.Api.Records.Serials.{ShowsSerial, converted_again}
use ksdns.Operator.Objects.{Kind, Body, zone, Object, Ksdns}
use ksdns.Operator.Kubernetes.{Kubernetes, KubernetesLaws}
use ksdns.Operator.Labels.{make_labels}
use ksdns.Operator.Resources.{plain_object}
use ksdns.Operator.Ensure.{with_body, ensure_zone}
use ksdns.Operator.Ensure.Stored.{UpdateLaws, stored_as}

abbrev text_in : Body → String
text_in (zone spec) = spec.zone
text_in _ = ""

-- What the code passes to `CreateOrUpdate` for a zone of the Ksdns object.
abbrev pub zone_object : Ksdns → Zone → Object
zone_object owner z =
    plain_object z.origin owner (make_labels "zone" owner) (zone (record { zone = "" }))

module _ (k : Kubernetes) (law : UpdateLaws k) (owner : Ksdns) (z : Zone) where
  module _ (m : Miekg) (shows : ShowsSerial m) (ip : Option (m.Ip)) where
    -- Where the server holds a zone object with the text of one time, and accepts an update of it,
    -- the step that ensures the zone at another time, with the same Ksdns object, writes another
    -- text, unless the two times agree modulo 2³².
    pub zone_rewritten :
        (steps earlier later : ℕ) (c : k.Cluster) (existing : Object) (spec : ZoneSpec)
        → KubernetesLaws k steps
        → 0 < steps
        → earlier % 2 ^ 32 ≢ later % 2 ^ 32
        → to_rfc1035_zone m earlier z ip ≡ ok spec
        → k.get c Kind.zone_kind owner.namespace z.origin ≡ ok existing
        → existing.body ≡ zone spec
        → ((next : ZoneSpec)
            → (k.create_or_update c (zone_object owner z) (with_body k owner (zone next))).failure
              ≡ none)
        → (stored : Object) × (k.get
              (ensure_zone k m later ip owner z c).1
              Kind.zone_kind
              owner.namespace
              z.origin
            ≡ ok stored)
          × (stored.body ≢ existing.body)
    unfolding ensure_zone
    zone_rewritten steps earlier later c existing spec laws room differ before found holds
          accepted =
        let (next, converted, other) =
          converted_again m shows z ip earlier later spec differ before in
        let (stored, read, body) =
          stored_as k law owner (zone_object owner z) (λ b. zone next) steps c existing laws room
            refl refl (inl found) (accepted next) in
        (stored, rw (converted, ensure_zone) read, λ e. other (ap text_in (sym body ∙ e ∙ holds)))
