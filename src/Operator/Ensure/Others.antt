-- ===== src/Operator/Ensure/Others.antt =====
-- What `ensureZones` (controllers/dns/zone.go) leaves alone: the objects of names that are no origin
-- of the Ksdns object's zones.
use ksdns.Prelude.{ℕ, String, ◌≡◌, ◌≢◌, refl, ap, ◌∙◌, Option, List, [], ◌∷◌, All}
use ksdns.Prelude.Go.{Result-cases}
use ksdns.Prelude.{inl, inr}
use ksdns.Api.Records.{Zone, Miekg, to_rfc1035_zone}
use ksdns.Operator.Objects.{Kind, zone, Body, Ksdns}
use ksdns.Operator.Kubernetes.{Kubernetes, KubernetesLaws}
use ksdns.Operator.Run.{Outcome, done, failed, panicked, Run, follow}
use ksdns.Operator.Retry.{create_or_update_with_retries}
use ksdns.Operator.Retry.Frame.{FrameLaws, KeepsName, retries_untouched}
use ksdns.Operator.Ensure.{with_body, ensure_zone, ensure_zones}
use ksdns.Operator.Ensure.Stored.{UpdateLaws, ignore_error_keeps}
use ksdns.Operator.Ensure.Rewrites.{zone_object}

module _ (k : Kubernetes) (law : UpdateLaws k) (frame : FrameLaws k) (owner : Ksdns) (m : Miekg)
    (now : ℕ) (ip : Option (m.Ip)) (steps : ℕ) (laws : KubernetesLaws k steps) where
  with_body-KeepsName : (body : Body) → KeepsName (with_body k owner body)
  with_body-KeepsName body o p h = (law.owner_keeps owner (record o { body = body }) p h).0

  ensure_zone_untouched :
      (z : Zone) (c : k.Cluster) (kind : Kind) (namespace name : String)
      → z.origin ≢ name
      → k.get (ensure_zone k m now ip owner z c).1 kind namespace name ≡ k.get c kind namespace name
  unfolding ensure_zone
  ensure_zone_untouched z c kind namespace name other =
      elim (Result-cases (to_rfc1035_zone m now z ip)) [
        | inl (e, p) ↦ rw (p, ensure_zone) refl
        | inr (spec, p) ↦
            rw (p, ensure_zone)
              (ap (λ s. k.get s kind namespace name)
                  (ignore_error_keeps (
                    create_or_update_with_retries k (zone_object owner z)
                      (with_body k owner (zone spec)) c))
                ∙ retries_untouched k frame (with_body k owner (zone spec))
                    (with_body-KeepsName (zone spec)) kind namespace name steps c
                    (zone_object owner z) laws other)
      ]

  -- Whatever the first step ends in.
  then_untouched :
      (r : Outcome (Unit {0}) × k.Cluster) (next : Run k.Cluster (Unit {0})) (c : k.Cluster)
      (kind : Kind) (namespace name : String)
      → k.get r.1 kind namespace name ≡ k.get c kind namespace name
      → ((t : k.Cluster) → k.get (next t).1 kind namespace name ≡ k.get t kind namespace name)
      → k.get (follow r (λ _. next)).1 kind namespace name ≡ k.get c kind namespace name
  then_untouched (done a, t) next c kind namespace name first rest = rest t ∙ first
  then_untouched (failed e, t) next c kind namespace name first rest = first
  then_untouched (panicked, t) next c kind namespace name first rest = first

  -- A Ksdns object none of whose zones has that origin: the step of the zones leaves an object of
  -- that name as it was.
  pub other_zones_untouched :
      (zs : List Zone) (c : k.Cluster) (kind : Kind) (namespace name : String)
      → All (λ z. z.origin ≢ name) zs
      → k.get (ensure_zones k m now ip owner zs c).1 kind namespace name
        ≡ k.get c kind namespace name
  unfolding ensure_zones
  other_zones_untouched [] c kind namespace name others = refl
  other_zones_untouched (z ∷ zs) c kind namespace name (other, others) =
      then_untouched (ensure_zone k m now ip owner z c) (ensure_zones k m now ip owner zs) c kind
        namespace name (ensure_zone_untouched z c kind namespace name other)
        (λ t. other_zones_untouched zs t kind namespace name others)
