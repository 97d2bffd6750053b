-- ===== src/Operator/Ensure/Inputs.antt =====
-- What the rendered Corefile of CoreDNS is made of, and which errors are passed over.
use ksdns.Prelude.{
  ℕ, String, ◌≡◌, ◌≢◌, ◌↔◌, refl, sym, ◌∙◌, true, false, Option, none, List, [], ◌∷◌, arith, str_eq,
  eq_iff, Bool-cases, inl, inr,
}
use mathlib.Core.Bool.{false≢true}
use ksdns.Operator.Labels.{zupd_name}
use ksdns.Prelude.Go.{Result, Result-cases}
use ksdns.Api.Records.{Miekg, Zone, to_rfc1035_zone}
use ksdns.Operator.Objects.{Kind, Object, Ksdns}
use ksdns.Operator.Kubernetes.{Kubernetes}
use ksdns.Operator.Run.{Outcome, done, failed, panicked, Run, follow, ignore_error, ◌>>◌}
use ksdns.Operator.Retry.{create_or_update_with_retries}
use ksdns.Operator.Resources.{coredns_service_spec}
use ksdns.Operator.Ensure.{
  link_local, cluster_ip_of, get_zupd_ips, ensure_zone, ensure_zones, ensure_coredns_service,
}

not_empty : link_local ≡ "" → true ≡ false
not_empty r = ground (arith, eq_iff "169.254.0.1" "")

module _ (k : Kubernetes) (owner : Ksdns) (c : k.Cluster) where
  -- If the lookup of the addresses to transfer from succeeds, there is exactly one, and it is not
  -- empty.
  get_zupd_ips_one :
      (ips : List String)
      → (get_zupd_ips k owner c).0 ≡ done ips
      → (ip : String) × (ips ≡ ip ∷ []) × (ip ≢ "")
  unfolding get_zupd_ips
  get_zupd_ips_one ips h =
      elim (Result-cases (k.get c Kind.service_kind owner.namespace (zupd_name owner))) [
        | inl (e, p) ↦ (link_local, ground arith, λ q. cc (not_empty q))
        | inr (svc, p) ↦ elim (Bool-cases (str_eq (cluster_ip_of svc.body) "")) [
          | inl q ↦ (link_local, ground arith, λ r. cc (not_empty r))
          | inr q ↦ (
            cluster_ip_of svc.body,
            ground arith,
            λ r. false≢true (sym q ∙ (eq_iff (cluster_ip_of svc.body) "").1 r),
          )
        ]
      ]

  create_or_update_with_retries_returns :
      (obj : Object) (f : Object → Result Object)
      → (ignore_error (create_or_update_with_retries k obj f) c).0 ≡ done tt
  unfolding create_or_update_with_retries
  create_or_update_with_retries_returns obj f = ground arith

follow-done :
    {S : Type 0} (m n : Run S (Unit {0})) (s : S)
    → (m s).0 ≡ done tt
    → ((t : S) → (n t).0 ≡ done tt)
    → ((m >> n) s).0 ≡ done tt
follow-done {S} m n s h rest = let (r, t) = m s in followed r t h
  where
    followed : (r : Outcome Unit) → (t : S) → r ≡ done tt → (follow (r, t) (λ _. n)).0 ≡ done tt
    followed (done a) t e = rest t
    followed (failed x) t e = cc
    followed panicked t e = cc

module _ (k : Kubernetes) (m : Miekg) (now : ℕ) (ip : Option (m.Ip)) (owner : Ksdns) where
  ensure_zone_succeeds : (z : Zone) (c : k.Cluster) → (ensure_zone k m now ip owner z c).0 ≡ done tt
  unfolding ensure_zone
  ensure_zone_succeeds z c = elim (Result-cases (to_rfc1035_zone m now z ip)) [
    | inl (e, p) ↦ rw (p, ensure_zone) refl
    | inr (spec, p) ↦ rw (p, ensure_zone) (create_or_update_with_retries_returns k owner c _ _)
  ]

  -- The step that writes the zones succeeds, whatever errors the conversion or the update of each
  -- zone meets.
  ensure_zones_succeeds :
      (zs : List Zone) (c : k.Cluster) → (ensure_zones k m now ip owner zs c).0 ≡ done tt
  unfolding ensure_zones
  ensure_zones_succeeds [] c = refl
  ensure_zones_succeeds (z ∷ zs) c =
      follow-done (ensure_zone k m now ip owner z) (ensure_zones k m now ip owner zs) c
        (ensure_zone_succeeds z c) (λ t. ensure_zones_succeeds zs t)

module _ (k : Kubernetes) (owner : Ksdns) (c : k.Cluster) where
  -- The step of the CoreDNS service panics exactly for a Ksdns object that leaves `expose.coredns`
  -- out.
  ensure_coredns_service_panics :
      ((ensure_coredns_service k owner c).0 ≡ panicked) ↔ (owner.expose_coredns ≡ none)
  unfolding ensure_coredns_service coredns_service_spec create_or_update_with_retries
  ensure_coredns_service_panics = (λ h. ground arith, λ h. ground arith)
