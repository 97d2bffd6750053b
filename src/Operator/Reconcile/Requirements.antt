-- ===== src/Operator/Reconcile/Requirements.antt =====
-- What a Ksdns object has to say for a reconciliation to go through.
use ksdns.Prelude.{
  String, ◌≡◌, refl, ap, some, arith, str_eq, eq_iff, Bool-cases, Option-cases, inl, inr,
}
use ksdns.Prelude.Go.{ok}
use ksdns.Api.Records.{Miekg}
use ksdns.Operator.Objects.{Ksdns, ServiceSpec, ExposeService}
use ksdns.Operator.Kubernetes.{Kubernetes}
use ksdns.Operator.Run.{Outcome, done, failed, panicked, Run, follow, ◌>>=◌}
use ksdns.Operator.Resources.{coredns_service_spec}
use ksdns.Operator.Ensure.{
  ensure_coredns, ensure_coredns_config_map, ensure_coredns_service, ensure_coredns_service_account,
  ensure_coredns_secret, ensure_zones,
}
use ksdns.Operator.Reconcile.{Inputs, ensure_all, with_status, reconcile}

-- A chain of two steps goes through only if both do.
then-done :
    {S : Type 0} {A B : Type 0} (m : Run S A) (f : A → Run S B) (s : S) (b : B)
    → ((m >>= f) s).0 ≡ done b
    → (a : A) × (t : S) × (m s ≡ (done a, t)) × ((f a t).0 ≡ done b)
then-done {S} {A} {B} m f s b h = split (m s) refl h
  where
    split :
        (p : Outcome A × S)
        → m s ≡ p
        → (follow p f).0 ≡ done b
        → (a : A) × (t : S) × (m s ≡ (done a, t)) × ((f a t).0 ≡ done b)
    split (done a, t) e g = (a, t, e, g)
    split (failed x, t) e g = absurd (cc)
    split (panicked, t) e g = absurd (cc)

-- The service that makes CoreDNS reachable can be made: of type ClusterIP, the only one supported.
abbrev pub IsExposed : Ksdns → Type 0
IsExposed owner =
    (expose : ExposeService) × (owner.expose_coredns ≡ some expose)
    × (expose.service_type ≡ "ClusterIP")

coredns_service_spec-IsExposed :
    (owner : Ksdns) (spec : ServiceSpec) → coredns_service_spec owner ≡ done spec → IsExposed owner
unfolding coredns_service_spec
coredns_service_spec-IsExposed owner spec h = elim (Option-cases owner.expose_coredns) [
  | inl e ↦ absurd (ground arith)
  | inr (expose, e) ↦ elim (Bool-cases (str_eq expose.service_type "ClusterIP")) [
    | inl q ↦ (expose, e, (eq_iff expose.service_type "ClusterIP").0 q)
    | inr q ↦ absurd (ground arith)
  ]
]

module _ (k : Kubernetes) (m : Miekg) (inputs : Inputs m) where
  ensure_coredns_service-IsExposed :
      (owner : Ksdns) (c : k.Cluster)
      → (ensure_coredns_service k owner c).0 ≡ done tt
      → IsExposed owner
  unfolding ensure_coredns_service
  ensure_coredns_service-IsExposed owner c h =
      let (spec, t, made, rest) = then-done (λ s. (coredns_service_spec owner, s)) _ c tt h in
      coredns_service_spec-IsExposed owner spec (ap (λ p. p.0) made)

  ensure_coredns-IsExposed :
      (owner : Ksdns) (c : k.Cluster) → (ensure_coredns k owner c).0 ≡ done tt → IsExposed owner
  unfolding ensure_coredns
  ensure_coredns-IsExposed owner c h =
      let (_, c1, _, h1) = then-done (ensure_coredns_config_map k owner) _ c tt h in
      let (_, c2, _, h2) = then-done (ensure_coredns_service_account k owner) _ c1 tt h1 in
      let (_, c3, made, _) = then-done (ensure_coredns_service k owner) _ c2 tt h2 in
      ensure_coredns_service-IsExposed owner c2 (ap (λ p. p.0) made)

  ensure_all-IsExposed :
      (owner : Ksdns) (c : k.Cluster)
      → (ensure_all k m inputs owner c).0 ≡ done tt
      → IsExposed owner
  unfolding ensure_all
  ensure_all-IsExposed owner c h =
      let (_, c1, _, h1) = then-done (ensure_coredns_secret k inputs.generated owner) _ c tt h in
      let (_, c2, _, h2) =
        then-done (ensure_zones k m inputs.now inputs.ns_ip owner owner.zones) _ c1 tt h1 in
      let (_, c3, made, _) = then-done (ensure_coredns k owner) _ c2 tt h2 in
      ensure_coredns-IsExposed owner c2 (ap (λ p. p.0) made)

  -- For an object that is found, a reconciliation succeeds only if the object, as it is after its
  -- first condition is set, exposes CoreDNS by a service of type ClusterIP.
  pub reconcile_requires_cluster_ip :
      (namespace name : String) (c : k.Cluster) (owner : Ksdns)
      → k.get_ksdns c namespace name ≡ ok owner
      → (reconcile k m inputs namespace name c).0 ≡ done tt
      → (used : Ksdns) × (t : k.Cluster) × (with_status k m namespace name owner c ≡ (done used, t))
        × IsExposed used
  unfolding reconcile
  reconcile_requires_cluster_ip namespace name c owner found h =
      let after : ((with_status k m namespace name owner >>= ensure_all k m inputs) c).0 ≡ done tt =
        rw (found, reconcile) at h in
      let (used, t, set_up, rest) =
        then-done (with_status k m namespace name owner) (ensure_all k m inputs) c tt after in
      (used, t, set_up, ensure_all-IsExposed used t rest)
