-- ===== src/Operator/Resources/Matching.antt =====
-- The selectors, labels and volumes of the operator's objects fit one another.
use ksdns.Prelude.{String, ◌≡◌, refl, subst, In, All, inl, inr, arith}
use ksdns.Operator.Objects.{Labels, Ksdns, ServiceSpec}
use ksdns.Operator.Labels.{make_labels, make_selector}
use ksdns.Operator.Run.{done}
use ksdns.Operator.Resources.{
  coredns_service_spec, zupd_service_spec, coredns_deployment_spec, zupd_deployment_spec,
}

-- A selector takes the pods whose labels have all of its entries.
abbrev pub Selects : Labels → Labels → Type 0
Selects selector labels = All (λ entry. In entry labels) selector

make_selector-Selects :
    (name : String) (owner : Ksdns) → Selects (make_selector name owner) (make_labels name owner)
unfolding make_selector make_labels
make_selector-Selects name owner = (inl refl, (inr (inr (inr (inl refl))), tt))

chosen :
    (owner : Ksdns) (spec : ServiceSpec)
    → coredns_service_spec owner ≡ done spec
    → make_selector "coredns" owner ≡ spec.selector
unfolding coredns_service_spec
chosen owner spec h = ground arith

-- If the spec of the CoreDNS service is made, the pods of each of the two deployments have all the
-- labels that the deployment's selector and its service's selector ask for.
pub selectors_match :
    (owner : Ksdns) (spec : ServiceSpec)
    → coredns_service_spec owner ≡ done spec
    → Selects spec.selector (coredns_deployment_spec owner).template_labels
      × Selects
          (coredns_deployment_spec owner).selector
          (coredns_deployment_spec owner).template_labels
      × Selects (zupd_service_spec owner).selector (zupd_deployment_spec owner).template_labels
      × Selects (zupd_deployment_spec owner).selector (zupd_deployment_spec owner).template_labels
unfolding coredns_service_spec coredns_deployment_spec zupd_service_spec zupd_deployment_spec
selectors_match owner spec h = (
  subst (λ l. Selects l (make_labels "coredns" owner)) (chosen owner spec h)
      (make_selector-Selects "coredns" owner),
  make_selector-Selects "coredns" owner,
  make_selector-Selects "zupd" owner,
  make_selector-Selects "zupd" owner,
)
