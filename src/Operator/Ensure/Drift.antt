-- ===== src/Operator/Ensure/Drift.antt =====
-- The CoreDNS deployment, once it exists: `ensureCoreDNS` (controllers/dns/coredns.go).
use ksdns.Prelude.{ℕ, ◌≡◌, refl, sym, ap, ◌∙◌}
use ksdns.Prelude.Go.{Result, ok}
use ksdns.Prelude.Int.{ℤ}
use ksdns.Prelude.{String, false, [], ◌∷◌}
use ksdns.Operator.Corefile.{render_coredns_corefile}
use ksdns.Operator.Objects.{Kind, Object, Ksdns, config_map, service_account, service}
use ksdns.Operator.Kubernetes.{Kubernetes, KubernetesLaws}
use ksdns.Operator.Run.{Outcome, Run, follow, done, failed, panicked, ◌>>◌, ◌>>=◌}
use ksdns.Operator.Labels.{coredns_name, zupd_name, make_labels, make_selector}
use ksdns.Operator.Resources.{plain_object, coredns_deployment, coredns_service_spec}
use ksdns.Operator.Retry.{create_or_update_with_retries}
use ksdns.Operator.Retry.Trials.{existing_object_wins}
use ksdns.Operator.Ensure.{
  apply, owner_only, ensure_coredns, ensure_coredns_config_map, ensure_coredns_service_account,
  ensure_coredns_service, get_zones, get_zupd_ips, no_service_spec, set_data,
}

follow-follow :
    {S A B C : Type 0} (r : Outcome A × S) (f : A → Run S B) (g : B → Run S C)
    → follow r (λ a s. follow (f a s) g) ≡ follow (follow r f) g
follow-follow (done a, s) f g = refl
follow-follow (failed e, s) f g = refl
follow-follow (panicked, s) f g = refl

-- What follows is read only where the step before it ended well.
follow-same :
    {S A B : Type 0} (r : Outcome A × S) (f g : A → Run S B)
    → ((a : A) → f a r.1 ≡ g a r.1)
    → follow r f ≡ follow r g
follow-same (done a, s) f g h = h a
follow-same (failed e, s) f g h = refl
follow-same (panicked, s) f g h = refl

-- The Ksdns object with another image and number of replicas.
abbrev pub resized : String → ℤ → Ksdns → Ksdns
resized image replicas owner = record owner { image = image; replicas = replicas }

module _ (k : Kubernetes) where
  -- The steps of `ensureCoreDNS` before the deployment.
  abbrev pub before_deployment : Ksdns → Run k.Cluster (Unit {0})
  before_deployment owner =
      ensure_coredns_config_map k owner
      >> ensure_coredns_service_account k owner
      >> ensure_coredns_service k owner

  ensure_coredns_last :
      (owner : Ksdns) (c : k.Cluster)
      → ensure_coredns k owner c
        ≡ follow
            (before_deployment owner c)
            (λ _. apply k (coredns_deployment owner) (owner_only k owner))
  unfolding ensure_coredns
  ensure_coredns_last owner c =
      follow-follow (ensure_coredns_config_map k owner c)
        (λ _. ensure_coredns_service_account k owner)
        (λ _ s.
          follow (ensure_coredns_service k owner s)
            (λ _. apply k (coredns_deployment owner) (owner_only k owner)))
      ∙ follow-follow
          (follow (ensure_coredns_config_map k owner c)
            (λ _. ensure_coredns_service_account k owner))
          (λ _. ensure_coredns_service k owner)
          (λ _. apply k (coredns_deployment owner) (owner_only k owner))

  module _ (steps : ℕ) (laws : KubernetesLaws k steps) (owner : Ksdns) (image : String)
      (replicas : ℤ) where
    same_reference :
        k.set_controller_reference (resized image replicas owner) ≡ k.set_controller_reference owner
    same_reference = laws.owner_by_name (resized image replicas owner) owner refl refl

    config_map-resized :
        (c : k.Cluster)
        → ensure_coredns_config_map k (resized image replicas owner) c
          ≡ ensure_coredns_config_map k owner c
    unfolding ensure_coredns_config_map coredns_name get_zones get_zupd_ips zupd_name make_labels
        make_selector
    config_map-resized c =
        ap
          (λ (reference : Object → Result Object).
            (get_zupd_ips k owner >>= λ secondary_from. get_zones k owner >>= λ zones.
            apply k
              (plain_object (coredns_name owner) owner (make_labels "coredns" owner)
                (config_map [] []))
              (λ o. reference (record o {
                body =
                    set_data (("Corefile", render_coredns_corefile zones secondary_from false) ∷ [])
                      o.body;
              })))
              c)
          same_reference

    service_account-resized :
        (c : k.Cluster)
        → ensure_coredns_service_account k (resized image replicas owner) c
          ≡ ensure_coredns_service_account k owner c
    unfolding ensure_coredns_service_account coredns_name make_labels
    service_account-resized c =
        ap
          (λ (reference : Object → Result Object).
            apply k
              (plain_object (coredns_name owner) owner (make_labels "ksdns" owner) service_account)
              reference c)
          same_reference

    service-resized :
        (c : k.Cluster)
        → ensure_coredns_service k (resized image replicas owner) c
          ≡ ensure_coredns_service k owner c
    unfolding ensure_coredns_service coredns_name make_labels make_selector coredns_service_spec
    service-resized c =
        ap
          (λ (reference : Object → Result Object).
            ((λ (t : k.Cluster). (coredns_service_spec owner, t)) >>= λ spec.
            apply k
              (plain_object (coredns_name owner) owner (make_labels "ksdns" owner)
                (service (no_service_spec k)))
              (λ o. reference (record o { body = service spec })))
              c)
          same_reference

    before_deployment-resized :
        (c : k.Cluster)
        → before_deployment (resized image replicas owner) c ≡ before_deployment owner c
    before_deployment-resized c =
        let both = ensure_coredns_config_map k owner >> ensure_coredns_service_account k owner in
        ap
          (λ r.
            follow (follow r (λ _. ensure_coredns_service_account k (resized image replicas owner)))
              (λ _. ensure_coredns_service k (resized image replicas owner)))
          (config_map-resized c)
        ∙ ap (λ r. follow r (λ _. ensure_coredns_service k (resized image replicas owner)))
            (follow-same (ensure_coredns_config_map k owner c)
              (λ _. ensure_coredns_service_account k (resized image replicas owner))
              (λ _. ensure_coredns_service_account k owner)
              (λ _. service_account-resized (ensure_coredns_config_map k owner c).1))
        ∙ follow-same (both c) (λ _. ensure_coredns_service k (resized image replicas owner))
            (λ _. ensure_coredns_service k owner) (λ _. service-resized (both c).1)

    deployment-resized :
        (c : k.Cluster) (existing : Object)
        → k.get c Kind.deployment_kind owner.namespace (coredns_name owner) ≡ ok existing
        → apply k
            (coredns_deployment (resized image replicas owner))
            (owner_only k (resized image replicas owner))
            c
          ≡ apply k (coredns_deployment owner) (owner_only k owner) c
    unfolding coredns_deployment coredns_name
    deployment-resized c existing found =
        let after = resized image replicas owner in
        sym (
          ap (λ t. follow t (λ _ s. (done tt, s)))
            (existing_object_wins k (owner_only k owner) steps laws c (coredns_deployment owner)
                (coredns_deployment after) existing refl refl refl found
              ∙ ap (λ f. create_or_update_with_retries k (coredns_deployment after) f c)
                  (laws.owner_by_name owner after refl refl)))

    -- Where the CoreDNS deployment exists when `ensureCoreDNS` comes to it, the whole of
    -- `ensureCoreDNS` does the same for a Ksdns object with another image and number of replicas: a
    -- change of either never reaches the server.
    pub deployment_ignores_changes :
        (c : k.Cluster) (existing : Object)
        → k.get
            (before_deployment owner c).1
            Kind.deployment_kind
            owner.namespace
            (coredns_name owner)
          ≡ ok existing
        → ensure_coredns k (resized image replicas owner) c ≡ ensure_coredns k owner c
    deployment_ignores_changes c existing found =
        let after = resized image replicas owner in
        ensure_coredns_last after c
        ∙ ap (λ r. follow r (λ _. apply k (coredns_deployment after) (owner_only k after)))
            (before_deployment-resized c)
        ∙ follow-same (before_deployment owner c)
            (λ _. apply k (coredns_deployment after) (owner_only k after))
            (λ _. apply k (coredns_deployment owner) (owner_only k owner))
            (λ _. deployment-resized (before_deployment owner c).1 existing found)
        ∙ sym (ensure_coredns_last owner c)
