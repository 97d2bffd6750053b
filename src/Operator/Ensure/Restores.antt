-- ===== src/Operator/Ensure/Restores.antt =====
-- The Corefile of zupd, written over whatever the config map holds: `ensureZupdConfigMap`
-- (controllers/dns/zupd.go).
use ksdns.Prelude.{ℕ, ◌≡◌, refl, List, [], ◌∷◌, none, false, ◌<◌}
use ksdns.Prelude.Go.{ok}
use ksdns.Operator.Objects.{
  Labels, Kind, Body, kind_of, config_map, secret, service_account, service, deployment, role,
  role_binding, zone, Object, Pod, Ksdns,
}
use ksdns.Operator.Kubernetes.{Kubernetes, KubernetesLaws}
use ksdns.Operator.Labels.{make_labels, zupd_name}
use ksdns.Operator.Corefile.{render_zupd_corefile}
use ksdns.Operator.Resources.{plain_object}
use ksdns.Operator.Ensure.{
  with_change, set_data, names_of, pod_ips, or_link_local, ensure_zupd_config_map,
}
use ksdns.Operator.Ensure.Stored.{Given, UpdateLaws, stored_as}

-- The config map that the step passes to `CreateOrUpdate`, and what it sets in it.
abbrev pub zupd_map : Ksdns → Object
zupd_map owner = plain_object (zupd_name owner) owner (make_labels "zupd" owner) (config_map [] [])

abbrev pub corefile_data : Kubernetes → Ksdns → List Object → List Pod → Labels
corefile_data k owner zones pods =
    (
      "Corefile",
      render_zupd_corefile (names_of zones) (or_link_local k (pod_ips k pods)) owner.namespace
          false,
    )
    ∷ []

kind-set_data : (entries : Labels) (b : Body) → kind_of (set_data entries b) ≡ Kind.config_map_kind
kind-set_data entries (config_map _ _) = refl
kind-set_data entries (secret _ _) = refl
kind-set_data entries service_account = refl
kind-set_data entries (service _) = refl
kind-set_data entries (deployment _) = refl
kind-set_data entries (role _) = refl
kind-set_data entries (role_binding _ _) = refl
kind-set_data entries (zone _) = refl

module _ (k : Kubernetes) (law : UpdateLaws k) (owner : Ksdns) where
  -- Where the server answers both lists, has zupd's config map or says that there is none, and
  -- accepts what it is given: whatever the map's data held, the step leaves the map with the
  -- Corefile of all zones of the namespace and of the addresses of the CoreDNS pods, as they are in
  -- the lists, as its only data; binary data stays as it was.
  pub corefile_restored :
      (steps : ℕ) (c : k.Cluster) (base : Object) (zones : List Object) (pods : List Pod)
      → KubernetesLaws k steps
      → 0 < steps
      → k.list_pods c owner.namespace (make_labels "coredns" owner) ≡ ok pods
      → k.list_zones c owner.namespace ≡ ok zones
      → Given k c (zupd_map owner) base
      → (k.create_or_update c
          (zupd_map owner)
          (with_change k owner (set_data (corefile_data k owner zones pods)))).failure
        ≡ none
      → (stored : Object) × (k.get
            (ensure_zupd_config_map k owner c).1
            Kind.config_map_kind
            owner.namespace
            (zupd_name owner)
          ≡ ok stored)
        × (stored.body ≡ set_data (corefile_data k owner zones pods) base.body)
  unfolding ensure_zupd_config_map
  corefile_restored steps c base zones pods laws room listed named given accepted =
      let entries = corefile_data k owner zones pods in
      let (stored, read, body) =
        stored_as k law owner (zupd_map owner) (set_data entries) steps c base laws room refl
          (kind-set_data entries base.body) given accepted in
      (stored, rw (listed, named) read, body)
