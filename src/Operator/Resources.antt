-- ===== src/Operator/Resources.antt =====
-- The objects that the operator asks for: services, deployments and the role of zupd
-- (controllers/dns/coredns.go and zupd.go).
pub mod Matching
use Prim.Native.String.{◌++◌ as str_append}
use ksdns.Prelude.{String, Option, none, some, List, [], ◌∷◌, str_eq, if◌then◌else◌}
use ksdns.Prelude.Go.{Error, message}
use ksdns.Prelude.Int.{pos}
use ksdns.Operator.Objects.{
  Labels, ServicePort, ServiceSpec, ContainerPort, Container, VolumeMount, Volume,
  config_map_source, secret_source, DeploymentSpec, PolicyRule, Body, config_map, service_account,
  service, deployment, role, role_binding, Object, Ksdns, ExposeService,
}
use ksdns.Operator.Labels.{make_labels, make_selector, coredns_name, zupd_name}
use ksdns.Operator.Run.{Outcome, done, failed, panicked}

-- An object of the namespace of the Ksdns object, before it has an owner.
abbrev pub plain_object : String → Ksdns → Labels → Body → Object
plain_object name owner labels body = record {
  name = name;
  namespace = owner.namespace;
  labels = labels;
  controller = none;
  body = body;
}

abbrev container_ports : List ContainerPort
container_ports =
    record { container_port = 1053; protocol = "TCP" }
    ∷ record { container_port = 1053; protocol = "UDP" }
    ∷ []

abbrev volume_mounts : List VolumeMount
volume_mounts =
    record { name = "config-volume"; mount_path = "/etc/coredns/config" }
    ∷ record { name = "secret-volume"; mount_path = "/etc/coredns/secret" }
    ∷ []

abbrev volumes : String → String → List Volume
volumes config tsig =
    record { name = "config-volume"; source = config_map_source config }
    ∷ record { name = "secret-volume"; source = secret_source tsig }
    ∷ []

-- `coreDNSServiceSpec`; the pointer `Spec.Expose.CoreDNS` is not tested for nil.
unfoldable pub coredns_service_spec : Ksdns → Outcome ServiceSpec
coredns_service_spec owner = elim owner.expose_coredns [
  | none ↦ panicked
  | some expose ↦
      if str_eq expose.service_type "ClusterIP"
      then done (record {
        selector = make_selector "coredns" owner;
        type = "ClusterIP";
        ports =
            record { name = "dns-udp"; port = 53; target_port = 1053; protocol = "UDP" }
            ∷ record { name = "dns-tcp"; port = 53; target_port = 1053; protocol = "TCP" }
            ∷ [];
        cluster_ip = "";
      })
      else failed (message (str_append "unsupported service type: " expose.service_type))
]

unfoldable pub zupd_service_spec : Ksdns → ServiceSpec
zupd_service_spec owner = record {
  selector = make_selector "zupd" owner;
  type = "";
  ports =
      record { name = "dns-tcp"; port = 1053; target_port = 1053; protocol = "TCP" }
      ∷ record { name = "dns-udp"; port = 1053; target_port = 1053; protocol = "UDP" }
      ∷ [];
  cluster_ip = "";
}

unfoldable pub coredns_deployment_spec : Ksdns → DeploymentSpec
coredns_deployment_spec owner = record {
  replicas = owner.replicas;
  selector = make_selector "coredns" owner;
  template_labels = make_labels "coredns" owner;
  service_account_name = coredns_name owner;
  containers =
      record {
        name = "coredns";
        image = owner.image;
        ports = container_ports;
        readiness_probe = none;
        liveness_probe = none;
        args = "run" ∷ "--conf" ∷ "/etc/coredns/config/Corefile" ∷ [];
        volume_mounts = volume_mounts;
      }
      ∷ [];
  volumes = volumes (coredns_name owner) (coredns_name owner);
}

unfoldable pub coredns_deployment : Ksdns → Object
coredns_deployment owner =
    plain_object (coredns_name owner) owner [] (deployment (coredns_deployment_spec owner))

unfoldable pub zupd_deployment_spec : Ksdns → DeploymentSpec
zupd_deployment_spec owner = record {
  replicas = pos 2;
  selector = make_selector "zupd" owner;
  template_labels = make_labels "zupd" owner;
  service_account_name = zupd_name owner;
  containers =
      record {
        name = "zupd";
        image = owner.image;
        ports = container_ports;
        readiness_probe = some (record { path = "/ready"; port = 8181 });
        liveness_probe = some (record { path = "/health"; port = 8080 });
        args =
            "run" ∷ "--conf" ∷ "/etc/coredns/config/Corefile" ∷ "--enable-leader-election"
            ∷ "--leader-election-namespace" ∷ owner.namespace ∷ [];
        volume_mounts = volume_mounts;
      }
      ∷ [];
  volumes = volumes (zupd_name owner) (coredns_name owner);
}

unfoldable pub zupd_deployment : Ksdns → Object
zupd_deployment owner =
    plain_object (zupd_name owner) owner [] (deployment (zupd_deployment_spec owner))

abbrev all_verbs : List String
all_verbs = "get" ∷ "list" ∷ "watch" ∷ "create" ∷ "update" ∷ "patch" ∷ "delete" ∷ []

-- The rules of zupd's role.
abbrev pub zupd_rules : List PolicyRule
zupd_rules =
    record { api_groups = "rfc1035.ksdns.io" ∷ []; resources = "zones" ∷ []; verbs = all_verbs }
    ∷ record {
      api_groups = "coordination.k8s.io" ∷ [];
      resources = "leases" ∷ [];
      verbs = all_verbs;
    }
    ∷ record { api_groups = "" ∷ []; resources = "events" ∷ []; verbs = "create" ∷ "patch" ∷ [] }
    ∷ []

unfoldable pub zupd_role : Ksdns → Object
zupd_role owner = plain_object (zupd_name owner) owner [] (role zupd_rules)

unfoldable pub zupd_role_binding : Ksdns → Object
zupd_role_binding owner = plain_object (zupd_name owner) owner [] (
    role_binding
      (record { kind = "ServiceAccount"; name = zupd_name owner; scope = owner.namespace })
      (record { kind = "Role"; name = zupd_name owner; scope = "rbac.authorization.k8s.io" }))
