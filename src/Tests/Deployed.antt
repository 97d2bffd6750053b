-- ===== src/Tests/Deployed.antt =====
-- The theorems on zupd as it is deployed, for the Ksdns object "dns".
use ksdns.Prelude.{
  String, ◌≡◌, ◌≢◌, refl, inl, inr, ap, ◌∙◌, Bool, true, false, none, some, List, [], ◌∷◌, ◌||◌, In,
  sym, arith, Bool-cases,
}
use ksdns.Prelude.Go.{message, ok}
use ksdns.Zupd.Coredns.{Coredns}
use ksdns.Zupd.Dns
use ksdns.Zupd.State.{Request, rcode, DynamicUpdate}
use ksdns.Zupd.Serve.{handle_update}
use ksdns.Zupd.Manager.{Value, new_manager, make_manager, options_of}
use ksdns.Operator.Objects.{PolicyRule, Object, Container, config_map}
use ksdns.Operator.Labels.{zupd_name, coredns_name}
use ksdns.Operator.Resources.{zupd_deployment_spec}
use ksdns.Operator.Ensure.{field}
use ksdns.Command.{waiting}
use ksdns.Command.Config.{ran, execute}
use ksdns.Deployed.Access.{
  Attributes, zones, zones_status, grants, bound_rules, Authorizer, access, account_of, Enforces,
  status_forbidden,
}
use ksdns.Deployed.Launch.{Mounts, deployed_zupd_runs}
use ksdns.Tests.Toy.{toy, address}
use ksdns.Tests.Zupd.{dynamic, object}
use ksdns.Tests.Operator.{owner}
use ksdns.Tests.Setup.{runtime}
use ksdns.Tests.Command.{
  host, host-LoaderLaws, build, cobra, cobra-CobraLaws, viper, viper-FlagsFirst,
}

abbrev any_grants : Attributes → List PolicyRule → Bool
any_grants a [] = false
any_grants a (rule ∷ rules) = grants a rule || any_grants a rules

any_grants-some :
    (a : Attributes) (rules : List PolicyRule)
    → any_grants a rules ≡ true
    → (rule : PolicyRule) × In rule rules × (grants a rule ≡ true)
any_grants-some a [] h = absurd (ground arith)
any_grants-some a (rule ∷ rules) h = elim (Bool-cases (grants a rule)) [
  | inl e ↦ (rule, inl refl, e)
  | inr e ↦ let (found, i, g) = any_grants-some a rules (rw e at h) in (found, inr i, g)
]

any_grants-In :
    (a : Attributes) (rules : List PolicyRule) (rule : PolicyRule)
    → In rule rules
    → grants a rule ≡ true
    → any_grants a rules ≡ true
any_grants-In a [] rule i g = absurd i
any_grants-In a (x ∷ rules) rule (inl e) g = rw (sym (ap (grants a) e) ∙ g) refl
any_grants-In a (x ∷ rules) rule (inr i) g = ground (arith, any_grants-In a rules rule i g)

abbrev authorizer : Authorizer
authorizer = record {
  allows = λ objects account a. any_grants a (bound_rules account objects objects);
  allows_granted = λ objects account a. (
    any_grants-some a (bound_rules account objects objects),
    λ (rule, i, g). any_grants-In a (bound_rules account objects objects) rule i g,
  );
}

-- An API server that lets nobody write a status.
abbrev guarded : Coredns
guarded = record toy { update_status = λ zs z. (zs, some (message "forbidden")) }

guarded-Enforces : Enforces authorizer guarded (access owner) (account_of owner)
guarded-Enforces k obj forbidden stored = cc

abbrev plugin : DynamicUpdate guarded
plugin = record {
  zones = record { z = λ n. none; names = []; dynamic_zones = λ n. none };
  namespaces = "ns" ∷ [];
  has_transfer = true;
  cluster = object ∷ [];
  soa_serials = λ a. 1;
  notified = [];
  written = [];
}

abbrev request : Request guarded
request = record { qname = "a."; qtype = 6; opcode = 5; question = 1; ns = address "new" ∷ [] }

status_forbidden_example :
    (authorizer.allows (access owner) (account_of owner) (zones "update") ≡ true)
    × (authorizer.allows (access owner) (account_of owner) (zones_status "update") ≡ false)
    × ((handle_update guarded (λ m. none) 5000 "a." dynamic request plugin).0
        ≢ rcode Dns.rcode_success)
status_forbidden_example =
    status_forbidden authorizer owner guarded guarded-Enforces (λ m. none) 5000 "a." dynamic request
      plugin

abbrev corefile : Object
corefile = record {
  name = zupd_name owner;
  namespace = "ns";
  labels = [];
  controller = none;
  body = config_map (("Corefile", "a.") ∷ []) [];
}

abbrev pub container : Container
container = record {
  name = "zupd";
  image = "ksdns:1";
  ports =
      record { container_port = 1053; protocol = "TCP" }
      ∷ record { container_port = 1053; protocol = "UDP" }
      ∷ [];
  readiness_probe = some (record { path = "/ready"; port = 8181 });
  liveness_probe = some (record { path = "/health"; port = 8080 });
  args =
      "run" ∷ "--conf" ∷ "/etc/coredns/config/Corefile" ∷ "--enable-leader-election"
      ∷ "--leader-election-namespace" ∷ "ns" ∷ [];
  volume_mounts =
      record { name = "config-volume"; mount_path = "/etc/coredns/config" }
      ∷ record { name = "secret-volume"; mount_path = "/etc/coredns/secret" }
      ∷ [];
}

pub is_container : In container (zupd_deployment_spec owner).containers
unfolding zupd_deployment_spec
is_container = inl refl

read_back :
    (path contents : String)
    → field path (("/etc/coredns/config/Corefile", "a.") ∷ []) ≡ some contents
    → host.read_file path ≡ ok contents
read_back path contents h = ground arith

mounts : Mounts host (zupd_deployment_spec owner) container (corefile ∷ [])
unfolding zupd_deployment_spec zupd_name coredns_name
mounts = read_back

deployed_zupd_runs_example :
    (values : String → Value) × (execute cobra viper host build (ok "/root") container.args
      ≡ ran (waiting "a." []) values)
    × (new_manager runtime values ("ns" ∷ [])
        ≡ make_manager runtime (options_of true "ns" ("ns" ∷ [])))
deployed_zupd_runs_example =
    deployed_zupd_runs owner corefile "a." refl refl cobra cobra-CobraLaws viper viper-FlagsFirst
      host host-LoaderLaws refl container is_container mounts runtime build "/root" "a." ("ns" ∷ [])
      refl
