-- ===== src/Tests/Operator.antt =====
-- The operator's theorems at a small API server: a list of objects, and the number of conflicts
-- that it still answers with. A read in the namespace "broken" fails.
use ksdns.Prelude.{
  ℕ, zero, suc, String, ◌≡◌, refl, ap, ◌∙◌, sym, false, none, some, List, [], ◌∷◌, arith, str_eq,
  if◌then◌else◌, ◌&&◌, ◌==◌,
}
use ksdns.Prelude.Go.{not_found, conflict, message, Result, ok, err}
use ksdns.Prelude.Int.{pos}
use ksdns.Operator.Objects.{Object, Kind, kind_of, ServiceSpec, Ksdns, ExposeService}
use ksdns.Operator.Kubernetes.{Kubernetes, KubernetesLaws, Attempt, attempts}
use ksdns.Operator.Run.{Outcome, done}
use ksdns.Operator.Labels.{coredns_name}
use ksdns.Operator.Corefile.{render_coredns_corefile, render_zupd_corefile}
use ksdns.Operator.Corefile.Blocks.{zones_run_together}
use ksdns.Operator.Resources.{
  coredns_service_spec, coredns_deployment, coredns_deployment_spec, zupd_service_spec,
  zupd_deployment_spec,
}
use ksdns.Operator.Resources.Matching.{Selects, selectors_match}
use ksdns.Operator.Retry.{create_or_update_with_retries}
use ksdns.Operator.Retry.Trials.{Conflicts, start, again, first_without_conflict}
use ksdns.Operator.Ensure.{
  ensure_coredns_secret, get_zupd_ips, ensure_zones, ensure_coredns_service,
}
use ksdns.Operator.Ensure.Drift.{resized, before_deployment, deployment_ignores_changes}
use ksdns.Api.Records.{to_rfc1035_zone, add_rrs, add_records, record_rr, record_string, new_a}
use ksdns.Operator.Ensure.{
  create_secret, own_secret, find_secret, ensure_zone, ensure_coredns, ensure_coredns_config_map,
  ensure_coredns_service_account, get_zones, ensure_zupd, ensure_zupd_service,
  ensure_zupd_service_account, ensure_zupd_namespace_admin_role, ensure_zupd_config_map,
}
use ksdns.Operator.Labels.{zupd_name}
use ksdns.Operator.Resources.{zupd_deployment, zupd_role, zupd_role_binding}
use ksdns.Operator.Retry.{trial}
use ksdns.Operator.Reconcile.{Inputs, ensure_all, with_status, reconcile}
use ksdns.Operator.Reconcile.Requirements.{IsExposed, reconcile_requires_cluster_ip}
use ksdns.Tests.Api.{miekg, zone_a}

pub record Server : Type 0 where
  pub objects : List Object
  pub pending : ℕ

abbrev pub kind_id : Kind → ℕ
kind_id Kind.config_map_kind = 0
kind_id Kind.secret_kind = 1
kind_id Kind.service_account_kind = 2
kind_id Kind.service_kind = 3
kind_id Kind.deployment_kind = 4
kind_id Kind.role_kind = 5
kind_id Kind.role_binding_kind = 6
kind_id Kind.zone_kind = 7

abbrev pub find : List Object → Kind → String → String → Result Object
find [] kind ns name = err not_found
find (o ∷ os) kind ns name =
    let rest = find os kind ns name in
    if (kind_id (kind_of o.body) == kind_id kind) && str_eq o.namespace ns && str_eq o.name name
    then ok o
    else rest

abbrev pub get : Server → Kind → String → String → Result Object
get c kind ns name =
    if str_eq ns "broken" then err (message "unavailable") else find c.objects kind ns name

abbrev pub or_given : Object → Result Object → Object
or_given o (ok found) = found
or_given o (err e) = o

abbrev pub current : Server → Object → Object
current c o = or_given o (get c (kind_of o.body) o.namespace o.name)

abbrev pub write : Server → Object → Result Object → Attempt Server ℕ
write c o (err e) = record { cluster = c; object = o; result = 0; failure = some e }
write c o (ok p) = record {
  cluster = record c { objects = p ∷ c.objects };
  object = p;
  result = 1;
  failure = none;
}

abbrev pub settle : ℕ → Server → Object → Result Object → Attempt Server ℕ
settle zero c o p = write c o p
settle (suc n) c o p = record {
  cluster = record c { pending = n };
  object = o;
  result = 0;
  failure = some conflict;
}

abbrev expose : ExposeService
expose = record {
  service_type = "ClusterIP";
  external_ips = [];
  load_balancer_ip = "";
  provider = "";
  annotations = [];
}

abbrev pub owner : Ksdns
owner = record {
  name = "dns";
  namespace = "ns";
  zones = zone_a ∷ [];
  image = "ksdns:1";
  replicas = pos 1;
  secret = none;
  expose_coredns = some expose;
  conditions = [];
}

abbrev pub server : Kubernetes
server = record {
  Cluster = Server;
  OperationResult = ℕ;
  no_result = 0;
  get = get;
  get_ksdns = λ c ns name. if str_eq name "dns" then ok owner else err not_found;
  list_zones = λ c ns. ok [];
  list_pods = λ c ns labels. ok [];
  create =
      λ c o. record { cluster = record c { objects = o ∷ c.objects }; object = o; failure = none };
  update_ksdns_status = λ c o. (c, none);
  create_or_update = λ c o f. settle c.pending c (current c o) (f (current c o));
  set_controller_reference = λ owner o. ok (record o { controller = some owner.name });
  set_status_condition = λ cs c. c ∷ cs;
  exponential_backoff = λ S. attempts 4;
}

pub current-found :
    (c : Server) (o existing : Object)
    → get c (kind_of o.body) o.namespace o.name ≡ ok existing
    → current c o ≡ existing
current-found c o existing h = ap (or_given o) h

pub moved :
    (c : Server) (a b existing : Object)
    → a.name ≡ b.name
    → a.namespace ≡ b.namespace
    → kind_of a.body ≡ kind_of b.body
    → get c (kind_of a.body) a.namespace a.name ≡ ok existing
    → get c (kind_of b.body) b.namespace b.name ≡ ok existing
moved c a b existing p q r h = cc

pub server_laws : KubernetesLaws server 4
server_laws = record {
  backoff = λ S condition s. refl;
  existing_is_read = λ c a b existing f p q r found.
      ap (λ o. settle c.pending c o (f o))
        (current-found c a existing found
          ∙ sym (current-found c b existing (moved c a b existing p q r found)));
  owner_by_name = λ a b p q. ap (λ n o. ok (record o { controller = some n })) p;
}

abbrev object : Object
object = coredns_deployment owner

abbrev pub empty_server : ℕ → Server
empty_server n = record { objects = []; pending = n }

abbrev keep : Object → Result Object
keep o = ok o

conflicts_two : Conflicts server keep 2 (empty_server 2) object (empty_server 0) object
unfolding coredns_deployment
conflicts_two = again refl (again refl (start (empty_server 0) object))

first_without_conflict_example :
    create_or_update_with_retries server object keep (empty_server 2)
    ≡ (done 1, record { objects = object ∷ []; pending = 0 })
unfolding coredns_deployment
first_without_conflict_example =
    first_without_conflict server keep 4 server_laws 2 (empty_server 2) (empty_server 0) object
      object conflicts_two (omega arith) refl

abbrev deployed : Server
deployed = record { objects = object ∷ []; pending = 0 }

deployed_object :
    get (before_deployment server owner deployed).1 Kind.deployment_kind "ns" (coredns_name owner)
    ≡ ok object
unfolding coredns_deployment coredns_name ensure_coredns_config_map ensure_coredns_service_account
    ensure_coredns_service get_zones get_zupd_ips coredns_service_spec create_or_update_with_retries
    attempts trial zupd_name
deployed_object = refl

deployment_ignores_changes_example :
    ensure_coredns server (resized "ksdns:2" (pos 3) owner) deployed
    ≡ ensure_coredns server owner deployed
deployment_ignores_changes_example =
    deployment_ignores_changes server 4 server_laws owner "ksdns:2" (pos 3) deployed object
      deployed_object

abbrev spec_of : Outcome ServiceSpec → ServiceSpec
spec_of (done spec) = spec
spec_of _ = zupd_service_spec owner

coredns_service_done : coredns_service_spec owner ≡ done (spec_of (coredns_service_spec owner))
unfolding coredns_service_spec
coredns_service_done = refl

selectors_match_example :
    Selects
      (spec_of (coredns_service_spec owner)).selector
      (coredns_deployment_spec owner).template_labels
    × Selects
        (coredns_deployment_spec owner).selector
        (coredns_deployment_spec owner).template_labels
    × Selects (zupd_service_spec owner).selector (zupd_deployment_spec owner).template_labels
    × Selects (zupd_deployment_spec owner).selector (zupd_deployment_spec owner).template_labels
selectors_match_example =
    selectors_match owner (spec_of (coredns_service_spec owner)) coredns_service_done

zones_run_together_example :
    (render_coredns_corefile ("a" ∷ "b" ∷ []) [] false
      ≡ render_coredns_corefile ("a:1053b" ∷ []) [] false)
    × (render_zupd_corefile ("a" ∷ "b" ∷ []) [] "ns" false
        ≡ render_zupd_corefile ("a:1053b" ∷ []) [] "ns" false)
zones_run_together_example = zones_run_together "a" "b" [] [] "ns" false

abbrev inputs : Inputs miekg
inputs = record { now = 7; ns_ip = some 2; generated = some "key" }

reconciled : (reconcile server miekg inputs "ns" "dns" (empty_server 0)).0 ≡ done tt
unfolding reconcile with_status ensure_all ensure_coredns_secret find_secret own_secret
    create_secret ensure_zones ensure_zone to_rfc1035_zone add_rrs add_records record_rr
    record_string new_a ensure_coredns ensure_coredns_config_map ensure_coredns_service_account
    ensure_coredns_service get_zones get_zupd_ips ensure_zupd ensure_zupd_service
    ensure_zupd_service_account ensure_zupd_namespace_admin_role ensure_zupd_config_map
    coredns_service_spec create_or_update_with_retries attempts zupd_role zupd_role_binding
    zupd_deployment coredns_deployment coredns_name zupd_name trial
reconciled = refl

reconcile_requires_cluster_ip_example :
    (used : Ksdns) × (t : Server) × (with_status server miekg "ns" "dns" owner (empty_server 0)
      ≡ (done used, t))
    × IsExposed used
reconcile_requires_cluster_ip_example =
    reconcile_requires_cluster_ip server miekg inputs "ns" "dns" (empty_server 0) owner refl
      reconciled
