-- ===== src/Operator/Ensure.antt =====
-- The steps of a reconciliation that create or update objects (controllers/dns/coredns.go, zone.go
-- and zupd.go), in the source's order of calls.
pub mod Secrets
pub mod Inputs
pub mod Drift
pub mod Stored
pub mod Rewrites
pub mod Restores
pub mod Others
use ksdns.Prelude.{
  ℕ, String, Bool, true, false, Option, none, some, List, [], ◌∷◌, ◌++◌, str_eq, if◌then◌else◌,
  is_some,
}
use ksdns.Prelude.Go.{Error, Errors, nil, cons, aggregate, message, is_not_found, Result, ok, err}
use ksdns.Api.Records.{Zone, Miekg, to_rfc1035_zone}
use ksdns.Operator.Objects.{
  Labels, Kind, ServiceSpec, Body, config_map, secret, service_account, service, deployment, role,
  role_binding, zone, Object, Pod, Ksdns,
}
use ksdns.Operator.Kubernetes.{Kubernetes}
use ksdns.Operator.Run.{
  Outcome, done, failed, panicked, Run, pure, fail, panic, lift, ◌>>=◌, ◌>>◌, ignore_error,
}
use ksdns.Operator.Labels.{make_labels, make_selector, coredns_name, zupd_name}
use ksdns.Operator.Corefile.{render_coredns_corefile, render_zupd_corefile, render_tsig_secret}
use ksdns.Operator.Resources.{
  plain_object, coredns_service_spec, zupd_service_spec, coredns_deployment, zupd_deployment,
  zupd_role, zupd_role_binding,
}
use ksdns.Operator.Retry.{create_or_update_with_retries}

abbrev pub link_local : String
link_local = "169.254.0.1"

-- A read of a Go map: the zero value, "", where the key is missing.
abbrev pub field : String → Labels → Option String
field key [] = none
field key ((j, v) ∷ rest) = if str_eq j key then some v else field key rest

abbrev text_of : Option String → String
text_of none = ""
text_of (some v) = v

abbrev pub stored_data : Body → Labels
stored_data (secret string_data stored) = stored
stored_data _ = []

-- `Data` of a config map is set, and `StringData` of a secret: the other field stays.
abbrev pub set_data : Labels → Body → Body
set_data entries (config_map _ binary) = config_map entries binary
set_data entries _ = config_map entries []

abbrev pub set_string_data : Labels → Body → Body
set_string_data entries (secret _ stored) = secret entries stored
set_string_data entries _ = secret entries []

abbrev names_of : List Object → List String
names_of [] = []
names_of (z ∷ zs) = z.name ∷ names_of zs

abbrev pub cluster_ip_of : Body → String
cluster_ip_of (service spec) = spec.cluster_ip
cluster_ip_of _ = ""

module _ (k : Kubernetes) where
  open k use {Cluster, OperationResult}

  -- The mutate function changes the body, and then sets the owner.
  abbrev pub with_change : Ksdns → (Body → Body) → Object → Result Object
  with_change owner change obj =
      k.set_controller_reference owner (record obj { body = change obj.body })

  -- Of an object whose whole spec is set.
  abbrev pub with_body : Ksdns → Body → Object → Result Object
  with_body owner body = with_change owner (λ b. body)

  -- The mutate function of the objects whose spec is set beforehand: it sets the owner alone.
  abbrev pub owner_only : Ksdns → Object → Result Object
  owner_only owner obj = k.set_controller_reference owner obj

  -- `_, err := CreateOrUpdateWithRetries(…)`, or with the result logged.
  abbrev pub apply : Object → (Object → Result Object) → Run Cluster (Unit {0})
  apply obj f = do create_or_update_with_retries k obj f; pure tt

  -- `tsigKey` of the package's variables
  abbrev tsig_key : String
  tsig_key = "ksdns.tsigKey."

  -- The secret of the Ksdns object's own name, made where it is not found; `generated` is what
  -- `generateTsigSecret` returns, `none` where the random source fails and it panics.
  unfoldable pub create_secret : Option String → Ksdns → Run Cluster Labels
  create_secret none owner c = (panicked, c)
  create_secret (some ts) owner c =
      elim (k.set_controller_reference owner (
        plain_object owner.name owner (make_labels "ksdns" owner)
          (secret (("tsigKey", tsig_key) ∷ ("tsigSecret", ts) ∷ []) []))) [
            | err e ↦ (failed e, c)
            | ok obj ↦
                let created = k.create c obj in
                elim created.failure [
                  | some e ↦ (failed e, created.cluster)
                  | none ↦ (done (stored_data created.object.body), created.cluster)
                ]
          ]

  -- Only a missing secret is made; any other error of the read is passed over, and the code goes on
  -- with the empty secret.
  unfoldable pub own_secret : Option String → Ksdns → Run Cluster Labels
  own_secret generated owner c = elim (k.get c Kind.secret_kind owner.namespace owner.name) [
    | ok found ↦ (done (stored_data found.body), c)
    | err e ↦ if is_not_found e then create_secret generated owner c else (done [], c)
  ]

  abbrev missing : String → Labels → Errors → Errors
  missing key stored errs = if is_some (field key stored) then errs else cons (message key) errs

  abbrev check_secret : Labels → Outcome Labels
  check_secret stored = elim (missing "tsigKey" stored (missing "tsigSecret" stored nil)) [
    | nil ↦ done stored
    | cons e es ↦ failed (aggregate (cons e es))
  ]

  unfoldable pub given_secret : String → Ksdns → Run Cluster Labels
  given_secret name owner c = elim (k.get c Kind.secret_kind owner.namespace name) [
    | err e ↦ (failed e, c)
    | ok found ↦ (check_secret (stored_data found.body), c)
  ]

  unfoldable pub find_secret : Option String → Ksdns → Run Cluster Labels
  find_secret generated owner = elim owner.secret [
    | none ↦ own_secret generated owner
    | some name ↦ given_secret name owner
  ]

  -- The TSIG file, made of the texts of the secret's two fields.
  abbrev tsig_file : Labels → Labels
  tsig_file stored =
      (
        "tsig.conf",
        render_tsig_secret (text_of (field "tsigKey" stored)) (text_of (field "tsigSecret" stored)),
      )
      ∷ []

  unfoldable pub ensure_coredns_secret : Option String → Ksdns → Run Cluster (Unit {0})
  ensure_coredns_secret generated owner = do
    stored ← find_secret generated owner
    apply (plain_object (coredns_name owner) owner (make_labels "ksdns" owner) (secret [] []))
        (with_change owner (set_string_data (tsig_file stored)))

  -- A zone that is not converted is logged and skipped; the outcome of the update is not read.
  unfoldable pub ensure_zone :
      (m : Miekg) → ℕ → Option (m.Ip) → Ksdns → Zone → Run Cluster (Unit {0})
  ensure_zone m now ip owner z = elim (to_rfc1035_zone m now z ip) [
    | err e ↦ pure tt
    | ok spec ↦ ignore_error (
        create_or_update_with_retries k
          (plain_object z.origin owner (make_labels "zone" owner) (zone (record { zone = "" })))
          (with_body owner (zone spec)))
  ]

  unfoldable pub ensure_zones :
      (m : Miekg) → ℕ → Option (m.Ip) → Ksdns → List Zone → Run Cluster (Unit {0})
  ensure_zones m now ip owner [] = pure tt
  ensure_zones m now ip owner (z ∷ zs) =
      ensure_zone m now ip owner z >> ensure_zones m now ip owner zs

  unfoldable pub get_zones : Ksdns → Run Cluster (List String)
  get_zones owner c = elim (k.list_zones c owner.namespace) [
    | err e ↦ (failed e, c)
    | ok [] ↦ (done ("." ∷ []), c)
    | ok (z ∷ zs) ↦ (done (names_of (z ∷ zs)), c)
  ]

  unfoldable pub get_zupd_ips : Ksdns → Run Cluster (List String)
  get_zupd_ips owner c = elim (k.get c Kind.service_kind owner.namespace (zupd_name owner)) [
    | err e ↦ if is_not_found e then (done (link_local ∷ []), c) else (failed e, c)
    | ok svc ↦
        if str_eq (cluster_ip_of svc.body) ""
        then (done (link_local ∷ []), c)
        else (done (cluster_ip_of svc.body ∷ []), c)
  ]

  unfoldable pub ensure_coredns_config_map : Ksdns → Run Cluster (Unit {0})
  ensure_coredns_config_map owner = do
    secondary_from ← get_zupd_ips owner
    zones ← get_zones owner
    apply (plain_object (coredns_name owner) owner (make_labels "coredns" owner) (config_map [] []))
        (with_change owner
          (set_data (("Corefile", render_coredns_corefile zones secondary_from false) ∷ [])))

  unfoldable pub ensure_coredns_service_account : Ksdns → Run Cluster (Unit {0})
  ensure_coredns_service_account owner =
      apply (plain_object (coredns_name owner) owner (make_labels "ksdns" owner) service_account)
        (owner_only owner)

  abbrev no_service_spec : ServiceSpec
  no_service_spec = record { selector = []; type = ""; ports = []; cluster_ip = "" }

  unfoldable pub ensure_coredns_service : Ksdns → Run Cluster (Unit {0})
  ensure_coredns_service owner = do
    spec ← (λ c. (coredns_service_spec owner, c))
    apply
        (plain_object (coredns_name owner) owner (make_labels "ksdns" owner)
          (service no_service_spec))
        (with_body owner (service spec))

  unfoldable pub ensure_coredns : Ksdns → Run Cluster (Unit {0})
  ensure_coredns owner = do
    ensure_coredns_config_map owner
    ensure_coredns_service_account owner
    ensure_coredns_service owner
    apply (coredns_deployment owner) (owner_only owner)

  -- The outcome of the update is not read.
  unfoldable pub ensure_zupd_service : Ksdns → Run Cluster (Unit {0})
  ensure_zupd_service owner = ignore_error (
      create_or_update_with_retries k
        (plain_object (zupd_name owner) owner (make_labels "zupd" owner) (service no_service_spec))
        (with_body owner (service (zupd_service_spec owner))))

  unfoldable pub ensure_zupd_service_account : Ksdns → Run Cluster (Unit {0})
  ensure_zupd_service_account owner =
      apply (plain_object (zupd_name owner) owner [] service_account) (owner_only owner)

  unfoldable pub ensure_zupd_namespace_admin_role : Ksdns → Run Cluster (Unit {0})
  ensure_zupd_namespace_admin_role owner = do
    apply (zupd_role owner) (owner_only owner)
    apply (zupd_role_binding owner) (owner_only owner)

  abbrev pod_ips : List Pod → List String
  pod_ips [] = []
  pod_ips (p ∷ ps) = let rest = pod_ips ps in if str_eq p.pod_ip "" then rest else p.pod_ip ∷ rest

  abbrev or_link_local : List String → List String
  or_link_local [] = link_local ∷ []
  or_link_local (ip ∷ ips) = ip ∷ ips

  -- The outcome of the update is not read.
  unfoldable pub ensure_zupd_config_map : Ksdns → Run Cluster (Unit {0})
  ensure_zupd_config_map owner = do
    pods ← (λ c. lift (k.list_pods c owner.namespace (make_labels "coredns" owner)) c)
    zones ← (λ c. lift (k.list_zones c owner.namespace) c)
    ignore_error (
        create_or_update_with_retries k
          (plain_object (zupd_name owner) owner (make_labels "zupd" owner) (config_map [] []))
          (with_change owner (
            set_data (
              (
                "Corefile",
                render_zupd_corefile (names_of zones) (or_link_local (pod_ips pods)) owner.namespace
                    false,
              )
              ∷ []))))

  unfoldable pub ensure_zupd : Ksdns → Run Cluster (Unit {0})
  ensure_zupd owner = do
    ensure_zupd_service owner
    ensure_zupd_service_account owner
    ensure_zupd_namespace_admin_role owner
    ensure_zupd_config_map owner
    apply (zupd_deployment owner) (owner_only owner)
