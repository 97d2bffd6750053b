-- ===== src/Operator/Reconcile.antt =====
-- `Reconcile` of the Ksdns controller (controllers/dns/controller.go).
pub mod Requirements
use ksdns.Prelude.{ℕ, String, Option, none, some, [], ◌∷◌, if◌then◌else◌}
use ksdns.Prelude.Go.{is_not_found, ok, err}
use ksdns.Api.Records.{Miekg}
use ksdns.Operator.Objects.{Ksdns, Condition}
use ksdns.Operator.Kubernetes.{Kubernetes}
use ksdns.Operator.Run.{done, failed, Run, lift, ◌>>=◌, ◌>>◌}
use ksdns.Operator.Ensure.{ensure_coredns_secret, ensure_zones, ensure_coredns, ensure_zupd}

abbrev starting : Condition
starting = record {
  type = "Available";
  status = "Unknown";
  reason = "Reconciling";
  message = "Starting reconciliation";
}

-- What one call is given from outside: the clock, `net.IPv4(10, 0, 0, 10)` of `ensureZones`, and the
-- text that `generateTsigSecret` returns, if it does.
pub record Inputs (m : Miekg) : Type 0 where
  pub now : ℕ
  pub ns_ip : Option (m.Ip)
  pub generated : Option String

module _ (k : Kubernetes) (m : Miekg) where
  open k use {Cluster}

  -- The four steps, each of which ends the call if it returns an error.
  unfoldable pub ensure_all : Inputs m → Ksdns → Run Cluster (Unit {0})
  ensure_all inputs owner = do
    ensure_coredns_secret k inputs.generated owner
    ensure_zones k m inputs.now inputs.ns_ip owner owner.zones
    ensure_coredns k owner
    ensure_zupd k owner

  -- An object with no condition gets the first one, and is read again.
  unfoldable pub with_status : String → String → Ksdns → Run Cluster Ksdns
  with_status namespace name owner c = elim owner.conditions [
    | x ∷ xs ↦ (done owner, c)
    | [] ↦
        let (c', failure) =
          k.update_ksdns_status c
            (record owner { conditions = k.set_status_condition [] starting }) in
        elim failure [ some e ↦ (failed e, c') | none ↦ lift (k.get_ksdns c' namespace name) c' ]
  ]

  unfoldable pub reconcile : Inputs m → String → String → Run Cluster (Unit {0})
  reconcile inputs namespace name c = elim (k.get_ksdns c namespace name) [
    | err e ↦ (if is_not_found e then done tt else failed e, c)
    | ok owner ↦ (do owner' ← with_status namespace name owner; ensure_all inputs owner') c
  ]
