-- ===== src/Operator/Kubernetes.antt =====
-- What the operator takes from client-go, controller-runtime and apimachinery: operations on the
-- state of the API server, as the fields of a record, and their documented behaviour.
use ksdns.Prelude.{ℕ, zero, suc, String, ◌≡◌, Bool, true, false, Option, none, some, List}
use ksdns.Prelude.Go.{Error, message, Result, ok, err}
use ksdns.Operator.Objects.{Object, Labels, Kind, kind_of, Pod, Ksdns, Condition}

-- What `controllerutil.CreateOrUpdate` leaves: the server, the object that the pointer holds, the
-- operation's result and the error.
pub record Attempt (Cluster OperationResult : Type 0) : Type 0 where
  pub cluster : Cluster
  pub object : Object
  pub result : OperationResult
  pub failure : Option Error

pub record Kubernetes : Type 1 where
  pub Cluster : Type 0
  pub OperationResult : Type 0
  -- the zero value of the result
  pub no_result : OperationResult
  pub get : Cluster → Kind → String → String → Result Object
  pub get_ksdns : Cluster → String → String → Result Ksdns
  pub list_zones : Cluster → String → Result (List Object)
  pub list_pods : Cluster → String → Labels → Result (List Pod)
  -- the object comes back as the server answers it
  pub create :
      Cluster → Object → record { cluster : Cluster; object : Object; failure : Option Error }
  pub update_ksdns_status : Cluster → Ksdns → Cluster × Option Error
  pub create_or_update :
      Cluster → Object → (Object → Result Object) → Attempt Cluster OperationResult
  pub set_controller_reference : Ksdns → Object → Result Object
  pub set_status_condition : List Condition → Condition → List Condition
  pub exponential_backoff : (S : Type 0) → (S → Result Bool × S) → S → Option Error × S

-- `wait.ErrWaitTimeout`
abbrev pub wait_timeout : Error
wait_timeout = message "timed out waiting for the condition"

-- The condition is tried at most so many times; a true result or an error ends the trials.
unfoldable pub attempts : {S : Type 0} → ℕ → (S → Result Bool × S) → S → Option Error × S
attempts zero condition s = (some wait_timeout, s)
attempts (suc n) condition s =
    let (r, s') = condition s in
    let rest = attempts n condition s' in
    elim r [
      | ok finished ↦ elim finished [ true ↦ (none, s') | false ↦ rest ]
      | err e ↦ (some e, s')
    ]

-- Documented behaviour: `ExponentialBackoff` makes so many trials, with pauses that nothing here
-- can see; `CreateOrUpdate` reads an existing object into the pointer before it calls the mutate
-- function, so what the pointer held besides the name is lost; an owner reference depends on the
-- owner's name and namespace alone.
pub record KubernetesLaws (k : Kubernetes) (steps : ℕ) : Type 1 where
  pub backoff :
      (S : Type 0) (condition : S → Result Bool × S) (s : S)
      → k.exponential_backoff S condition s ≡ attempts steps condition s
  pub existing_is_read :
      (c : k.Cluster) (a b existing : Object) (f : Object → Result Object)
      → a.name ≡ b.name
      → a.namespace ≡ b.namespace
      → kind_of a.body ≡ kind_of b.body
      → k.get c (kind_of a.body) a.namespace a.name ≡ ok existing
      → k.create_or_update c a f ≡ k.create_or_update c b f
  pub owner_by_name :
      (a b : Ksdns)
      → a.name ≡ b.name
      → a.namespace ≡ b.namespace
      → k.set_controller_reference a ≡ k.set_controller_reference b
