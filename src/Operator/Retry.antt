-- ===== src/Operator/Retry.antt =====
-- `CreateOrUpdateWithRetries` (controllers/dns/utils.go).
pub mod Trials
pub mod Frame
use ksdns.Prelude.{Bool, true, false, Option, none, some}
use ksdns.Prelude.Go.{Error, is_conflict, Result, ok, err}
use ksdns.Operator.Objects.{Object}
use ksdns.Operator.Kubernetes.{Kubernetes, Attempt}
use ksdns.Operator.Run.{Outcome, done, failed, Run}

module _ (k : Kubernetes) where
  open k use {Cluster, OperationResult}

  -- What the closure reads and writes: the server, the object behind the pointer, and the result.
  abbrev pub Closure : Type 0
  Closure = Cluster × Object × OperationResult

  abbrev trial_result : Option Error → Result Bool
  trial_result none = ok true
  trial_result (some e) = elim (is_conflict e) [ true ↦ ok false | false ↦ err e ]

  unfoldable pub trial : (Object → Result Object) → Closure → Result Bool × Closure
  trial f (c, obj, op) =
      let a = k.create_or_update c obj f in
      (trial_result a.failure, (a.cluster, a.object, a.result))

  abbrev finish : Option Error × Closure → Outcome OperationResult × Cluster
  finish (none, (c, obj, op)) = (done op, c)
  finish (some e, (c, obj, op)) = (failed e, c)

  unfoldable pub create_or_update_with_retries :
      Object → (Object → Result Object) → Run Cluster OperationResult
  unfolding trial
  create_or_update_with_retries obj f c =
      finish (k.exponential_backoff Closure (trial f) (c, obj, k.no_result))
