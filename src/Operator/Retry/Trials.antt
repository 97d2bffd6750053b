-- ===== src/Operator/Retry/Trials.antt =====
-- What the retries come to.
use ksdns.Prelude.{
  ℕ, zero, suc, ◌+◌, ◌-◌, ◌<◌, ◌≡◌, refl, sym, ap, ◌∙◌, Bool, true, false, Option, none, some,
  arith,
}
use ksdns.Prelude.Go.{Error, conflict, is_conflict, Result, ok, err}
use ksdns.Operator.Objects.{Object, kind_of}
use ksdns.Operator.Kubernetes.{Kubernetes, KubernetesLaws, Attempt, attempts, wait_timeout}
use ksdns.Operator.Run.{Outcome, done, failed}
use ksdns.Operator.Retry.{Closure, trial_result, trial, finish, create_or_update_with_retries}

attempts-suc :
    {S : Type 0} (m : ℕ) (condition : S → Result Bool × S) (s t : S)
    → condition s ≡ condition t
    → attempts (suc m) condition s ≡ attempts (suc m) condition t
unfolding attempts
attempts-suc {S} m condition s t h = ap after h
  where
    after : Result Bool × S → Option Error × S
    after p = elim p.0 [
      | ok finished ↦ elim finished [ true ↦ (none, p.1) | false ↦ attempts m condition p.1 ]
      | err e ↦ (some e, p.1)
    ]

module _ (k : Kubernetes) (f : Object → Result Object) where
  open k use {Cluster, OperationResult}

  -- From one state of the server and object, `n` calls of `CreateOrUpdate` end in a conflict each,
  -- and lead to another.
  pub data Conflicts : ℕ → Cluster → Object → Cluster → Object → Type 0 where
    start : (c : Cluster) (obj : Object) → Conflicts zero c obj c obj
    again :
        {n : ℕ} {c c' : Cluster} {obj obj' : Object}
        → (k.create_or_update c obj f).failure ≡ some conflict
        → Conflicts n
            (k.create_or_update c obj f).cluster
            (k.create_or_update c obj f).object
            c'
            obj'
        → Conflicts (suc n) c obj c' obj'

  attempts-Conflicts :
      {n : ℕ} {c c' : Cluster} {obj obj' : Object} (m : ℕ) (op : OperationResult)
      → Conflicts n c obj c' obj'
      → (op' : OperationResult) × (attempts (n + m) (trial k f) (c, obj, op)
          ≡ attempts m (trial k f) (c', obj', op'))
  unfolding attempts trial
  attempts-Conflicts m op (start c obj) =
      let e : 0 + m ≡ m = omega arith in (op, ap (λ s. attempts s (trial k f) (c, obj, op)) e)
  attempts-Conflicts {c = c} {obj = obj} m op (again {n = n} failed_once rest) =
      let (op', ih) = attempts-Conflicts m (k.create_or_update c obj f).result rest in
      let e : suc n + m ≡ suc (n + m) = omega arith in
      (op', ap (λ s. attempts s (trial k f) (c, obj, op)) e ∙ rw (failed_once, attempts) ih)

  -- How a call that ends in no conflict is reported.
  abbrev outcome_of : Attempt Cluster OperationResult → Outcome OperationResult
  outcome_of a = elim a.failure [ none ↦ done a.result | some e ↦ failed e ]

  abbrev pub is_conflicting : Option Error → Bool
  is_conflicting none = false
  is_conflicting (some e) = is_conflict e

  one_more :
      (m : ℕ) (c : Cluster) (obj : Object) (op : OperationResult)
      → is_conflicting (k.create_or_update c obj f).failure ≡ false
      → finish k (attempts (suc m) (trial k f) (c, obj, op))
        ≡ (outcome_of (k.create_or_update c obj f), (k.create_or_update c obj f).cluster)
  unfolding attempts trial
  one_more m c obj op h = ground arith

  module _ (steps : ℕ) (laws : KubernetesLaws k steps) where
    -- After fewer conflicts than there are trials, the first call that ends in no conflict decides:
    -- its result, or its error, is the operation's, and the server is left as that call leaves it.
    pub first_without_conflict :
        (n : ℕ) (c c' : Cluster) (obj obj' : Object)
        → Conflicts n c obj c' obj'
        → n < steps
        → is_conflicting (k.create_or_update c' obj' f).failure ≡ false
        → create_or_update_with_retries k obj f c
          ≡ (outcome_of (k.create_or_update c' obj' f), (k.create_or_update c' obj' f).cluster)
    unfolding create_or_update_with_retries
    first_without_conflict n c c' obj obj' conflicts room fine =
        let rest = steps - suc n in
        let e : steps ≡ n + suc rest = omega arith in
        let (op', run) = attempts-Conflicts (suc rest) k.no_result conflicts in
        ap (finish k) (
          laws.backoff (Closure k) (trial k f) (c, obj, k.no_result)
          ∙ ap (λ m. attempts m (trial k f) (c, obj, k.no_result)) e
          ∙ run)
        ∙ one_more rest c' obj' op' fine

    -- If every trial ends in a conflict, the operation ends with the time-out error.
    conflicts_time_out :
        (c c' : Cluster) (obj obj' : Object)
        → Conflicts steps c obj c' obj'
        → create_or_update_with_retries k obj f c ≡ (failed wait_timeout, c')
    unfolding create_or_update_with_retries attempts
    conflicts_time_out c c' obj obj' conflicts =
        let e : steps ≡ steps + 0 = omega arith in
        let (op', run) = attempts-Conflicts 0 k.no_result conflicts in
        ap (finish k) (
          laws.backoff (Closure k) (trial k f) (c, obj, k.no_result)
          ∙ ap (λ m. attempts m (trial k f) (c, obj, k.no_result)) e
          ∙ run)

  module _ (steps : ℕ) (laws : KubernetesLaws k steps) where
    -- Where an object of the kind and name exists, what else the object passed in holds does not
    -- matter: not to the server, nor to the outcome.
    pub existing_object_wins :
        (c : Cluster) (a b existing : Object)
        → a.name ≡ b.name
        → a.namespace ≡ b.namespace
        → kind_of a.body ≡ kind_of b.body
        → k.get c (kind_of a.body) a.namespace a.name ≡ ok existing
        → create_or_update_with_retries k a f c ≡ create_or_update_with_retries k b f c
    unfolding create_or_update_with_retries attempts
    existing_object_wins c a b existing p q r found =
        ap (finish k) (laws.backoff (Closure k) (trial k f) (c, a, k.no_result))
        ∙ same steps
        ∙ sym (ap (finish k) (laws.backoff (Closure k) (trial k f) (c, b, k.no_result)))
      where
        first : trial k f (c, a, k.no_result) ≡ trial k f (c, b, k.no_result)
        first =
            ap
              (λ (t : Attempt Cluster OperationResult).
                (trial_result k t.failure, (t.cluster, t.object, t.result)))
              (laws.existing_is_read c a b existing f p q r found)

        same :
            (m : ℕ)
            → finish k (attempts m (trial k f) (c, a, k.no_result))
              ≡ finish k (attempts m (trial k f) (c, b, k.no_result))
        same zero = refl
        same (suc m) =
            ap (finish k) (attempts-suc m (trial k f) (c, a, k.no_result) (c, b, k.no_result) first)
