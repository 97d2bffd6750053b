-- ===== src/Operator/Retry/Frame.antt =====
-- What the retries leave alone: the objects of other names.
use ksdns.Prelude.{
  ℕ, zero, suc, String, ◌≡◌, ◌≢◌, refl, sym, ap, ◌∙◌, Bool, true, false, Option, some, none,
}
use ksdns.Prelude.Go.{Error, Result, ok, err}
use ksdns.Operator.Objects.{Kind, Object}
use ksdns.Operator.Kubernetes.{Kubernetes, KubernetesLaws, attempts}
use ksdns.Operator.Retry.{Closure, trial, finish, create_or_update_with_retries}

-- A mutate function that leaves the object its name.
abbrev pub KeepsName : (Object → Result Object) → Type 0
KeepsName f = (o p : Object) → f o ≡ ok p → p.name ≡ o.name

-- Documented behaviour of `CreateOrUpdate`: it writes the object that it is given, and no object of
-- another name, and the object keeps its name.
pub record FrameLaws (k : Kubernetes) : Type 0 where
  pub writes_one :
      (c : k.Cluster) (obj : Object) (f : Object → Result Object) (kind : Kind)
      (namespace name : String)
      → KeepsName f
      → obj.name ≢ name
      → k.get (k.create_or_update c obj f).cluster kind namespace name ≡ k.get c kind namespace name
  pub keeps_name :
      (c : k.Cluster) (obj : Object) (f : Object → Result Object)
      → KeepsName f
      → (k.create_or_update c obj f).object.name ≡ obj.name

one_more :
    {S : Type 0} (P : S → Type 0) (condition : S → Result Bool × S) (n : ℕ) (s : S)
    (r : Result Bool)
    → (condition s).0 ≡ r
    → P (condition s).1
    → P (attempts n condition (condition s).1).1
    → P (attempts (suc n) condition s).1
unfolding attempts
one_more P condition n s (ok true) e here rest = rw (e, attempts) here
one_more P condition n s (ok false) e here rest = rw (e, attempts) rest
one_more P condition n s (err x) e here rest = rw (e, attempts) here

-- What each trial preserves, any number of trials preserves.
attempts-preserves :
    {S : Type 0} (P : S → Type 0) (condition : S → Result Bool × S)
    → ((s : S) → P s → P (condition s).1)
    → (n : ℕ) (s : S) → P s
    → P (attempts n condition s).1
unfolding attempts
attempts-preserves P condition step zero s h = h
attempts-preserves P condition step (suc n) s h =
    one_more P condition n s (condition s).0 refl (step s h)
      (attempts-preserves P condition step n (condition s).1 (step s h))

module _ (k : Kubernetes) (frame : FrameLaws k) (f : Object → Result Object) (keeps : KeepsName f)
    (kind : Kind) (namespace name : String) where
  open k use {Cluster, OperationResult}

  abbrev Untouched : Cluster → Closure k → Type 0
  Untouched before (c, obj, op) =
      (k.get c kind namespace name ≡ k.get before kind namespace name) × (obj.name ≢ name)

  trial-Untouched :
      (before : Cluster) (s : Closure k) → Untouched before s → Untouched before (trial k f s).1
  unfolding trial
  trial-Untouched before (c, obj, op) (same, other) = (
    frame.writes_one c obj f kind namespace name keeps other ∙ same,
    λ e. other (sym (frame.keeps_name c obj f keeps) ∙ e),
  )

  finish-cluster : (r : Option Error × Closure k) → (finish k r).1 ≡ r.1.0
  finish-cluster (none, (c, obj, op)) = refl
  finish-cluster (some e, (c, obj, op)) = refl

  -- An object of another name is read after the operation as before it.
  pub retries_untouched :
      (steps : ℕ) (c : Cluster) (obj : Object)
      → KubernetesLaws k steps
      → obj.name ≢ name
      → k.get (create_or_update_with_retries k obj f c).1 kind namespace name
        ≡ k.get c kind namespace name
  unfolding create_or_update_with_retries
  retries_untouched steps c obj laws other =
      let start : Closure k = (c, obj, k.no_result) in
      ap (λ s. k.get s kind namespace name)
        (finish-cluster (k.exponential_backoff (Closure k) (trial k f) start)
          ∙ ap (λ r. r.1.0) (laws.backoff (Closure k) (trial k f) start))
      ∙ (attempts-preserves (Untouched c) (trial k f) (trial-Untouched c) steps start
          (refl, other)).0
