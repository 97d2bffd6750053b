-- ===== src/Operator/Ensure/Stored.antt =====
-- What a step that updates an existing object leaves on the server.
use ksdns.Prelude.{ℕ, ◌≡◌, refl, ap, ◌∙◌, Bool, true, false, none, ◌<◌, ◌⊎◌}
use ksdns.Prelude.Go.{Error, is_not_found, Result, ok, err}
use ksdns.Operator.Objects.{Kind, kind_of, Body, Object, Ksdns}
use ksdns.Operator.Kubernetes.{Kubernetes, KubernetesLaws}
use ksdns.Operator.Run.{Outcome, done, failed, panicked, ignore_error}
use ksdns.Operator.Retry.{create_or_update_with_retries}
use ksdns.Operator.Retry.Trials.{is_conflicting, start, first_without_conflict}
use ksdns.Operator.Ensure.{with_change}

-- The kinds whose objects the API server keeps as they are sent, with no defaults filled in.
abbrev pub is_plain : Kind → Bool
is_plain Kind.zone_kind = true
is_plain Kind.config_map_kind = true
is_plain _ = false

-- What the mutate function is given: the object that the server has, or, where it has none, the one
-- that is passed in.
abbrev pub Given : (k : Kubernetes) → k.Cluster → Object → Object → Type 0
Given k c obj base =
    (k.get c (kind_of obj.body) obj.namespace obj.name ≡ ok base)
    ⊎ ((e : Error) × (k.get c (kind_of obj.body) obj.namespace obj.name ≡ err e)
        × (is_not_found e ≡ true)
        × (base ≡ obj))

-- Documented behaviour of controller-runtime: `SetControllerReference` changes the owner references
-- alone; and `CreateOrUpdate` without an error leaves the server with what the mutate function makes
-- of what it is given, if that keeps the name and type of the object and the API server adds nothing
-- to it.
pub record UpdateLaws (k : Kubernetes) : Type 0 where
  pub owner_keeps :
      (owner : Ksdns) (o p : Object)
      → k.set_controller_reference owner o ≡ ok p
      → (p.name ≡ o.name) × (p.namespace ≡ o.namespace) × (p.body ≡ o.body)
  pub update_stores :
      (c : k.Cluster) (obj base : Object) (f : Object → Result Object)
      → is_plain (kind_of obj.body) ≡ true
      → Given k c obj base
      → ((p : Object)
          → f base ≡ ok p
          → (p.name ≡ base.name)
            × (p.namespace ≡ base.namespace)
            × (kind_of p.body ≡ kind_of obj.body))
      → (k.create_or_update c obj f).failure ≡ none
      → (wanted : Object) × (stored : Object) × (f base ≡ ok wanted)
        × (k.get (k.create_or_update c obj f).cluster (kind_of obj.body) obj.namespace obj.name
            ≡ ok stored)
        × (stored.body ≡ wanted.body)

pub ignore_error_keeps :
    {S A : Type 0} (run : Outcome A × S) → (ignore_error (λ (c : S). run) run.1).1 ≡ run.1
ignore_error_keeps (done a, s) = refl
ignore_error_keeps (failed e, s) = refl
ignore_error_keeps (panicked, s) = refl

module _ (k : Kubernetes) (law : UpdateLaws k) (owner : Ksdns) (obj : Object)
    (change : Body → Body) where
  keeps :
      (base p : Object)
      → kind_of (change base.body) ≡ kind_of obj.body
      → with_change k owner change base ≡ ok p
      → (p.name ≡ base.name) × (p.namespace ≡ base.namespace) × (kind_of p.body ≡ kind_of obj.body)
  keeps base p kind h =
      let (n, ns, b) = law.owner_keeps owner (record base { body = change base.body }) p h in
      (n, ns, ap kind_of b ∙ kind)

  -- One trial that the server accepts stores the body that the mutate function makes.
  pub stored_as :
      (steps : ℕ) (c : k.Cluster) (base : Object)
      → KubernetesLaws k steps
      → 0 < steps
      → is_plain (kind_of obj.body) ≡ true
      → kind_of (change base.body) ≡ kind_of obj.body
      → Given k c obj base
      → (k.create_or_update c obj (with_change k owner change)).failure ≡ none
      → (stored : Object) × (k.get
            (ignore_error (create_or_update_with_retries k obj (with_change k owner change)) c).1
            (kind_of obj.body)
            obj.namespace
            obj.name
          ≡ ok stored)
        × (stored.body ≡ change base.body)
  stored_as steps c base laws room plain kind given accepted =
      let f = with_change k owner change in
      let (wanted, stored, made, read, same) =
        law.update_stores c obj base f plain given (λ p. keeps base p kind) accepted in
      let (n, ns, b) =
        law.owner_keeps owner (record base { body = change base.body }) wanted made in
      let run =
        first_without_conflict k f steps laws 0 c c obj obj (start c obj) room
          (ap (is_conflicting k f) accepted) in
      (
        stored,
        ap (λ s. k.get s (kind_of obj.body) obj.namespace obj.name)
              (ignore_error_keeps (create_or_update_with_retries k obj f c) ∙ ap (λ t. t.1) run)
            ∙ read,
        same ∙ b,
      )
