-- ===== src/Zupd/Manager/Panics.antt =====
-- When `NewManager` panics (manager.go).
use ksdns.Prelude.{String, ◌≡◌, ◌≢◌, ◌↔◌, ◌⊎◌, inl, inr, refl, Bool, none, some, List}
use ksdns.Prelude.Go.{Result, ok, err}
use ksdns.Zupd.Manager.{
  Value, bool, text, absent, other, ControllerRuntime, Options, Made, panicked, then_make,
  election_key, namespace_key, election_of, namespace_of, options_of, make_manager, new_manager,
}

-- The values that the two type assertions take.
pub data IsElection : Value → Type 0 where
  no_election : IsElection absent
  election : (b : Bool) → IsElection (bool b)

pub data IsNamespace : Value → Type 0 where
  no_namespace : IsNamespace absent
  namespace : (s : String) → IsNamespace (text s)

then_make-made :
    {A B : Type 0} (a : Result A) (f : A → Made B)
    → ((x : A) → f x ≢ panicked)
    → then_make a f ≢ panicked
then_make-made (ok x) f h = h x
then_make-made (err e) f h = λ p. cc

make_manager_lem : (r : ControllerRuntime) (o : Options) → make_manager r o ≢ panicked
unfolding make_manager
make_manager_lem r o = then_make-made (r.new_manager o) _ λ m. then_make-made (r.complete m) _ λ m1.
    then_make-made (r.add_healthz_check m1 "healthz") _
      λ m2. then_make-made (r.add_readyz_check m2 "readyz") _ λ m3. λ p. cc

election_of-cases :
    (v : Value)
    → ((b : Bool) × (election_of v ≡ some b) × IsElection v)
      ⊎ ((election_of v ≡ none) × (IsElection v → ⊥))
unfolding election_of
election_of-cases absent = inl (_, refl, no_election)
election_of-cases (bool b) = inl (_, refl, election b)
election_of-cases (text s) = inr (refl, λ i. elim i [ ])
election_of-cases other = inr (refl, λ i. elim i [ ])

namespace_of-cases :
    (v : Value)
    → ((s : String) × (namespace_of v ≡ some s) × IsNamespace v)
      ⊎ ((namespace_of v ≡ none) × (IsNamespace v → ⊥))
unfolding namespace_of
namespace_of-cases absent = inl (_, refl, no_namespace)
namespace_of-cases (text s) = inl (_, refl, namespace s)
namespace_of-cases (bool b) = inr (refl, λ i. elim i [ ])
namespace_of-cases other = inr (refl, λ i. elim i [ ])

module _ (r : ControllerRuntime) (viper : String → Value) (namespaces : List String) where
  -- `NewManager` panics exactly where viper has a value that is no Boolean for the leader election,
  -- such as the text of an environment variable, or one that is no text for its namespace; no
  -- failure of controller-runtime makes it panic.
  new_manager_panics :
      (new_manager r viper namespaces ≡ panicked)
      ↔ ((IsElection (viper election_key) → ⊥) ⊎ (IsNamespace (viper namespace_key) → ⊥))
  unfolding new_manager
  new_manager_panics = elim (election_of-cases (viper election_key)) [
    | inr (none_e, wrong) ↦ (λ p. inl wrong, λ w. rw (none_e, new_manager) refl)
    | inl (b, some_e, right) ↦ elim (namespace_of-cases (viper namespace_key)) [
      | inr (none_n, wrong) ↦
          (λ p. inr wrong, λ w. rw (some_e, new_manager) (rw (none_n, new_manager) refl))
      | inl (s, some_n, fits) ↦ (
        λ p. absurd (
            make_manager_lem r (options_of b s namespaces)
              (rw (some_n, new_manager) at (rw (some_e, new_manager) at p))),
        λ w. elim w [ inl wrong ↦ absurd (wrong right) | inr wrong ↦ absurd (wrong fits) ],
      )
    ]
  ]
