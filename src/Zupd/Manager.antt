-- ===== src/Zupd/Manager.antt =====
-- `NewManager` (manager.go) and `Ready` (ready.go): the manager of the zone controller, with its
-- options from the command line. What the code takes from viper and controller-runtime is a record.
pub mod Panics
use ksdns.Prelude.{ℕ, String, ◌≡◌, refl, Bool, true, false, Option, none, some, List, if◌then◌else◌}
use ksdns.Prelude.Go.{Error, Result, ok, err}

-- What viper knows of a key: nothing, or a value of some Go type.
pub data Value : Type 0 where
  absent : Value
  bool : Bool → Value
  text : String → Value
  other : Value

pub record Options : Type 0 where
  pub leader_election : Bool
  pub leader_election_id : String
  pub leader_election_namespace : String
  pub cache_namespaces : List String
  pub metrics_bind_address : String
  pub port : ℕ
  pub health_probe_bind_address : String

pub record ControllerRuntime : Type 1 where
  pub Manager : Type 0
  pub new_manager : Options → Result Manager
  -- `SetupWithManager`: the controller of the `Zone` objects is built
  pub complete : Manager → Result Manager
  pub add_healthz_check : Manager → String → Result Manager
  pub add_readyz_check : Manager → String → Result Manager
  -- whether the channel of `Elected` is closed
  pub elected : Manager → Bool

-- A manager, an error, or the panic of a type assertion.
pub data Made (A : Type 0) : Type 0 where
  made : A → Made A
  failed : Error → Made A
  panicked : Made A

-- `election.(bool)` and `electionNamespace.(string)`, after the tests for nil.
unfoldable pub election_of : Value → Option Bool
election_of absent = some false
election_of (bool b) = some b
election_of _ = none

unfoldable pub namespace_of : Value → Option String
namespace_of absent = some ""
namespace_of (text s) = some s
namespace_of _ = none

abbrev pub election_key : String
election_key = "enable-leader-election"

abbrev pub namespace_key : String
namespace_key = "leader-election-namespace"

abbrev pub options_of : Bool → String → List String → Options
options_of election namespace namespaces = record {
  leader_election = election;
  leader_election_id = "3deb8c7a.ksdns.io";
  leader_election_namespace = namespace;
  cache_namespaces = namespaces;
  metrics_bind_address = "0";
  port = 0;
  health_probe_bind_address = "0";
}

abbrev pub then_make : {A B : Type 0} → Result A → (A → Made B) → Made B
then_make (ok a) f = f a
then_make (err e) f = failed e

module _ (r : ControllerRuntime) where
  open r use {Manager, elected}

  unfoldable pub make_manager : Options → Made Manager
  make_manager options = then_make (r.new_manager options) λ m. then_make (r.complete m) λ m1.
      then_make (r.add_healthz_check m1 "healthz")
        λ m2. then_make (r.add_readyz_check m2 "readyz") λ m3. made m3

  unfoldable pub new_manager : (String → Value) → List String → Made Manager
  new_manager viper namespaces = elim (election_of (viper election_key)) [
    | none ↦ panicked
    | some election ↦ elim (namespace_of (viper namespace_key)) [
      | none ↦ panicked
      | some namespace ↦ make_manager (options_of election namespace namespaces)
    ]
  ]

  -- The `default` case of the `select` answers at once, so the loop has one round.
  unfoldable pub ready : Manager → Bool
  ready m = if elected m then true else false
