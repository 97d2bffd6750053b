-- ===== src/Operator/Main.antt =====
-- The operator's `main` (main.go). controller-runtime is a record; the flags come parsed.
use ksdns.Prelude.{ℕ, String, Bool, true, false, Option, none, some, List, [], ◌∷◌}
use ksdns.Prelude.Go.{Error, Result, ok, err}

-- The variables of the flags, and their defaults.
pub record Flags : Type 0 where
  pub metrics_addr : String
  pub probe_addr : String
  pub enable_leader_election : Bool

abbrev default_flags : Flags
default_flags = record {
  metrics_addr = ":8080";
  probe_addr = ":8081";
  enable_leader_election = false;
}

pub record ManagerOptions : Type 0 where
  pub metrics_bind_address : String
  pub port : ℕ
  pub health_probe_bind_address : String
  pub leader_election : Bool
  pub leader_election_id : String

unfoldable pub options_of : Flags → ManagerOptions
options_of flags = record {
  metrics_bind_address = flags.metrics_addr;
  port = 9443;
  health_probe_bind_address = flags.probe_addr;
  leader_election = flags.enable_leader_election;
  leader_election_id = "3deb8c7a.ksdns.io";
}

pub record Controllers : Type 1 where
  pub Manager : Type 0
  -- `GetConfigOrDie`, and the manager made with the configuration
  pub has_config : Bool
  pub new_manager : ManagerOptions → Result Manager
  -- `SetupWithManager` of the Ksdns controller, with the kinds of object that it owns
  pub complete : Manager → String → List String → Result Manager
  pub add_healthz_check : Manager → String → Result Manager
  pub add_readyz_check : Manager → String → Result Manager
  -- how the manager's run ends
  pub start : Manager → Option Error

-- The exit code, and the line that is logged last.
pub data Exit : Type 0 where
  finished : Exit
  no_config : Exit
  exit_1 : String → Error → Exit

module _ (k : Controllers) where
  open k use {Manager}

  abbrev or_exit : {A : Type 0} → String → Result A → (A → Exit) → Exit
  or_exit line (ok a) f = f a
  or_exit line (err e) f = exit_1 line e

  abbrev ended : Option Error → Exit
  ended none = finished
  ended (some e) = exit_1 "problem running manager" e

  -- `SetupWithManager` (controllers/dns/controller.go)
  unfoldable setup_with_manager : Manager → Result Manager
  setup_with_manager m =
      k.complete m "Ksdns" ("Zone" ∷ "Deployment" ∷ "Secret" ∷ "ConfigMap" ∷ "Service" ∷ [])

  unfoldable main : Flags → Exit
  main flags = elim k.has_config [
    | false ↦ no_config
    | true ↦ or_exit "unable to start manager" (k.new_manager (options_of flags)) λ m.
        or_exit "unable to create controller" (setup_with_manager m) λ m1.
          or_exit "unable to set up health check" (k.add_healthz_check m1 "healthz") λ m2.
            or_exit "unable to set up ready check" (k.add_readyz_check m2 "readyz")
              λ m3. ended (k.start m3)
  ]
