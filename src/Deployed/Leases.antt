-- ===== src/Deployed/Leases.antt =====
-- Which of the zupd processes of a namespace are ready: `Ready` (ready.go) answers for the elected
-- one alone, and all of them ask for one lease (manager.go).
use ksdns.Prelude.{String, ◌≡◌, List, In}
use ksdns.Prelude.Go.{ok}
use ksdns.Operator.Objects.{Container, Ksdns}
use ksdns.Operator.Resources.{zupd_deployment_spec}
use ksdns.Zupd.Manager.{Value, Options, ControllerRuntime, made, new_manager}
use ksdns.Command.{Host, Exit}
use ksdns.Command.Build.{BuildInfo}
use ksdns.Command.Config.{Cobra, CobraLaws, Viper, FlagsFirst, ran, execute}

-- The zupd processes of a cluster, each with its controller-runtime and its manager. Documented
-- behaviour: a manager keeps the options that it was made with.
pub record Leases : Type 1 where
  pub Running : Type 0
  pub runtime : Running → ControllerRuntime
  pub manager : (p : Running) → (runtime p).Manager
  pub options : (p : Running) → (runtime p).Manager → Options
  pub new_keeps :
      (p : Running) (o : Options) (m : (runtime p).Manager)
      → (runtime p).new_manager o ≡ ok m
      → options p m ≡ o
  pub complete_keeps :
      (p : Running) (m m' : (runtime p).Manager)
      → (runtime p).complete m ≡ ok m'
      → options p m' ≡ options p m
  pub healthz_keeps :
      (p : Running) (m m' : (runtime p).Manager) (name : String)
      → (runtime p).add_healthz_check m name ≡ ok m'
      → options p m' ≡ options p m
  pub readyz_keeps :
      (p : Running) (m m' : (runtime p).Manager) (name : String)
      → (runtime p).add_readyz_check m name ≡ ok m'
      → options p m' ≡ options p m

-- A process that the container of a Ksdns object's zupd has become: the command line has been read,
-- and `NewManager` has made the manager.
module _ (leases : Leases) (cobra : Cobra) (laws : CobraLaws cobra) (viper : Viper)
    (first : FlagsFirst viper) where
  pub record Runs (owner : Ksdns) (p : leases.Running) : Type 1 where
    pub container : Container
    pub host : Host
    pub build : BuildInfo
    pub home : String
    pub exit : Exit host.Instance
    pub values : String → Value
    pub namespaces : List String
    pub is_container : In container (zupd_deployment_spec owner).containers
    pub executed : execute cobra viper host build (ok home) container.args ≡ ran exit values
    pub managed : new_manager (leases.runtime p) values namespaces ≡ made (leases.manager p)
