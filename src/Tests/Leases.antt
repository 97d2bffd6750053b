-- ===== src/Tests/Leases.antt =====
-- Two replicas of one zupd deployment, of which the first is elected.
use ksdns.Prelude.{String, sym, Bool, true, [], ◌∷◌}
use ksdns.Prelude.Go.{ok, ok-injective}
use ksdns.Zupd.Manager.{Value, Options, ControllerRuntime, options_of, new_manager}
use ksdns.Command.{run_flags, bound_flags}
use ksdns.Deployed.Launch.{given, execute_runs}
use ksdns.Deployed.Leases.{Leases}
use ksdns.Tests.Operator.{owner}
use ksdns.Tests.Command.{host, build, cobra, cobra-CobraLaws, viper}
use ksdns.Tests.Deployed.{container, is_container}

abbrev replica : Bool → ControllerRuntime
replica first = record {
  Manager = Options;
  new_manager = λ o. ok o;
  complete = λ m. ok m;
  add_healthz_check = λ m n. ok m;
  add_readyz_check = λ m n. ok m;
  elected = λ m. first;
}

abbrev replicas : Leases
replicas = record {
  Running = Bool;
  runtime = replica;
  manager = λ p. options_of true "ns" ("ns" ∷ []);
  options = λ p m. m;
  new_keeps = λ p o m h. sym (ok-injective h);
  complete_keeps = λ p m m' h. sym (ok-injective h);
  healthz_keeps = λ p m m' n h. sym (ok-injective h);
  readyz_keeps = λ p m m' n h. sym (ok-injective h);
}

abbrev values : String → Value
values =
    viper.get
      (execute_runs cobra cobra-CobraLaws viper host build "/root" owner container is_container).0
      bound_flags run_flags (given owner)
