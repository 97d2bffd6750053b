-- ===== src/Deployed/Launch.antt =====
-- How the container that the operator runs zupd in (`zupdDeployment`, controllers/dns/zupd.go)
-- starts `zupd run` (cmd/zupd): the command line, the mounted Corefile and the manager's options.
use Prim.Native.String.{◌++◌ as str_append}
use ksdns.Prelude.{
  String, ◌≡◌, inl, inr, refl, ap, ◌∙◌, true, false, some, List, [], ◌∷◌, ◌++◌, In, str_eq, eq_refl,
  if◌then◌else◌,
}
use ksdns.Prelude.Go.{ok}
use ksdns.Prelude.Maps.{Map, set, empty}
use ksdns.Operator.Objects.{
  Labels, Container, VolumeMount, Volume, VolumeSource, config_map_source, secret_source,
  DeploymentSpec, Object, Ksdns, config_map, secret,
}
use ksdns.Operator.Labels.{zupd_name}
use ksdns.Operator.Resources.{zupd_deployment_spec}
use ksdns.Operator.Ensure.{field}
use ksdns.Zupd.Manager.{
  Value, bool, text, ControllerRuntime, election_key, namespace_key, options_of, make_manager,
  new_manager, election_of, namespace_of,
}
use ksdns.Command.{
  Input, Host, LoaderLaws, Variables, waiting, run_flags, server_type, value_of, variables_of, run,
  bound_flags, wait_for,
}
use ksdns.Command.Loading.{run_reads_conf}
use ksdns.Command.Build.{BuildInfo}
use ksdns.Command.Config.{
  Cobra, CobraLaws, Viper, FlagsFirst, ran, execute, invoked, init_config, run_command, initialized,
}

-- The files of a mounted map: one for each key, below the path of the mount.
abbrev below : String → Labels → Labels
below path [] = []
below path ((key, v) ∷ entries) = (str_append path (str_append "/" key), v) ∷ below path entries

-- What a volume takes from an object.
abbrev taken : VolumeSource → Object → Labels
taken (config_map_source n) o = elim o.body [
  | config_map entries binary ↦ if str_eq o.name n then entries else []
  | _ ↦ []
]
taken (secret_source n) o = elim o.body [
  | secret string_data entries ↦ if str_eq o.name n then entries else []
  | _ ↦ []
]

abbrev volume_files : String → VolumeSource → List Object → Labels
volume_files path source [] = []
volume_files path source (o ∷ objects) =
    below path (taken source o) ++ volume_files path source objects

abbrev mounted : VolumeMount → List Volume → List Object → Labels
mounted m [] objects = []
mounted m (v ∷ volumes) objects =
    let rest = mounted m volumes objects in
    if str_eq v.name m.name then volume_files m.mount_path v.source objects else rest

abbrev container_files : List VolumeMount → List Volume → List Object → Labels
container_files [] volumes objects = []
container_files (m ∷ mounts) volumes objects =
    mounted m volumes objects ++ container_files mounts volumes objects

-- Documented behaviour of the kubelet: a container of a deployment reads the files of its mounts.
abbrev pub Mounts : Host → DeploymentSpec → Container → List Object → Type 0
Mounts h spec container objects =
    (path contents : String)
    → field path (container_files container.volume_mounts spec.volumes objects) ≡ some contents
    → h.read_file path ≡ ok contents

abbrev pub corefile_path : String
corefile_path = "/etc/coredns/config/Corefile"

-- The flags that the command line sets.
abbrev pub given : Ksdns → Map Value
given owner =
    set namespace_key (text owner.namespace)
      (set election_key (bool true) (set "conf" (text corefile_path) empty))

abbrev pub given_record : Variables
given_record = record {
  conf = corefile_path;
  version = false;
  plugins = false;
  quiet = true;
  cfg_file = "";
}

pub given_variables : (owner : Ksdns) → variables_of (given owner) ≡ given_record
unfolding variables_of value_of run_flags
given_variables owner = refl

module _ (cobra : Cobra) (laws : CobraLaws cobra) (owner : Ksdns) where
  -- The container's arguments set the three flags.
  pub args_parse :
      (container : Container)
      → In container (zupd_deployment_spec owner).containers
      → cobra.execute "run" run_flags container.args ≡ invoked (given owner)
  unfolding zupd_deployment_spec run_flags
  args_parse container (inl e) =
      ap (λ c. cobra.execute "run" run_flags c.args) e
      ∙ laws.execute_named "run" run_flags _
      ∙ laws.parse_text run_flags "--conf" "conf" "" corefile_path _ empty refl
      ∙ laws.parse_bool run_flags "--enable-leader-election" election_key false _ _ refl
      ∙ laws.parse_text run_flags "--leader-election-namespace" namespace_key "default"
          owner.namespace [] _ refl
      ∙ laws.parse_done run_flags (given owner)
  args_parse container (inr e) = absurd e

pub init_config_default :
    (viper : Viper) (home : String)
    → (s : viper.State) × (printed : List String) × (init_config viper "" (ok home) viper.new
        ≡ ok (s, printed))
unfolding init_config
init_config_default viper home = (_, _, refl)

-- The command line is read, viper has its state `s`, and `Run` is reached with the three flags set.
pub execute_runs :
    (cobra : Cobra) (laws : CobraLaws cobra) (viper : Viper) (h : Host) (build : BuildInfo)
    (home : String) (owner : Ksdns) (container : Container)
    → In container (zupd_deployment_spec owner).containers
    → (s : viper.State) × (execute cobra viper h build (ok home) container.args
        ≡ ran
            (run h build (variables_of (given owner)))
            (viper.get s bound_flags run_flags (given owner)))
unfolding execute
execute_runs cobra laws viper h build home owner container is_container =
    let (s, printed, configured) = init_config_default viper home in
    (
      s,
      ap (run_command cobra viper h build (ok home))
            (args_parse cobra laws owner container is_container)
          ∙ ap
              (λ v.
                initialized cobra viper h build (given owner)
                  (init_config viper v.cfg_file (ok home) viper.new))
              (given_variables owner)
          ∙ ap (initialized cobra viper h build (given owner)) configured,
    )

-- With viper's values of the two flags, the manager has leader election in the namespace.
pub new_manager_given :
    (r : ControllerRuntime) (values : String → Value) (namespace : String)
    (namespaces : List String)
    → values election_key ≡ bool true
    → values namespace_key ≡ text namespace
    → new_manager r values namespaces ≡ make_manager r (options_of true namespace namespaces)
unfolding new_manager election_of namespace_of
new_manager_given r values namespace namespaces e n = rw (e, new_manager) (rw (n, new_manager) refl)

module _ (owner : Ksdns) (o : Object) (corefile : String) (named : o.name ≡ zupd_name owner)
    (holds : o.body ≡ config_map (("Corefile", corefile) ∷ []) []) where
  corefile_is_taken : taken (config_map_source (zupd_name owner)) o ≡ ("Corefile", corefile) ∷ []
  corefile_is_taken = rw (holds, named, eq_refl (zupd_name owner)) refl

  -- The object's text is the file that the command line names.
  corefile_mounted :
      (container : Container)
      → In container (zupd_deployment_spec owner).containers
      → field corefile_path
          (container_files container.volume_mounts (zupd_deployment_spec owner).volumes (o ∷ []))
        ≡ some corefile
  unfolding zupd_deployment_spec
  corefile_mounted container (inl e) =
      ap
        (λ c.
          field corefile_path
            (container_files c.volume_mounts (zupd_deployment_spec owner).volumes (o ∷ [])))
        e
      ∙ rw corefile_is_taken refl
  corefile_mounted container (inr e) = absurd e

  module _ (cobra : Cobra) (laws : CobraLaws cobra) (viper : Viper) (first : FlagsFirst viper)
      (h : Host) (loader_laws : LoaderLaws h) (clean_path : h.clean corefile_path ≡ corefile_path)
      (container : Container) (is_container : In container (zupd_deployment_spec owner).containers)
      (mounts : Mounts h (zupd_deployment_spec owner) container (o ∷ []))
      (r : ControllerRuntime) where
    abbrev input : Input
    input = record { contents = corefile; filepath = corefile_path; server_type_name = server_type }

    corefile_starts :
        (build : BuildInfo) (instance : h.Instance)
        → h.start input ≡ ok instance
        → run h build (variables_of (given owner)) ≡ waiting instance []
    corefile_starts build instance started =
        ap (run h build) (given_variables owner)
        ∙ (run_reads_conf h loader_laws build given_record refl refl refl refl).1 corefile (
            ap h.read_file clean_path
            ∙ mounts corefile_path corefile (corefile_mounted container is_container))
        ∙ ap (wait_for h build true) started

    -- The container that the operator runs zupd in, with the config map of zupd's name mounted:
    -- where caddy starts on the map's Corefile, the process runs that instance, and a manager that
    -- is made with its settings has leader election in the namespace of the Ksdns object.
    pub deployed_zupd_runs :
        (build : BuildInfo) (home : String) (instance : h.Instance) (namespaces : List String)
        → h.start input ≡ ok instance
        → (values : String → Value) × (execute cobra viper h build (ok home) container.args
            ≡ ran (waiting instance []) values)
          × (new_manager r values namespaces
              ≡ make_manager r (options_of true owner.namespace namespaces))
    deployed_zupd_runs build home instance namespaces started =
        let (s, executed) =
          execute_runs cobra laws viper h build home owner container is_container in
        let values : String → Value = viper.get s bound_flags run_flags (given owner) in
        (
          values,
          executed ∙ ap (λ e. ran e values) (corefile_starts build instance started),
          new_manager_given r values owner.namespace namespaces
              (first s bound_flags run_flags (given owner) election_key (bool true) (inl refl) refl)
              (first s bound_flags run_flags (given owner) namespace_key (text owner.namespace)
                (inr (inl refl)) refl),
        )
