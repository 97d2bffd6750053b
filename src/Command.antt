-- ===== src/Command.antt =====
-- `zupd run` (cmd/zupd/cmd/run.go): its flags, the loaders of the Corefile, and `Run`. The
-- operating system and caddy are a record.
pub mod Build
pub mod Directives
pub mod Settings
pub mod Config
pub mod Loading
use ksdns.Prelude.{
  String, ◌≡◌, Bool, true, false, Option, none, some, List, [], ◌∷◌, ◌++◌, str_eq, if◌then◌else◌,
}
use ksdns.Prelude.Go.{Error, Result, ok, err}
use ksdns.Prelude.Maps.{Map}
use ksdns.Zupd.Manager.{Value, bool, text, absent, election_key, namespace_key}
use ksdns.Command.Build.{BuildInfo, show_version}

-- A flag that is declared, with its default, which has its type.
pub record Flag : Type 0 where
  pub name : String
  pub default : Value

-- `init`, in the order of the declarations, and the flag that the root command hands down.
unfoldable pub run_flags : List Flag
run_flags =
    record { name = "conf"; default = text "" }
    ∷ record { name = "plugins"; default = bool false }
    ∷ record { name = "pidfile"; default = text "" }
    ∷ record { name = "version"; default = bool false }
    ∷ record { name = "quiet"; default = bool true }
    ∷ record { name = election_key; default = bool false }
    ∷ record { name = namespace_key; default = text "default" }
    ∷ record { name = "config"; default = text "" }
    ∷ []

-- The flags that viper is bound to.
abbrev pub bound_flags : List String
bound_flags = election_key ∷ namespace_key ∷ []

-- What a flag's variable holds, `changed` being what the command line sets.
unfoldable pub value_of : List Flag → Map Value → String → Value
value_of [] changed name = absent
value_of (f ∷ flags) changed name = elim (str_eq f.name name) [
  | false ↦ value_of flags changed name
  | true ↦ elim (changed name) [ none ↦ f.default | some v ↦ v ]
]

abbrev as_text : Value → String
as_text (text s) = s
as_text _ = ""

abbrev as_bool : Value → Bool
as_bool (bool b) = b
as_bool _ = false

-- The package's variables.
pub record Variables : Type 0 where
  pub conf : String
  pub version : Bool
  pub plugins : Bool
  pub quiet : Bool
  pub cfg_file : String

unfoldable pub variables_of : Map Value → Variables
variables_of changed = record {
  conf = as_text (value_of run_flags changed "conf");
  version = as_bool (value_of run_flags changed "version");
  plugins = as_bool (value_of run_flags changed "plugins");
  quiet = as_bool (value_of run_flags changed "quiet");
  cfg_file = as_text (value_of run_flags changed "config");
}

-- `caddy.CaddyfileInput`
pub record Input : Type 0 where
  pub contents : String
  pub filepath : String
  pub server_type_name : String

abbrev pub Loader : Type 0
Loader = String → Result (Option Input)

-- What the code takes from the operating system and from caddy.
pub record Host : Type 1 where
  pub read_file : String → Result String
  pub is_not_exist : Error → Bool
  pub clean : String → String
  pub caddyfile_from_pipe : Loader
  -- the loader registered under a name, and the default one
  pub load_caddyfile : Loader → Loader → String → Result Input
  pub Instance : Type 0
  pub start : Input → Result Instance
  pub describe_plugins : String
  pub is_upgrade : Bool

-- Documented behaviour of caddy, for a program with one registered loader, in a process that is not
-- started for an upgrade: what that loader finds is loaded, and where it fails, so does the load.
pub record LoaderLaws (h : Host) : Type 0 where
  pub no_upgrade : h.is_upgrade ≡ false
  pub flag_loads :
      (flag default : Loader) (kind : String) (i : Input)
      → flag kind ≡ ok (some i)
      → h.load_caddyfile flag default kind ≡ ok i
  pub flag_fails :
      (flag default : Loader) (kind : String) (e : Error)
      → flag kind ≡ err e
      → (wrapped : Error) × (h.load_caddyfile flag default kind ≡ err wrapped)

-- How the process ends, or the instance that it waits for, and what it has printed.
pub data Exit (Instance : Type 0) : Type 0 where
  exited : List String → Exit Instance
  fatal : (to_stderr : Bool) → Error → Exit Instance
  waiting : Instance → List String → Exit Instance

abbrev pub core_version : String
core_version = "1.10.0"

abbrev pub default_config_file : String
default_config_file = "Corefile"

abbrev pub server_type : String
server_type = "dns"

module _ (h : Host) where
  open h use {Instance}

  abbrev input_from :
      String → String → Result String → (Error → Result (Option Input)) → Result (Option Input)
  input_from path kind (ok contents) failed =
      ok (some (record { contents = contents; filepath = path; server_type_name = kind }))
  input_from path kind (err e) failed = failed e

  unfoldable pub conf_loader : String → Loader
  conf_loader conf kind =
      if str_eq conf ""
      then ok none
      else if str_eq conf "stdin"
      then h.caddyfile_from_pipe kind
      else input_from conf kind (h.read_file (h.clean conf)) λ e. err e

  unfoldable pub default_loader : Loader
  default_loader kind =
      input_from default_config_file kind (h.read_file default_config_file)
        λ e. if h.is_not_exist e then ok none else err e

  unfoldable pub must_log_fatal : Error → Exit Instance
  must_log_fatal e = fatal (if h.is_upgrade then false else true) e

  abbrev pub wait_for : BuildInfo → Bool → Result Instance → Exit Instance
  wait_for build quiet (err e) = must_log_fatal e
  wait_for build quiet (ok instance) =
      waiting instance (if quiet then [] else show_version build core_version)

  abbrev start_from : BuildInfo → Bool → Result Input → Exit Instance
  start_from build quiet (err e) = must_log_fatal e
  start_from build quiet (ok corefile) = wait_for build quiet (h.start corefile)

  unfoldable pub run : BuildInfo → Variables → Exit Instance
  run build v =
      if v.version
      then exited (show_version build core_version)
      else if v.plugins
      then exited (h.describe_plugins ∷ [])
      else start_from build v.quiet
          (h.load_caddyfile (conf_loader v.conf) default_loader server_type)
