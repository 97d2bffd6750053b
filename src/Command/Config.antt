-- ===== src/Command/Config.antt =====
-- The root command (cmd/zupd/cmd/root.go): `Execute` and `initConfig`. cobra and viper are records
-- of operations and laws.
use ksdns.Prelude.{
  ℕ, String, ◌≡◌, Bool, true, Option, none, some, List, [], ◌∷◌, In, str_eq, if◌then◌else◌,
}
use Prim.Native.String.{◌++◌ as str_append}
use ksdns.Prelude.Go.{Error, Result, ok, err}
use ksdns.Prelude.Maps.{Map, set, empty}
use ksdns.Zupd.Manager.{Value, bool, text}
use ksdns.Command.{Flag, run_flags, bound_flags, variables_of, Host, Exit, run}
use ksdns.Command.Build.{BuildInfo}

-- What cobra makes of a command line: the flags that it sets for the subcommand, a text that is
-- printed (the help), or an error.
pub data Invoked : Type 0 where
  invoked : Map Value → Invoked
  described : String → Invoked
  refused : Error → Invoked

pub record Cobra : Type 1 where
  -- a root command with one subcommand, of the name and with the flags
  pub execute : String → List Flag → List String → Invoked
  -- the flags of a subcommand, on top of those that are set
  pub parse : List Flag → List String → Map Value → Invoked

-- The flag that an argument names.
abbrev pub flag_of : List Flag → String → Option Flag
flag_of [] arg = none
flag_of (f ∷ flags) arg = if str_eq (str_append "--" f.name) arg then some f else flag_of flags arg

-- Documented behaviour of cobra: the first argument names the subcommand; the flags are read from
-- the left; a text flag takes the argument behind it, and a Boolean flag takes none.
pub record CobraLaws (cobra : Cobra) : Type 0 where
  pub execute_named :
      (name : String) (flags : List Flag) (args : List String)
      → cobra.execute name flags (name ∷ args) ≡ cobra.parse flags args empty
  pub parse_done : (flags : List Flag) (m : Map Value) → cobra.parse flags [] m ≡ invoked m
  pub parse_text :
      (flags : List Flag) (arg name d v : String) (args : List String) (m : Map Value)
      → flag_of flags arg ≡ some (record { name = name; default = text d })
      → cobra.parse flags (arg ∷ v ∷ args) m ≡ cobra.parse flags args (set name (text v) m)
  pub parse_bool :
      (flags : List Flag) (arg name : String) (d : Bool) (args : List String) (m : Map Value)
      → flag_of flags arg ≡ some (record { name = name; default = bool d })
      → cobra.parse flags (arg ∷ args) m ≡ cobra.parse flags args (set name (bool true) m)

pub record Viper : Type 1 where
  pub State : Type 0
  pub new : State
  pub set_config_file : String → State → State
  pub add_config_path : String → State → State
  pub set_config_type : String → State → State
  pub set_config_name : String → State → State
  pub automatic_env : State → State
  pub read_in_config : State → State × Option Error
  pub config_file_used : State → String
  -- `Get`, with the flags that viper is bound to, all that are declared, and those that are set
  pub get : State → List String → List Flag → Map Value → String → Value

-- Documented behaviour of viper: a bound flag that the command line sets goes before the
-- environment and the configuration file.
abbrev pub FlagsFirst : Viper → Type 0
FlagsFirst viper =
    (s : viper.State) (bound : List String) (flags : List Flag) (changed : Map Value)
    (name : String) (v : Value)
    → In name bound
    → changed name ≡ some v
    → viper.get s bound flags changed name ≡ v

module _ (viper : Viper) where
  open viper use {State}

  abbrev report : State × Option Error → State × List String
  report (s, none) = (s, "Using config file:" ∷ viper.config_file_used s ∷ [])
  report (s, some e) = (s, [])

  -- The configuration that is read, with what is printed; an error where there is no home
  -- directory, at which `CheckErr` ends the process.
  unfoldable pub init_config : String → Result String → State → Result (State × List String)
  init_config cfg_file home s =
      if str_eq cfg_file ""
      then elim home [
        | err e ↦ err e
        | ok path ↦ ok (
            report (
              viper.read_in_config (
                viper.automatic_env (
                  viper.set_config_name ".ksdns"
                    (viper.set_config_type "yaml" (viper.add_config_path path s))))))
      ]
      else ok
          (report (viper.read_in_config (viper.automatic_env (viper.set_config_file cfg_file s))))

-- How the process goes on: it ends with a code, or `Run` has been reached, with viper's values.
pub data Process (Instance : Type 0) : Type 0 where
  ended : ℕ → Process Instance
  ran : Exit Instance → (String → Value) → Process Instance

module _ (cobra : Cobra) (viper : Viper) (h : Host) where
  abbrev pub initialized :
      BuildInfo → Map Value → Result (viper.State × List String) → Process h.Instance
  initialized build changed (err e) = ended 1
  initialized build changed (ok (s, printed)) =
      ran (run h build (variables_of changed)) (viper.get s bound_flags run_flags changed)

  abbrev pub run_command : BuildInfo → Result String → Invoked → Process h.Instance
  run_command build home (invoked changed) =
      initialized build changed (init_config viper (variables_of changed).cfg_file home viper.new)
  run_command build home (described t) = ended 0
  run_command build home (refused e) = ended 1

  -- `Execute`, with the arguments behind the program's name.
  unfoldable pub execute : BuildInfo → Result String → List String → Process h.Instance
  execute build home args = run_command build home (cobra.execute "run" run_flags args)
