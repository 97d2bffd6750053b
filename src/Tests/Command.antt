-- ===== src/Tests/Command.antt =====
-- The theorem on the Corefile that `zupd run` reads, at a system with one file; a cobra and a viper.
use ksdns.Prelude.{
  String, ◌≡◌, refl, ap, true, false, Option, none, some, List, [], ◌∷◌, str_eq, eq_refl,
  if◌then◌else◌,
}
use ksdns.Prelude.Go.{Error, message, not_found, is_not_found, Result, ok, err}
use ksdns.Prelude.Maps.{Map, set, empty}
use ksdns.Zupd.Manager.{Value, absent, bool, text}
use ksdns.Command.{Flag, Input, Host, LoaderLaws, Variables}
use ksdns.Command.Build.{BuildInfo}
use ksdns.Command.Config.{
  Invoked, invoked, described, refused, Cobra, CobraLaws, flag_of, Viper, FlagsFirst,
}

abbrev load : Result (Option Input) → Result (Option Input) → Result Input
load (err e) default = err e
load (ok (some i)) default = ok i
load (ok none) (ok (some i)) = ok i
load (ok none) (ok none) = ok (record { contents = ""; filepath = ""; server_type_name = "dns" })
load (ok none) (err e) = err e

abbrev pub host : Host
host = record {
  read_file = λ p. if str_eq "/etc/coredns/config/Corefile" p then ok "a." else err not_found;
  is_not_exist = is_not_found;
  clean = λ p. p;
  caddyfile_from_pipe = λ kind. ok none;
  load_caddyfile = λ flag default kind. load (flag kind) (default kind);
  Instance = String;
  start = λ i. ok i.contents;
  describe_plugins = "dynamicupdate";
  is_upgrade = false;
}

load_error :
    (flag : Result (Option Input)) (default : Result (Option Input)) (e : Error)
    → flag ≡ err e
    → load flag default ≡ err e
load_error flag default e h = rw h refl

load_input :
    (flag : Result (Option Input)) (default : Result (Option Input)) (i : Input)
    → flag ≡ ok (some i)
    → load flag default ≡ ok i
load_input flag default i h = rw h refl

pub host-LoaderLaws : LoaderLaws host
host-LoaderLaws = record {
  flag_loads = λ flag default kind i h. load_input (flag kind) (default kind) i h;
  no_upgrade = refl;
  flag_fails = λ flag default kind e h. (e, load_error (flag kind) (default kind) e h);
}

abbrev pub build : BuildInfo
build = record {
  build_date = "";
  git_tag = "";
  git_nearest_tag = "";
  git_short_stat = "";
  git_files_modified = "";
  git_commit = "a6d2d7b5";
  goos = "linux";
  goarch = "amd64";
  go_version = "go1.19";
}

abbrev variables : Variables
variables = record {
  conf = "/etc/coredns/config/Corefile";
  version = false;
  plugins = false;
  quiet = true;
  cfg_file = "";
}

abbrev by_type : Value → Invoked → Invoked → Invoked
by_type (text d) with_text with_bool = with_text
by_type _ with_text with_bool = with_bool

abbrev by_flag : Option Flag → (String → Invoked) → (String → Invoked) → Invoked
by_flag none with_text with_bool = refused (message "unknown flag")
by_flag (some f) with_text with_bool = by_type f.default (with_text f.name) (with_bool f.name)

-- The option is the flag whose value is still to come.
abbrev step : List Flag → Option String → List String → Map Value → Invoked
step flags none [] m = invoked m
step flags (some n) [] m = refused (message "flag needs an argument")
step flags (some n) (v ∷ args) m = step flags none args (set n (text v) m)
step flags none (arg ∷ args) m =
    by_flag (flag_of flags arg) (λ n. step flags (some n) args m)
      (λ n. step flags none args (set n (bool true) m))

abbrev dispatch : String → List Flag → List String → Invoked
dispatch name flags [] = described "zupd"
dispatch name flags (a ∷ args) =
    if str_eq a name then step flags none args empty else refused (message "unknown command")

abbrev pub cobra : Cobra
cobra = record { execute = dispatch; parse = λ flags args m. step flags none args m }

pub cobra-CobraLaws : CobraLaws cobra
cobra-CobraLaws = record {
  execute_named = λ name flags args. rw (eq_refl name) refl;
  parse_done = λ flags m. refl;
  parse_text = λ flags arg name d v args m h.
      ap
        (λ o.
          by_flag o (λ n. step flags (some n) (v ∷ args) m)
            (λ n. step flags none (v ∷ args) (set n (bool true) m)))
        h;
  parse_bool = λ flags arg name d args m h.
      ap
        (λ o.
          by_flag o (λ n. step flags (some n) args m)
            (λ n. step flags none args (set n (bool true) m)))
        h;
}

abbrev value_or_absent : Option Value → Value
value_or_absent none = absent
value_or_absent (some v) = v

abbrev pub viper : Viper
viper = record {
  State = Unit {0};
  new = tt;
  set_config_file = λ f s. s;
  add_config_path = λ p s. s;
  set_config_type = λ t s. s;
  set_config_name = λ n s. s;
  automatic_env = λ s. s;
  read_in_config = λ s. (s, some not_found);
  config_file_used = λ s. "";
  get = λ s bound flags changed name. value_or_absent (changed name);
}

pub viper-FlagsFirst : FlagsFirst viper
viper-FlagsFirst s bound flags changed name v i h = rw h refl
