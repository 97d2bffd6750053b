-- ===== src/Command/Settings.antt =====
-- What the two `init` functions of cmd/zupd/cmd (run.go, root.go) set in caddy, CoreDNS and cobra
-- before the command line is read.
use ksdns.Prelude.{String, Bool, true, false, List, [], ◌∷◌, ◌++◌}
use ksdns.Zupd.Manager.{bool, text}
use ksdns.Command.{
  Flag, Host, Loader, conf_loader, default_loader, default_config_file, core_version,
}
use ksdns.Command.Directives.{directives}

abbrev core_name : String
core_name = "CoreDNS"

-- The persistent flag, which the subcommands have too, and the root command's own.
abbrev persistent_flags : List Flag
persistent_flags = record { name = "config"; default = text "" } ∷ []

abbrev root_flags : List Flag
root_flags = persistent_flags ++ record { name = "toggle"; default = bool false } ∷ []

pub record Settings : Type 0 where
  -- caddy's
  pub corefile_name : String
  pub quiet : Bool
  pub app_name : String
  pub app_version : String
  -- the loaders, which know the value of `--conf`
  pub registered_loader : String × (String → Loader)
  pub fallback_loader : String × Loader
  -- CoreDNS's
  pub plugin_order : List String

unfoldable initial_settings : Host → Settings
initial_settings h = record {
  corefile_name = default_config_file;
  quiet = true;
  app_name = core_name;
  app_version = core_version;
  registered_loader = ("flag", conf_loader h);
  fallback_loader = ("default", default_loader h);
  plugin_order = directives;
}
