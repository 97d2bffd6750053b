-- ===== src/Command/Loading.antt =====
-- What `Run` does with the file that `--conf` names (cmd/zupd/cmd/run.go).
use ksdns.Prelude.{String, ◌≡◌, refl, false, some, str_eq}
use ksdns.Prelude.Go.{Error, ok, err}
use ksdns.Command.{
  Host, Input, LoaderLaws, Variables, conf_loader, default_loader, server_type, wait_for,
  must_log_fatal, run,
}
use ksdns.Command.Build.{BuildInfo}

module _ (h : Host) where
  abbrev pub input_of : String → String → Input
  input_of conf contents = record {
    contents = contents;
    filepath = conf;
    server_type_name = server_type;
  }

  module _ (conf : String) (named : str_eq conf "" ≡ false)
      (no_pipe : str_eq conf "stdin" ≡ false) where
    conf_loader_error :
        (e : Error) → h.read_file (h.clean conf) ≡ err e → conf_loader h conf server_type ≡ err e
    unfolding conf_loader
    conf_loader_error e read = rw (named, no_pipe, read) refl

    conf_loader_contents :
        (contents : String)
        → h.read_file (h.clean conf) ≡ ok contents
        → conf_loader h conf server_type ≡ ok (some (input_of conf contents))
    unfolding conf_loader
    conf_loader_contents contents read = rw (named, no_pipe, read) refl

  -- With a file named by `--conf`, and no `--version` or `--plugins`, in a process that is no upgrade:
  -- a file that cannot be read ends the process with an error, and no other Corefile is tried; of a file that can be read, exactly
  -- the contents are started as a DNS server, and an instance that does not start ends the process.
  pub run_reads_conf :
      (laws : LoaderLaws h) (build : BuildInfo) (v : Variables)
      → v.version ≡ false
      → v.plugins ≡ false
      → str_eq v.conf "" ≡ false
      → str_eq v.conf "stdin" ≡ false
      → ((e : Error)
          → h.read_file (h.clean v.conf) ≡ err e
          → (wrapped : Error) × (run h build v ≡ must_log_fatal h wrapped))
        × ((contents : String)
            → h.read_file (h.clean v.conf) ≡ ok contents
            → run h build v ≡ wait_for h build v.quiet (h.start (input_of v.conf contents)))
  unfolding run
  run_reads_conf laws build v no_version no_plugins named no_pipe = (
    λ e read.
        let (wrapped, fails) =
          laws.flag_fails (conf_loader h v.conf) (default_loader h) server_type e
            (conf_loader_error v.conf named no_pipe e read) in
        (wrapped, rw (no_version, no_plugins, fails) refl),
    λ contents read.
        rw
          (
            no_version,
            no_plugins,
            laws.flag_loads (conf_loader h v.conf) (default_loader h) server_type
                (input_of v.conf contents)
                (conf_loader_contents v.conf named no_pipe contents read),
          )
          refl,
  )
