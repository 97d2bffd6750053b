-- ===== src/Zupd/Setup.antt =====
-- `setup` (setup.go): the plugin is built, and its hooks are registered with caddy. A goroutine
-- that a hook starts is run at once; the controller, which may change the zones meanwhile, is only
-- marked as started, or as not.
pub mod Hooks
pub mod Registration
pub mod Startup
use ksdns.Prelude.{
  ℕ, String, ◌≡◌, refl, Bool, true, false, Option, none, some, List, [], ◌∷◌, ◌++◌, str_eq,
  if◌then◌else◌, is_some, not,
}
use ksdns.Prelude.Go.{Error, message, Result, ok, err}
use ksdns.Zupd.Coredns.{Coredns}
use ksdns.Zupd.Zones.{Zones}
use ksdns.Zupd.State.{DynamicUpdate}
use ksdns.Zupd.Initialize.{read_namespaces, initialize}
use ksdns.Zupd.Initialize as Initialize
use ksdns.Zupd.Manager.{ControllerRuntime, Value, new_manager}
use ksdns.Zupd.Manager as Manager

-- Which plugins of the server block `Handler` finds.
pub record Handlers : Type 0 where
  pub prometheus : Bool
  pub transfer : Bool

-- How a hook ends.
pub data Ended : Type 0 where
  fine : Ended
  refused : Error → Ended
  nil_pointer : Ended

module _ (c : Coredns) where
  open c use {FileZone}

  -- What the hooks read and write: the plugin, whether its metrics are set and the controller is
  -- started, the `StartupOnce` of the zone loaded for each name, and the names that `Reload` was
  -- called with, the latest first.
  pub record Instance : Type 0 where
    pub plugin : DynamicUpdate c
    pub metrics : Bool
    pub controller_started : Bool
    pub once_done : String → Bool
    pub reloaded : List String

  abbrev pub Hook : Type 0
  Hook = Instance → Ended × Instance

  unfoldable pub find_handlers : (String → Error → Error) → Handlers → Hook
  find_handlers plugin_error h s =
      if not h.prometheus
      then (
        refused
            (plugin_error "prometheus plugin is required" (message "must be enabled in Corefile")),
        s,
      )
      else if not h.transfer
      then (
        refused
            (plugin_error "transfer plugin is required" (message "must be enabled in Corefile")),
        record s { metrics = true },
      )
      else (fine, record s { metrics = true; plugin = record (s.plugin) { has_transfer = true } })

  unfoldable pub start_controller : Hook
  start_controller s = (fine, record s { controller_started = true })

  -- `for _, n := range zones.Names`
  unfoldable pub notify_each : List String → DynamicUpdate c → DynamicUpdate c
  notify_each [] d = d
  notify_each (n ∷ names) d = notify_each names (record d { notified = n ∷ d.notified })

  unfoldable pub notify_all : Hook
  notify_all s = (fine, record s { plugin = notify_each s.plugin.zones.names s.plugin })

  -- Whether the handler is there is all that is read of it.
  unfoldable restart_failed : Handlers → Hook
  restart_failed h s = if h.transfer then notify_all s else (fine, s)

  -- The hook of the zone `z`, loaded for `key`. The loop variable `n` is one for all rounds of the
  -- loop (go.mod asks for Go 1.19), so when the hook runs it holds the last name. What `Reload`
  -- answers is not read.
  unfoldable pub reload_zone : (key n : String) → Option FileZone → Hook
  reload_zone key n none s = (nil_pointer, s)
  reload_zone key n (some z) s = if s.once_done key then (fine, s) else (
    fine,
    record s {
      once_done = λ k. if str_eq key k then true else s.once_done k;
      reloaded = n ∷ s.reloaded;
    },
  )

  -- The value that the loop variable is left with.
  abbrev pub last_of : String → List String → String
  last_of n [] = n
  last_of n (x ∷ xs) = last_of x xs

  unfoldable pub reload_hooks : Zones FileZone → String → List String → List Hook
  reload_hooks zs last [] = []
  reload_hooks zs last (n ∷ names) = reload_zone n last (zs.z n) ∷ reload_hooks zs last names

  -- The `OnStartup` hooks, as they are registered.
  unfoldable pub startup_hooks : (String → Error → Error) → Handlers → Zones FileZone → List Hook
  startup_hooks plugin_error h zs =
      find_handlers plugin_error h
      ∷ start_controller
      ∷ notify_all
      ∷ reload_hooks zs (last_of "" zs.names) zs.names

  -- The manager's context is cancelled, so that the controller ends.
  unfoldable stop_controller : Hook
  stop_controller s = (fine, record s { controller_started = false })

  -- `OnShutdown` of the plugin (shutdown.go), which stops nothing.
  unfoldable stop_zones : Hook
  stop_zones s = (fine, s)

  -- The `OnShutdown` hooks, as they are registered.
  unfoldable shutdown_hooks : List Hook
  shutdown_hooks = stop_controller ∷ stop_zones ∷ []

  abbrev pub proceed : Ended × Instance → Hook → Ended × Instance
  proceed (fine, s) hook = hook s
  proceed (refused e, s) hook = (refused e, s)
  proceed (nil_pointer, s) hook = (nil_pointer, s)

  -- The hooks in order, until one does not end well.
  unfoldable pub run_hooks : List Hook → Hook
  run_hooks [] s = (fine, s)
  run_hooks (hook ∷ hooks) s = proceed (hook s) (run_hooks hooks)

  -- The shutdown ends well, stops the controller and leaves the rest as it is.
  run_hooks-shutdown_hooks :
      (s : Instance) → run_hooks shutdown_hooks s ≡ (fine, record s { controller_started = false })
  unfolding run_hooks shutdown_hooks stop_controller stop_zones
  run_hooks-shutdown_hooks s = refl

  -- What `setup` comes to: an error that caddy is given, a panic, or the plugin and its hooks.
  pub data Setup : Type 0 where
    failed : Error → Setup
    panicked : Setup
    registered : Instance → List Hook → Setup

  abbrev pub instance_of : (ℕ → ℕ) → c.Cluster → List String → Zones FileZone → Instance
  instance_of serials k namespaces zs = record {
    plugin = record {
      zones = zs;
      namespaces = namespaces;
      has_transfer = false;
      cluster = k;
      soa_serials = serials;
      notified = [];
      written = [];
    };
    metrics = false;
    controller_started = false;
    once_done = λ n. false;
    reloaded = [];
  }

  module _ (r : ControllerRuntime) (plugin_error : String → Error → Error) (serials : ℕ → ℕ) where
    abbrev pub with_manager :
        Manager.Made r.Manager → Handlers → c.Cluster → List String → Zones FileZone → Setup
    with_manager (Manager.made m) h k namespaces zs =
        registered (instance_of serials k namespaces zs) (startup_hooks plugin_error h zs)
    with_manager (Manager.failed e) h k namespaces zs = failed (plugin_error "dynamicupdate" e)
    with_manager Manager.panicked h k namespaces zs = panicked

    abbrev pub with_zones :
        Initialize.Loaded FileZone → (String → Value) → Handlers → c.Cluster → List String → Setup
    with_zones (Initialize.loaded zs) viper h k namespaces =
        with_manager (new_manager r viper namespaces) h k namespaces zs
    with_zones (Initialize.failed e) viper h k namespaces = failed (plugin_error "dynamicupdate" e)
    with_zones Initialize.nil_pointer viper h k namespaces = panicked
    with_zones Initialize.nil_record viper h k namespaces = panicked

    abbrev pub namespaces_of : Result (List String) → List String
    namespaces_of (ok namespaces) = namespaces
    namespaces_of (err e) = []

    -- The client of the API server is made first: `k` is the cluster that it reads. `serials` is
    -- what the SOA records of the parsed zones hold.
    unfoldable pub setup :
        Result c.Cluster → (String → Value) → Handlers → List (List String) → Setup
    setup client viper h lines = elim client [
      | err e ↦ failed (plugin_error "dynamicupdate" e)
      | ok k ↦
          with_zones (initialize c k lines) viper h k (namespaces_of (read_namespaces [] lines))
    ]
