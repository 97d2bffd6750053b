-- ===== src/Zupd/Setup/Registration.antt =====
-- What `setup` (setup.go) leaves: the plugin and the hooks, of which the first find the handlers,
-- start the controller and notify the zones.
use ksdns.Prelude.{
  ℕ, String, ◌≡◌, refl, subst, true, false, List, [], arith, inl, inr, Bool-cases, ◌&&◌,
}
use ksdns.Prelude.Go.{Error, message, Result, ok, err}
use ksdns.Zupd.Coredns.{Coredns, FileZoneLaws}
use ksdns.Zupd.Zones.{Zones}
use ksdns.Zupd.Invariant.{IsServable}
use ksdns.Zupd.Initialize.{initialize, Loaded, read_namespaces}
use ksdns.Zupd.Initialize as Initialize
use ksdns.Zupd.Initialize.Effects.{Loads, initialize-IsServable}
use ksdns.Zupd.Manager.{ControllerRuntime, Value, new_manager}
use ksdns.Zupd.Manager as Manager
use ksdns.Zupd.Setup.{
  Handlers, refused, Instance, Hook, find_handlers, start_controller, notify_each, notify_all,
  last_of, reload_hooks, startup_hooks, run_hooks, registered, with_manager, with_zones,
  namespaces_of, setup,
}

-- What `setup` has registered, if it got that far.
pub record Registered (c : Coredns) (plugin_error : String → Error → Error) (h : Handlers)
    (k : c.Cluster) (lines : List (List String)) (s : Instance c) (hooks : List (Hook c))
    : Type 0 where
  loaded : initialize c k lines ≡ Initialize.loaded (s.plugin.zones)
  pub hooked : hooks ≡ startup_hooks c plugin_error h s.plugin.zones
  pub unstarted : s.controller_started ≡ false
  pub unnotified : s.plugin.notified ≡ []
  pub unreloaded : s.reloaded ≡ []
  pub fresh : (n : String) → s.once_done n ≡ false

module _ (c : Coredns) (laws : FileZoneLaws c) (r : ControllerRuntime)
    (plugin_error : String → Error → Error) (serials : ℕ → ℕ) where
  open c use {FileZone}
  open laws use {origin}

  with_manager-Registered :
      (made : Manager.Made r.Manager) (h : Handlers) (k : c.Cluster) (lines : List (List String))
      (namespaces : List String) (zs : Zones FileZone) {s : Instance c} {hooks : List (Hook c)}
      → initialize c k lines ≡ Initialize.loaded zs
      → with_manager c r plugin_error serials made h k namespaces zs ≡ registered s hooks
      → Registered c plugin_error h k lines s hooks
  with_manager-Registered (Manager.made m) h k lines namespaces zs e q = record {
    loaded = ground arith;
    hooked = ground arith;
    unstarted = ground arith;
    unnotified = ground arith;
    unreloaded = ground arith;
    fresh = λ n. ground arith;
  }
  with_manager-Registered (Manager.failed x) h k lines namespaces zs e q = absurd (cc)
  with_manager-Registered Manager.panicked h k lines namespaces zs e q = absurd (cc)

  with_zones-Registered :
      (m : Loaded FileZone) (viper : String → Value) (h : Handlers) (k : c.Cluster)
      (lines : List (List String)) (namespaces : List String) {s : Instance c}
      {hooks : List (Hook c)}
      → initialize c k lines ≡ m
      → with_zones c r plugin_error serials m viper h k namespaces ≡ registered s hooks
      → Registered c plugin_error h k lines s hooks
  with_zones-Registered (Initialize.loaded zs) viper h k lines namespaces e q =
      with_manager-Registered (new_manager r viper namespaces) h k lines namespaces zs e q
  with_zones-Registered (Initialize.failed x) viper h k lines namespaces e q = absurd (cc)
  with_zones-Registered Initialize.nil_pointer viper h k lines namespaces e q = absurd (cc)
  with_zones-Registered Initialize.nil_record viper h k lines namespaces e q = absurd (cc)

  pub setup-Registered :
      (client : Result c.Cluster) (viper : String → Value) (h : Handlers)
      (lines : List (List String)) {s : Instance c} {hooks : List (Hook c)}
      → setup c r plugin_error serials client viper h lines ≡ registered s hooks
      → (k : c.Cluster) × Registered c plugin_error h k lines s hooks
  unfolding setup
  setup-Registered (err e) viper h lines q = absurd (cc)
  setup-Registered (ok k) viper h lines q = (
    k,
    with_zones-Registered (initialize c k lines) viper h k lines
        (namespaces_of c r plugin_error serials (read_namespaces [] lines)) refl q,
  )

  pub Registered-IsServable :
      {h : Handlers} {k : c.Cluster} {lines : List (List String)} {s : Instance c}
      {hooks : List (Hook c)}
      → Registered c plugin_error h k lines s hooks
      → IsServable origin s.plugin.zones
  Registered-IsServable {k = k} {lines = lines} g =
      subst (Loads (IsServable origin)) g.loaded (initialize-IsServable c laws k lines)

  -- The state in which the hooks of the single zones run.
  abbrev pub prepared : Instance c → Instance c
  prepared s = record s {
    metrics = true;
    controller_started = true;
    plugin = notify_each c s.plugin.zones.names (record (s.plugin) { has_transfer = true });
  }

  pub startup_prefix :
      (h : Handlers) (s : Instance c) (hooks : List (Hook c))
      → h.prometheus ≡ true
      → h.transfer ≡ true
      → hooks ≡ startup_hooks c plugin_error h s.plugin.zones
      → run_hooks c hooks s
        ≡ run_hooks c
            (reload_hooks c s.plugin.zones (last_of c "" s.plugin.zones.names) s.plugin.zones.names)
            (prepared s)
  unfolding startup_hooks run_hooks find_handlers start_controller notify_all
  startup_prefix h s hooks p t e = rw e (rw (p, find_handlers) (rw (t, find_handlers) refl))

  abbrev required : String → Error
  required what = plugin_error what (message "must be enabled in Corefile")

  pub find_handlers_refuses :
      (h : Handlers) (s : Instance c)
      → h.prometheus && h.transfer ≡ false
      → (e : Error) × (s' : Instance c) × (find_handlers c plugin_error h s ≡ (refused e, s'))
        × (s'.controller_started ≡ s.controller_started)
        × (s'.plugin ≡ s.plugin)
  unfolding find_handlers
  find_handlers_refuses h s missing = elim (Bool-cases h.prometheus) [
    | inr p ↦ (required "prometheus plugin is required", s, rw p refl, refl, refl)
    | inl p ↦
        let t : h.transfer ≡ false = ground arith in
        (
          required "transfer plugin is required",
          record s { metrics = true },
          rw p (rw t refl),
          refl,
          refl,
        )
  ]
