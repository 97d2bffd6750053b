-- ===== src/Zupd/Setup/Startup.antt =====
-- What the registered hooks do when the server starts.
use ksdns.Prelude.{
  ℕ, String, ◌≡◌, sym, ap, ◌∙◌, subst, true, false, List, [], arith, In, All, length, ◌&&◌,
}
use ksdns.Prelude.Go.{Error, Result}
use ksdns.Zupd.Coredns.{Coredns, FileZoneLaws}
use ksdns.Zupd.Zones.Consistency.{listed-has_zone}
use ksdns.Zupd.Invariant.{IsServable}
use ksdns.Zupd.Manager.{ControllerRuntime, Value}
use ksdns.Zupd.Setup.{
  Handlers, fine, refused, Instance, Hook, last_of, startup_hooks, run_hooks, registered, setup,
}
use ksdns.Zupd.Setup.Hooks.{notify_each-adds, run_hooks-cons, Reloads, reload_hooks-Reloads}
use ksdns.Zupd.Setup.Registration.{
  setup-Registered, Registered-IsServable, prepared, startup_prefix, find_handlers_refuses,
}

module _ (c : Coredns) (laws : FileZoneLaws c) (r : ControllerRuntime)
    (plugin_error : String → Error → Error) (serials : ℕ → ℕ) (start : List (Hook c) → Hook c)
    (in_order : (hooks : List (Hook c)) (s : Instance c) → start hooks s ≡ run_hooks c hooks s)
    (client : Result c.Cluster) (viper : String → Value) (h : Handlers) (lines : List (List String))
    (s : Instance c) (hooks : List (Hook c))
    (set_up : setup c r plugin_error serials client viper h lines ≡ registered s hooks) where
  open c use {FileZone}
  open laws use {origin}

  -- The hooks that `setup` registers, run in their order in a server block with both the prometheus
  -- and the transfer plugin: they end well, the controller is started, and every zone of the table
  -- is notified. `Reload` is called as often as there are zones, and each time with the name of the
  -- last one.
  pub startup_reloads_last :
      h.prometheus ≡ true
      → h.transfer ≡ true
      → ((start hooks s).0 ≡ fine)
        × ((start hooks s).1.controller_started ≡ true)
        × ((n : String) → In n s.plugin.zones.names → In n (start hooks s).1.plugin.notified)
        × All (λ n. n ≡ last_of c "" s.plugin.zones.names) (start hooks s).1.reloaded
        × (length (start hooks s).1.reloaded ≡ length s.plugin.zones.names)
  startup_reloads_last p t =
      let (k, g) = setup-Registered c laws r plugin_error serials client viper h lines set_up in
      let servable : IsServable origin s.plugin.zones =
        Registered-IsServable c laws r plugin_error serials g in
      let names = s.plugin.zones.names in
      let before = prepared c laws r plugin_error serials s in
      let run =
        in_order hooks s ∙ startup_prefix c laws r plugin_error serials h s hooks p t g.hooked in
      let all =
        reload_hooks-Reloads c s.plugin.zones (last_of c "" names) names before
          (λ n i. (listed-has_zone n s.plugin.zones servable.consistent i).0)
          (λ n. ground (arith, servable.consistent.listed_once n)) (λ n i. g.fresh n) in
      let result : Reloads c (last_of c "" names) (length names) before (start hooks s) =
        subst (Reloads c (last_of c "" names) (length names) before) (sym run) all in
      (
        result.ends,
        result.controller,
        λ n i.
            subst (λ d. In n d.notified) (sym result.plugin)
              (notify_each-adds c names (record (s.plugin) { has_transfer = true }) n i),
        result.all_last (subst (All (λ n. n ≡ last_of c "" names)) (sym g.unreloaded) tt),
        omega (arith, result.number, ap length g.unreloaded),
      )

  -- If one of the two plugins is missing, the first hook refuses the start: the controller is not
  -- started, the plugin is as it was set up, and nothing is notified.
  startup_requires_plugins :
      h.prometheus && h.transfer ≡ false
      → (e : Error) × ((start hooks s).0 ≡ refused e)
        × ((start hooks s).1.controller_started ≡ false)
        × ((start hooks s).1.plugin.notified ≡ [])
  unfolding startup_hooks
  startup_requires_plugins missing =
      let (k, g) = setup-Registered c laws r plugin_error serials client viper h lines set_up in
      let (e, s', found, controller, plugin) =
        find_handlers_refuses c laws r plugin_error serials h s missing in
      let run : start hooks s ≡ (refused e, s') =
        in_order hooks s ∙ ap (λ l. run_hooks c l s) g.hooked ∙ run_hooks-cons c _ _ s found in
      (
        e,
        ap (λ q. q.0) run,
        ap (λ q. q.1.controller_started) run ∙ controller ∙ g.unstarted,
        ap (λ q. q.1.plugin.notified) run ∙ ap (λ d. d.notified) plugin ∙ g.unnotified,
      )
