-- ===== src/Tests/Setup.antt =====
-- The theorems on the manager and on the start of the plugin, with one zone "a.".
use ksdns.Prelude.{
  ℕ, String, ◌≡◌, refl, true, false, List, [], ◌∷◌, In, All, length, str_eq, if◌then◌else◌,
}
use ksdns.Prelude.Go.{Error, ok}
use ksdns.Zupd.Manager.{
  ControllerRuntime, Value, absent, text, election_key, new_manager, make_manager, election_of,
  namespace_of,
}
use ksdns.Zupd.Initialize.{
  initialize, read_namespaces, load_namespaces, load_zones, load_zone, restore_zones, restore_zone,
  restore_rrs,
}
use ksdns.Zupd.Setup.{
  Handlers, Ended, fine, Instance, Hook, last_of, run_hooks, Setup, registered, setup,
  startup_hooks, instance_of,
}
use ksdns.Zupd.Setup.Startup.{startup_reloads_last}
use ksdns.Tests.Toy.{toy, toy_laws}
use ksdns.Tests.Zupd.{object, booted}

-- A controller-runtime in which nothing fails.
abbrev pub runtime : ControllerRuntime
runtime = record {
  Manager = Unit {0};
  new_manager = λ o. ok tt;
  complete = λ m. ok m;
  add_healthz_check = λ m n. ok m;
  add_readyz_check = λ m n. ok m;
  elected = λ m. true;
}

-- The leader election comes as a text, from the environment.
abbrev environment : String → Value
environment key = if str_eq key election_key then text "true" else absent

abbrev no_values : String → Value
no_values key = absent

abbrev wrap : String → Error → Error
wrap name e = e

abbrev serials : ℕ → ℕ
serials a = 1

abbrev both : Handlers
both = record { prometheus = true; transfer = true }

abbrev no_transfer : Handlers
no_transfer = record { prometheus = true; transfer = false }

abbrev set_up_with : Handlers → Setup toy
set_up_with h = setup toy runtime wrap serials (ok (object ∷ [])) no_values h (("ns" ∷ []) ∷ [])

abbrev ready : Instance toy
ready = instance_of toy serials (object ∷ []) ("ns" ∷ []) booted.zones

abbrev hooks : Handlers → List (Hook toy)
hooks h = startup_hooks toy wrap h booted.zones

is_set_up : (h : Handlers) → set_up_with h ≡ registered ready (hooks h)
unfolding setup initialize read_namespaces load_namespaces load_zones load_zone restore_zones
    restore_zone restore_rrs new_manager make_manager election_of namespace_of
is_set_up h = refl

abbrev started : Handlers → Ended × Instance toy
started h = run_hooks toy (hooks h) ready

startup_reloads_last_example :
    ((started both).0 ≡ fine)
    × ((started both).1.controller_started ≡ true)
    × ((n : String) → In n ready.plugin.zones.names → In n (started both).1.plugin.notified)
    × All (λ n. n ≡ last_of toy "" ready.plugin.zones.names) (started both).1.reloaded
    × (length (started both).1.reloaded ≡ length ready.plugin.zones.names)
startup_reloads_last_example =
    startup_reloads_last toy toy_laws runtime wrap serials (run_hooks toy) (λ hs s. refl)
      (ok (object ∷ [])) no_values both (("ns" ∷ []) ∷ []) ready (hooks both) (is_set_up both) refl
      refl
