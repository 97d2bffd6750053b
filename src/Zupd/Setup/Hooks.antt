-- ===== src/Zupd/Setup/Hooks.antt =====
-- The hooks of `setup` (setup.go), run one after the other.
use ksdns.Prelude.{
  ℕ, suc, String, ◌≡◌, ◌≤◌, ◌+◌, refl, sym, ap, subst, true, false, Option, none, some, List, [],
  ◌∷◌, str_eq, eq_iff, if◌then◌else◌, is_some, arith, In, All, length, occurrences, inl, inr,
}
use ksdns.Zupd.Coredns.{Coredns}
use ksdns.Zupd.Zones.{Zones}
use ksdns.Zupd.Zones.Consistency.{In-occurrences}
use ksdns.Zupd.State.{DynamicUpdate}
use ksdns.Zupd.Setup.{
  Ended, fine, Instance, Hook, notify_each, reload_zone, reload_hooks, proceed, run_hooks,
}

module _ (c : Coredns) where
  open c use {FileZone}

  notify_each-keeps :
      (names : List String) (d : DynamicUpdate c) (n : String)
      → In n d.notified
      → In n (notify_each c names d).notified
  unfolding notify_each
  notify_each-keeps [] d n h = h
  notify_each-keeps (m ∷ names) d n h =
      notify_each-keeps names (record d { notified = m ∷ d.notified }) n (inr h)

  pub notify_each-adds :
      (names : List String) (d : DynamicUpdate c) (n : String)
      → In n names
      → In n (notify_each c names d).notified
  unfolding notify_each
  notify_each-adds [] d n h = absurd h
  notify_each-adds (m ∷ names) d n (inl e) =
      notify_each-keeps names (record d { notified = m ∷ d.notified }) n (inl e)
  notify_each-adds (m ∷ names) d n (inr h) =
      notify_each-adds names (record d { notified = m ∷ d.notified }) n h

  zones-notify_each :
      (names : List String) (d : DynamicUpdate c) → (notify_each c names d).zones ≡ d.zones
  unfolding notify_each
  zones-notify_each [] d = refl
  zones-notify_each (m ∷ names) d = zones-notify_each names (record d { notified = m ∷ d.notified })

  abbrev after_reload : String → String → Instance c → Instance c
  after_reload key n s = record s {
    once_done = λ k. if str_eq key k then true else s.once_done k;
    reloaded = n ∷ s.reloaded;
  }

  reload_zone_first :
      (key n : String) (o : Option FileZone) (s : Instance c)
      → is_some o ≡ true
      → s.once_done key ≡ false
      → reload_zone c key n o s ≡ (fine, after_reload key n s)
  unfolding reload_zone
  reload_zone_first key n none s h e = cc
  reload_zone_first key n (some z) s h e = rw e refl

  pub run_hooks-cons :
      (hook : Hook c) (hooks : List (Hook c)) (s : Instance c) {p : Ended × Instance c}
      → hook s ≡ p
      → run_hooks c (hook ∷ hooks) s ≡ proceed c p (run_hooks c hooks)
  unfolding run_hooks
  run_hooks-cons hook hooks s h = ap (λ q. proceed c q (run_hooks c hooks)) h

  -- All the hooks of a list of distinct names, none of which has run, end well, and `Reload` was
  -- called once for each, with the name `last`.
  pub record Reloads (last : String) (count : ℕ) (s : Instance c) (result : Ended × Instance c)
      : Type 0 where
    pub ends : result.0 ≡ fine
    pub plugin : result.1.plugin ≡ s.plugin
    pub controller : result.1.controller_started ≡ s.controller_started
    pub all_last : All (λ n. n ≡ last) s.reloaded → All (λ n. n ≡ last) result.1.reloaded
    pub number : length result.1.reloaded ≡ count + length s.reloaded

  pub reload_hooks-Reloads :
      (zs : Zones FileZone) (last : String) (names : List String) (s : Instance c)
      → ((n : String) → In n names → is_some (zs.z n) ≡ true)
      → ((n : String) → occurrences n names ≤ 1)
      → ((n : String) → In n names → s.once_done n ≡ false)
      → Reloads last (length names) s (run_hooks c (reload_hooks c zs last names) s)
  unfolding reload_hooks
  reload_hooks-Reloads zs last [] s there once fresh = record {
    ends = unfold run_hooks in refl;
    plugin = unfold run_hooks in refl;
    controller = unfold run_hooks in refl;
    all_last = λ h. unfold run_hooks in h;
    number = unfold run_hooks in omega arith;
  }
  reload_hooks-Reloads zs last (n ∷ names) s there once fresh =
      let s' = after_reload n last s in
      let first = reload_zone_first n last (zs.z n) s (there n (inl refl)) (fresh n (inl refl)) in
      let new : (k : String) → In k names → s'.once_done k ≡ false =
        λ k i. ground (arith, eq_iff n k, once k, In-occurrences k names i, fresh k (inr i)) in
      let rest =
        reload_hooks-Reloads zs last names s' (λ k i. there k (inr i)) (λ k. ground (arith, once k))
          new in
      subst (Reloads last (suc (length names)) s)
        (sym
          (run_hooks-cons (reload_zone c n last (zs.z n)) (reload_hooks c zs last names) s first))
        (record {
          ends = rest.ends;
          plugin = rest.plugin;
          controller = rest.controller;
          all_last = λ h. rest.all_last (refl, h);
          number = omega (arith, rest.number);
        })
