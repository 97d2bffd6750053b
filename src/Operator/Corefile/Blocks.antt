-- ===== src/Operator/Corefile/Blocks.antt =====
-- How the rendered Corefile depends on the list of zones.
use Prim.Native.String.{◌++◌ as str_append}
use text.Mathlib.TextLemmas.{append_assoc}
use ksdns.Prelude.{String, ◌≡◌, refl, sym, ap, ◌∙◌, Bool, List, ◌∷◌}
use ksdns.Operator.Corefile.{◌+s◌, range_zones, render_coredns_corefile, render_zupd_corefile}

range_zones-run_together :
    (a b : String) (zs : List String)
    → range_zones (a ∷ b ∷ zs) ≡ range_zones ((a +s ":1053" +s b) ∷ zs)
unfolding range_zones
range_zones-run_together a b zs =
    sym (append_assoc a (":1053" +s b) _ ∙ ap (str_append a) (append_assoc ":1053" b _))

-- Two zones of a Corefile run together: both Corefiles of a list that begins with `a` and `b` are
-- those of the list that has, in their place, the one zone spelled `a`, ":1053", `b`.
pub zones_run_together :
    (a b : String) (zs ips : List String) (namespace : String) (debug : Bool)
    → (render_coredns_corefile (a ∷ b ∷ zs) ips debug
        ≡ render_coredns_corefile ((a +s ":1053" +s b) ∷ zs) ips debug)
      × (render_zupd_corefile (a ∷ b ∷ zs) ips namespace debug
          ≡ render_zupd_corefile ((a +s ":1053" +s b) ∷ zs) ips namespace debug)
unfolding render_coredns_corefile render_zupd_corefile
zones_run_together a b zs ips namespace debug =
    (rw (range_zones-run_together a b zs) refl, rw (range_zones-run_together a b zs) refl)
