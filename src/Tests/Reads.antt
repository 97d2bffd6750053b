-- ===== src/Tests/Reads.antt =====
-- A query read by read, in the small CoreDNS.
use ksdns.Prelude.{some, inl, ◌↔◌, ◌⊎◌, sym, ap, false, ◌≡◌, ◌≢◌, refl, arith, [], ◌∷◌, eq_iff}
use ksdns.Prelude.Go.{ok, ok-injective}
use ksdns.Zupd.Coredns.{Zone}
use ksdns.Zupd.State.{nil_pointer, DynamicUpdate}
use ksdns.Zupd.Merge.Contents.{Holds}
use ksdns.Zupd.Reconcile.{is_deleting, reconcile}
use ksdns.Zupd.Serve.{serve_dns, answer_from}
use ksdns.Zupd.Quiet.{live_event, cluster_change, start, then_step, unfinalized_zone_served}
use ksdns.Zupd.Reads.{arrived, answered, advance, reads, Interleaved, own, others}
use ksdns.Zupd.Reads as Reads
use ksdns.Zupd.Reads.Survival.{quiet_reads_survive}
use ksdns.Zupd.Reads.Deletion.{deletion_between_reads}
use ksdns.Tests.Toy.{Rr, FileZone, toy, toy_laws, toy_matches}
use ksdns.Tests.Zupd.{table-IsServable, query, connection, object, deleted}
use ksdns.Tests.Zupd as Zupd

live : (obj : Zone) → toy.get_zone (object ∷ []) "ns" "a." ≡ ok obj → is_deleting obj ≡ false
unfolding is_deleting
live obj h = ap is_deleting (sym (ok-injective h))

-- The event of the object comes between the first read of the query and the second.
between :
    Interleaved toy connection query
      (Zupd.start (object ∷ []))
      (advance toy connection query
        (advance toy connection query arrived (Zupd.start (object ∷ []))).0
        (reconcile toy "ns" "a." (Zupd.start (object ∷ []))).1).0
      (advance toy connection query
        (advance toy connection query arrived (Zupd.start (object ∷ []))).0
        (reconcile toy "ns" "a." (Zupd.start (object ∷ []))).1).1
unfolding advance
between = own (others (own Reads.start) (live_event "ns" "a." live))

quiet_reads_survive_example :
    (advance toy connection query
      (advance toy connection query arrived (Zupd.start (object ∷ []))).0
      (reconcile toy "ns" "a." (Zupd.start (object ∷ []))).1).0
    ≢ answered nil_pointer
quiet_reads_survive_example =
    quiet_reads_survive toy toy_laws toy_matches connection query (λ e. absurd (omega arith))
      table-IsServable between

deletion_between_reads_example :
    (advance toy connection query
      (reads toy connection query 2 (arrived, Zupd.start (deleted ∷ []))).0
      (reconcile toy "ns" "a." (Zupd.start (deleted ∷ []))).1).0
    ≡ answered nil_pointer
unfolding is_deleting
deletion_between_reads_example =
    deletion_between_reads toy toy_laws toy_matches connection query (Zupd.start (deleted ∷ []))
      "ns" "a." deleted table-IsServable (λ e. ground (arith, eq_iff "a." ""))
      (λ e. absurd (omega arith)) (λ e. absurd (omega arith)) (λ e. absurd (omega arith))
      (λ e. absurd (omega arith)) refl refl refl

-- The object is gone, and its event comes.
abbrev vanished : DynamicUpdate toy
vanished = (reconcile toy "ns" "a." (record (Zupd.start (object ∷ [])) { cluster = [] })).1

not_there : (obj : Zone) → toy.get_zone [] "ns" "a." ≡ ok obj → is_deleting obj ≡ false
not_there obj h = cc

matched_still : toy.matches vanished.zones.names "a." ≡ "a."
unfolding reconcile
matched_still = refl

unfinalized_zone_served_example :
    (s : FileZone) × (dz : FileZone) × (m : FileZone) × (vanished.zones.z "a." ≡ some s)
    × (vanished.zones.dynamic_zones "a." ≡ some dz)
    × ((x : Rr) → Holds toy toy_laws m x ↔ (Holds toy toy_laws s x ⊎ Holds toy toy_laws dz x))
    × (serve_dns toy connection 0 query vanished ≡ answer_from toy connection m query vanished)
unfinalized_zone_served_example =
    unfinalized_zone_served toy toy_laws toy_matches connection 0 "a." query
      {d = Zupd.start (object ∷ [])} {e = vanished} table-IsServable (inl refl)
      (then_step (then_step start (cluster_change [])) (live_event "ns" "a." not_there))
      (λ e. absurd (omega arith)) (λ e. absurd (omega arith)) (λ e. absurd (omega arith))
      (λ e. absurd (omega arith)) matched_still (λ e. ground (arith, eq_iff "a." ""))
