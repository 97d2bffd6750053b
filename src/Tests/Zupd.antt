-- ===== src/Tests/Zupd.antt =====
-- The plugin's theorems at a server with one zone, "a.".
use ksdns.Prelude.{
  ◌≡◌, ◌↔◌, ◌⊎◌, refl, true, false, Option, none, some, List, [], ◌∷◌, arith, str_eq, eq_iff,
  if◌then◌else◌, is_some, ◌&&◌, not,
}
use ksdns.Prelude.Go.{Error, ok}
use ksdns.Zupd.Coredns.{Zone}
use ksdns.Zupd.Zones.{Zones}
use ksdns.Zupd.Invariant.{IsServable}
use ksdns.Zupd.State.{Request, Reply, DynamicUpdate}
use ksdns.Zupd.Merge.Contents.{Holds}
use ksdns.Zupd.Serve.{answer_from, serve_dns}
use ksdns.Zupd.Serve.Safety.{IsSafe}
use ksdns.Zupd.Serve.Serials.{query_reads_merged}
use ksdns.Zupd.Reconcile.{is_deleting, reconcile}
use ksdns.Zupd.Reconcile.Effects.{reconcile_applies, reconcile_deleting_twice}
use ksdns.Zupd.Initialize.{
  initialize, Loaded, loaded, read_namespaces, load_namespaces, load_zones, load_zone,
  restore_zones, restore_zone, restore_rrs,
}
use ksdns.Zupd.System.{Reach, here, next, object_event, Reach-IsSafe}
use ksdns.Zupd.Reconcile.Beginnings.{event_skips_status}
use ksdns.Zupd.Spec.Refinement.{view, replay, Reach-replay}
use ksdns.Tests.Toy.{Rr, FileZone, address, soa, toy, toy_laws, toy_matches}

abbrev pub object : Zone
object = record {
  name = "a.";
  namespace = "ns";
  deletion_timestamp = none;
  spec = record { zone = "static" };
  status = record { dynamic_rrs = record { rr = "dynamic" } ∷ []; serial = 1 };
}

abbrev pub deleted : Zone
deleted = record object { deletion_timestamp = some 5 }

abbrev pub static : FileZone
static = record { origin = "a."; tree = address "static" ∷ []; apex = soa ∷ [] }

abbrev pub dynamic : FileZone
dynamic = record { origin = "a."; tree = address "dynamic" ∷ []; apex = [] }

abbrev pub table : Zones FileZone
table = record {
  z = λ n. if str_eq "a." n then some static else none;
  names = "a." ∷ [];
  dynamic_zones = λ n. if str_eq "a." n then some dynamic else none;
}

pub table-IsServable : IsServable {F = FileZone} (λ z. z.origin) table
table-IsServable = record {
  consistent = record {
    listed_once = λ n. ground (arith, eq_iff "a." n);
    same_keys = λ n. ground arith;
  };
  static_origins = λ n z e. ground (arith, eq_iff "a." n);
  dynamic_origins = λ n z e. ground (arith, eq_iff "a." n);
}

abbrev pub start : List Zone → DynamicUpdate toy
start objects = record {
  zones = table;
  namespaces = "ns" ∷ [];
  has_transfer = true;
  cluster = objects;
  soa_serials = λ a. 1;
  notified = [];
  written = [];
}

abbrev pub connection : Reply toy → Option Error
connection m = none

abbrev pub query : Request toy
query = record { qname = "a."; qtype = 1; opcode = 0; question = 1; ns = [] }

abbrev pub update : List Rr → Request toy
update rrs = record { qname = "a."; qtype = 6; opcode = 5; question = 1; ns = rrs }

abbrev built : Loaded FileZone → Zones FileZone
built (loaded zs) = zs
built _ = table

initialize_loads :
    initialize toy (object ∷ []) (("ns" ∷ []) ∷ [])
    ≡ loaded (built (initialize toy (object ∷ []) (("ns" ∷ []) ∷ [])))
unfolding initialize read_namespaces load_namespaces load_zones load_zone restore_zones restore_zone
    restore_rrs
initialize_loads = refl

abbrev pub booted : DynamicUpdate toy
booted = record {
  zones = built (initialize toy (object ∷ []) (("ns" ∷ []) ∷ []));
  namespaces = "ns" ∷ [];
  has_transfer = true;
  cluster = object ∷ [];
  soa_serials = λ a. 1;
  notified = [];
  written = [];
}

Reach-IsSafe_example :
    IsSafe toy toy_laws connection 0
      (serve_dns toy connection 0 query (reconcile toy "ns" "a." booted).1)
Reach-IsSafe_example =
    Reach-IsSafe toy toy_laws toy_matches (object ∷ []) (("ns" ∷ []) ∷ [])
      (built (initialize toy (object ∷ []) (("ns" ∷ []) ∷ []))) {d = booted}
      {e = (reconcile toy "ns" "a." booted).1} connection 0 query initialize_loads refl
      (next here (object_event "ns" "a."))

query_reads_merged_example :
    (m : FileZone) × ((x : Rr)
      → Holds toy toy_laws m x ↔ (Holds toy toy_laws static x ⊎ Holds toy toy_laws dynamic x))
    × (toy.apex_if_defined m ≡ toy.apex_if_defined static)
    × (serve_dns toy connection 0 query (start []) ≡ answer_from toy connection m query (start []))
query_reads_merged_example =
    query_reads_merged toy toy_laws connection 0 "a." static dynamic query (start [])
      table-IsServable refl refl (λ e. absurd (omega arith)) (λ e. absurd (omega arith))
      (λ e. absurd (omega arith)) (λ e. absurd (omega arith)) refl
      (λ e. ground (arith, eq_iff "a." ""))

is_live : is_deleting object ≡ false
unfolding is_deleting
is_live = refl

is_gone : is_deleting deleted ≡ true
unfolding is_deleting
is_gone = refl

reconcile_applies_example :
    ((reconcile toy "ns" "a." (start (object ∷ []))).0 ≡ none)
    × ((reconcile toy "ns" "a." (start (object ∷ []))).1.zones.z "a."
        ≡ (if str_eq "a." "a." then some static else table.z "a."))
    × ((reconcile toy "ns" "a." (start (object ∷ []))).1.zones.dynamic_zones "a." ≡ (
        if str_eq "a." "a." && not (is_some (table.z "a."))
        then some (toy.new_zone "a.")
        else table.dynamic_zones "a."))
reconcile_applies_example =
    reconcile_applies toy "ns" "a." (start (object ∷ [])) object refl static refl is_live "a."

reconcile_deleting_twice_example :
    ((reconcile toy "ns" "a." (start (deleted ∷ []))).1.zones.z "a." ≡ none)
    × ((reconcile toy "ns" "a." (reconcile toy "ns" "a." (start (deleted ∷ []))).1).1.zones.z "a."
        ≡ some static)
reconcile_deleting_twice_example =
    reconcile_deleting_twice toy "ns" "a." (start (deleted ∷ [])) deleted refl static refl is_gone
      refl

deletion : Reach toy (start (deleted ∷ [])) (reconcile toy "ns" "a." (start (deleted ∷ []))).1
deletion = next here (object_event "ns" "a.")

Reach-replay_example :
    view (reconcile toy "ns" "a." (start (deleted ∷ []))).1.zones
    ≡ replay toy toy_laws toy_matches deletion (view table)
Reach-replay_example = Reach-replay toy toy_laws toy_matches deletion table-IsServable

abbrev unlisted : DynamicUpdate toy
unlisted = record (start (object ∷ [])) {
  zones = record { z = λ n. none; names = []; dynamic_zones = λ n. none };
}

event_skips_status_example :
    ((reconcile toy "ns" "a." unlisted).1.zones ≡ load_zone toy unlisted.zones object)
    × ((parsed : FileZone)
        → toy.parse_zone "static" "a." ≡ ok parsed
        → ((reconcile toy "ns" "a." unlisted).1.zones.dynamic_zones "a." ≡ some (toy.new_zone "a."))
          × ((dz : FileZone)
              → restore_rrs toy (toy.new_zone "a.") object.status.dynamic_rrs ≡ some dz
              → (zs : Zones FileZone) × (restore_zone toy
                    (load_zone toy unlisted.zones object)
                    object
                  ≡ loaded zs)
                × (zs.dynamic_zones "a." ≡ some dz)))
event_skips_status_example = event_skips_status toy "ns" "a." object unlisted refl is_live refl
