-- ===== src/Zupd/Coredns.antt =====
-- What the plugin takes from CoreDNS, miekg/dns and the Kubernetes client: code of other modules,
-- so its types and operations are the fields of a record, and their documented behaviour the
-- fields of a second one.
use ksdns.Prelude.{
  none, some, ◌++◌, ◌∷◌, All, false, str_eq, ℕ, String, ◌≡◌, ◌≢◌, ◌⊎◌, Bool, Option, List, [], In,
  concat,
}
use ksdns.Prelude.Go.{Error, Result, ok}

-- A `Zone` object of the rfc1035.ksdns.io API (pkg/zupd/api/v1alpha1/zone_types.go).
pub record ZoneSpec : Type 0 where
  pub zone : String

pub record DynamicRr : Type 0 where
  pub rr : String

pub record ZoneStatus : Type 0 where
  pub dynamic_rrs : List DynamicRr
  pub serial : ℕ

pub record Zone : Type 0 where
  pub name : String
  pub namespace : String
  pub deletion_timestamp : Option ℕ
  pub spec : ZoneSpec
  pub status : ZoneStatus

-- The four values of `file.Zone.Lookup`'s result that the plugin tells apart, and success.
pub data LookupResult : Type 0 where
  success no_data name_error delegation server_failure : LookupResult

pub record Coredns : Type 1 where
  -- A resource record is a pointer; `soa_address` is the address of its SOA fields, if it is one.
  pub Rr : Type 0
  pub rr_name : Rr → String
  pub rr_type : Rr → ℕ
  pub rr_class : Rr → ℕ
  pub soa_address : Rr → Option ℕ
  pub rr_string : Rr → String
  -- `dns.NewRR`: the record is nil, `none`, where the text has none.
  pub new_rr : String → Result (Option Rr)
  pub is_domain_name : String → Bool
  pub fqdn : String → String
  -- `plugin.Zones.Matches`: the longest listed zone that holds the name, "" if there is none.
  pub matches : List String → String → String
  pub trim_dot : String → String
  -- `file.Zone`; `all` lists, for each element of the tree, the element's records.
  pub FileZone : Type 0
  pub new_zone : String → FileZone
  pub parse_zone : String → String → Result FileZone
  pub insert : FileZone → Rr → FileZone × Option Error
  pub remove : FileZone → Rr → FileZone
  pub all : FileZone → List (List Rr)
  pub copy : FileZone → FileZone
  pub apex_if_defined : FileZone → Result (List Rr)
  pub is_expired : FileZone → Bool
  pub reload_interval : FileZone → ℕ
  pub lookup :
      FileZone
      → String
      → ℕ
      → record { answer : List Rr; ns : List Rr; extra : List Rr; result : LookupResult }
  pub Stream : Type 0
  pub transfer_zone : FileZone → ℕ → Result Stream
  -- The API server, as the client reads and writes it.
  pub Cluster : Type 0
  pub get_zone : Cluster → String → String → Result Zone
  pub list_zones : Cluster → String → Result (List Zone)
  pub update_status : Cluster → Zone → Cluster × Option Error

-- Documented behaviour of `file.Zone`: no operation changes a zone's origin, a new zone and a copy
-- have an empty tree, a copy has the apex of its original, a zone's tree holds what was inserted,
-- and a record that reads like one of a zone's tree goes to the tree of any zone of that origin.
pub record FileZoneLaws (c : Coredns) : Type 0 where
  pub origin : c.FileZone → String
  pub origin-copy : (z : c.FileZone) → origin (c.copy z) ≡ origin z
  pub origin-remove : (z : c.FileZone) (r : c.Rr) → origin (c.remove z r) ≡ origin z
  pub origin-new_zone : (name : String) → origin (c.new_zone name) ≡ name
  pub origin-parse_zone :
      (text name : String) (z : c.FileZone) → c.parse_zone text name ≡ ok z → origin z ≡ name
  pub origin-insert : (z : c.FileZone) (r : c.Rr) → origin (c.insert z r).0 ≡ origin z
  pub new_zone_empty : (name : String) → concat (c.all (c.new_zone name)) ≡ []
  pub copy_empty : (z : c.FileZone) → concat (c.all (c.copy z)) ≡ []
  pub insert_keeps :
      (z : c.FileZone) (r x : c.Rr)
      → In x (concat (c.all z))
      → In x (concat (c.all (c.insert z r).0))
  pub insert_adds :
      (z z' : c.FileZone) (r r' : c.Rr)
      → In r (concat (c.all z))
      → c.rr_string r' ≡ c.rr_string r
      → origin z ≡ origin z'
      → In r' (concat (c.all (c.insert z' r').0))
  pub insert_only :
      (z : c.FileZone) (r x : c.Rr)
      → In x (concat (c.all (c.insert z r).0))
      → (x ≡ r) ⊎ In x (concat (c.all z))
  pub apex-copy : (z : c.FileZone) → c.apex_if_defined (c.copy z) ≡ c.apex_if_defined z
  pub apex-insert :
      (z z' : c.FileZone) (r : c.Rr)
      → In r (concat (c.all z))
      → origin z ≡ origin z'
      → c.apex_if_defined (c.insert z' r).0 ≡ c.apex_if_defined z'

-- Documented behaviour of miekg/dns: `NewRR` reads the record that `String` prints.
abbrev pub ReadsBack : Coredns → Type 0
ReadsBack c =
    (r : c.Rr)
    → (r' : c.Rr) × (c.new_rr (c.rr_string r) ≡ ok (some r')) × (c.rr_string r' ≡ c.rr_string r)

-- Documented behaviour of `plugin.Zones.Matches`: a match is one of the names.
abbrev pub MatchesLaw : Coredns → Type 0
MatchesLaw c =
    (names : List String) (q : String) → (c.matches names q ≢ "") → In (c.matches names q) names

-- Documented behaviour of the API server: after a status was updated, the objects of the namespace
-- are listed with the updated one among them, and no other has its name.
abbrev pub ListsUpdated : Coredns → Type 0
ListsUpdated c =
    (k : c.Cluster) (obj : Zone)
    → (c.update_status k obj).1 ≡ none
    → (before : List Zone) × (behind : List Zone) × (c.list_zones (c.update_status k obj).0
          obj.namespace
        ≡ ok (before ++ obj ∷ behind))
      × All (λ z. str_eq (c.fqdn z.name) (c.fqdn obj.name) ≡ false) before
      × All (λ z. str_eq (c.fqdn z.name) (c.fqdn obj.name) ≡ false) behind
