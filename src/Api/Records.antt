-- ===== src/Api/Records.antt =====
-- The records of a zone of the Ksdns API, and the zone text made of them: apis/dns/v1alpha1/utils.go
-- and ksdns_types.go. Texts of TXT records are kept as their bytes, since `split255` cuts bytes.
pub mod Text
pub mod Serials
use Prim.Native.String.{◌++◌ as str_append}
use ksdns.Prelude.{
  ℕ, ◌%◌, ◌^◌, String, Bool, Option, none, some, List, [], ◌∷◌, ◌++◌, ◌==◌, str_eq, if◌then◌else◌,
}
use ksdns.Prelude.Go.{Error, message, Result, ok, err}
use ksdns.Prelude.Int.{ℤ, to_uint32}
use ksdns.Api.Split.{split255}
use ksdns.Zupd.Coredns.{ZoneSpec}
use ksdns.Zupd.Dns

-- `dns.RR_Header`
pub record Header : Type 0 where
  pub name : String
  pub rrtype : ℕ
  pub class : ℕ
  pub ttl : ℕ

-- The records that the operator makes; `Txt` is `none` where the splitting did not end.
pub data Rr (Ip : Type 0) : Type 0 where
  soa : Header → (ns mbox : String) → (serial refresh retry expire minttl : ℕ) → Rr Ip
  ns : Header → String → Rr Ip
  a : Header → Option Ip → Rr Ip
  aaaa : Header → Option Ip → Rr Ip
  cname : Header → String → Rr Ip
  txt : Header → Option (List (List ℕ)) → Rr Ip
  srv : Header → (priority weight port : ℕ) → String → Rr Ip

-- A record and a zone as they stand in the Ksdns object.
pub record Record : Type 0 where
  pub name : String
  pub type : String
  pub ttl : ℤ
  pub priority : ℕ
  pub weight : ℕ
  pub port : ℕ
  pub target : String
  pub text : List ℕ

pub record Zone : Type 0 where
  pub origin : String
  pub records : List Record

-- What the code takes from miekg/dns, dnsutil and net.
pub record Miekg : Type 1 where
  pub Ip : Type 0
  pub fqdn : String → String
  pub join : String → String → String
  pub parse_ip : String → Option Ip
  pub rr_string : Rr Ip → String

abbrev pub ns_name : String
ns_name = "ns.dns"

-- `fmt.Sprintf("%s\n", line)`, appended.
abbrev pub add_line : String → String → String
add_line text line = str_append text (str_append line "\n")

abbrev pub zone_spec_of : Result String → Result ZoneSpec
zone_spec_of (err e) = err e
zone_spec_of (ok text) = ok (record { zone = text })

module _ (m : Miekg) where
  open m use {Ip, fqdn, join, parse_ip, rr_string}

  -- The clock gives the Unix time in seconds.
  new_soa_record : ℕ → String → Result (List (Rr Ip))
  new_soa_record now zone =
      if str_eq zone ""
      then err (message "zone cannot be empty")
      else ok (
          soa (record { name = fqdn zone; rrtype = 6; class = Dns.class_inet; ttl = 30 })
            (join ns_name (fqdn zone)) (join "hostmaster" (fqdn zone)) (now % 2 ^ 32) 7200 1800
            86400 30
          ∷ [])

  new_address : String → ℕ → Option Ip → ℕ → Rr Ip
  new_address name ttl ip what =
      let hdr : Header = record { name = name; rrtype = what; class = Dns.class_inet; ttl = ttl } in
      if what == Dns.type_a then a hdr ip else aaaa hdr ip

  new_ns_record : String → Option Ip → Result (List (Rr Ip) × List (Rr Ip))
  unfolding new_address
  new_ns_record zone ip =
      let host = fqdn (join ns_name zone) in
      if str_eq zone ""
      then err (message "zone cannot be empty")
      else ok (
        ns (record { name = fqdn zone; rrtype = 2; class = Dns.class_inet; ttl = 30 }) host ∷ [],
        new_address host 30 ip Dns.type_a ∷ [],
      )

  unfoldable pub new_a : String → ℕ → Option Ip → Rr Ip
  new_a name ttl ip =
      a (record { name = name; rrtype = Dns.type_a; class = Dns.class_inet; ttl = ttl }) ip

  new_cname : String → ℕ → String → Rr Ip
  new_cname name ttl target =
      cname (record { name = name; rrtype = Dns.type_cname; class = Dns.class_inet; ttl = ttl })
        (fqdn target)

  new_txt : String → ℕ → List ℕ → Rr Ip
  new_txt name ttl text =
      txt (record { name = name; rrtype = Dns.type_txt; class = Dns.class_inet; ttl = ttl })
        (split255 text)

  new_srv : String → ℕ → String → (weight priority port : ℕ) → Rr Ip
  new_srv name ttl target weight priority port =
      srv (record { name = name; rrtype = Dns.type_srv; class = Dns.class_inet; ttl = ttl })
        priority weight port (fqdn target)

  -- The `switch` of `Record.String`.
  unfoldable pub record_rr : Record → Result (Rr Ip)
  unfolding new_a new_cname new_txt new_srv
  record_rr r =
      if str_eq r.type "A"
      then ok (new_a r.name (to_uint32 r.ttl) (parse_ip r.target))
      else if str_eq r.type "CNAME"
      then ok (new_cname r.name (to_uint32 r.ttl) r.target)
      else if str_eq r.type "SRV"
      then ok (new_srv r.name (to_uint32 r.ttl) r.target r.weight r.priority r.port)
      else if str_eq r.type "TXT"
      then ok (new_txt r.name (to_uint32 r.ttl) r.text)
      else err (message (str_append "unsupported record type: " r.type))

  unfoldable pub record_string : Record → Result String
  record_string r = elim (record_rr r) [ ok rr ↦ ok (rr_string rr) | err e ↦ err e ]

  -- The two loops that concatenate lines.
  unfoldable pub add_rrs : String → List (Rr Ip) → String
  add_rrs text [] = text
  add_rrs text (r ∷ rs) = add_rrs (add_line text (rr_string r)) rs

  unfoldable pub add_records : String → List Record → Result String
  add_records text [] = ok text
  add_records text (r ∷ rs) = elim (record_string r) [
    | err e ↦ err e
    | ok line ↦ add_records (add_line text line) rs
  ]

  unfoldable pub to_rfc1035_zone : ℕ → Zone → Option Ip → Result ZoneSpec
  unfolding new_soa_record new_ns_record
  to_rfc1035_zone now z ns_ip =
      if str_eq z.origin ""
      then err (message "origin cannot be empty")
      else elim (new_soa_record now z.origin) [
        | err e ↦ err e
        | ok apex ↦ elim (new_ns_record z.origin ns_ip) [
          | err e ↦ err e
          | ok (servers, extra) ↦
              zone_spec_of (add_records (add_rrs "" ((apex ++ servers) ++ extra)) z.records)
        ]
      ]
