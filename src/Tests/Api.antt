-- ===== src/Tests/Api.antt =====
-- The theorems on the API's records, at one zone.
use Prim.Native.String.{◌++◌ as str_append}
use ksdns.Prelude.{
  ℕ, zero, suc, String, ◌≡◌, ◌≢◌, true, some, List, [], ◌∷◌, ◌++◌, arith, map, All, eq_iff, ◌↔◌,
}
use ksdns.Prelude.Go.{ok}
use ksdns.Prelude.Int.{pos}
use ksdns.Zupd.Coredns.{ZoneSpec}
use ksdns.Api.Split.{split255}
use ksdns.Api.Split.Chunks.{AreChunks, split255_total}
use ksdns.Api.Records.{
  Rr, soa, ns, a, aaaa, cname, txt, srv, Record, Zone, Miekg, record_rr, to_rfc1035_zone,
}
use ksdns.Api.Records.Text.{is_supported, lines, line_of, heading, to_rfc1035_zone_exactly}

-- Every name is absolute, an address is a number, and a record prints as its type and name.
abbrev print : Rr ℕ → String
print (soa h _ _ _ _ _ _ _) = str_append "SOA " h.name
print (ns h _) = str_append "NS " h.name
print (a h _) = str_append "A " h.name
print (aaaa h _) = str_append "AAAA " h.name
print (cname h _) = str_append "CNAME " h.name
print (txt h _) = str_append "TXT " h.name
print (srv h _ _ _ _) = str_append "SRV " h.name

abbrev pub miekg : Miekg
miekg = record {
  Ip = ℕ;
  fqdn = λ n. n;
  join = λ n z. str_append n (str_append "." z);
  parse_ip = λ t. some 1;
  rr_string = print;
}

abbrev pub www : Record
www = record {
  name = "www.a.";
  type = "A";
  ttl = pos 300;
  priority = 0;
  weight = 0;
  port = 0;
  target = "10.0.0.1";
  text = [];
}

abbrev pub zone_a : Zone
zone_a = record { origin = "a."; records = www ∷ [] }

pub named : zone_a.origin ≢ ""
named h = ground (arith, eq_iff "a." "")

abbrev bytes : ℕ → List ℕ
bytes zero = []
bytes (suc n) = 65 ∷ bytes n

split255_total_example :
    (chunks : List (List ℕ)) × (split255 (bytes 255) ≡ some chunks) × AreChunks (bytes 255) chunks
split255_total_example = split255_total (bytes 255)

abbrev made : ZoneSpec
made = record {
  zone =
      lines miekg
        (map print (heading miekg 7 "a." (some 2)) ++ line_of miekg (record_rr miekg www) ∷ []);
}

to_rfc1035_zone_exactly_example : (to_rfc1035_zone miekg 7 zone_a (some 2) ≡ ok made) ↔ (
    (zone_a.origin ≢ "")
    × All (λ r. is_supported r ≡ true) (www ∷ [])
    × (made ≡ record {
      zone =
          lines miekg
            (map print (heading miekg 7 "a." (some 2)) ++ line_of miekg (record_rr miekg www) ∷ []);
    }))
to_rfc1035_zone_exactly_example = to_rfc1035_zone_exactly miekg 7 zone_a (some 2) made
