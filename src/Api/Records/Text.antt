-- ===== src/Api/Records/Text.antt =====
-- Which zones have a text, and what it is.
use Prim.Native.String.{◌++◌ as str_append}
use mathlib.Core.Bool.{false≢true}
use text.Mathlib.TextLemmas.{append_assoc, nil-append, append-nil}
use ksdns.Prelude.{
  ℕ, ◌^◌, String, ◌≡◌, ◌≢◌, refl, sym, ap, ◌∙◌, Bool, true, false, Option, List, [], ◌∷◌, ◌++◌,
  arith, str_eq, eq_iff, All, inl, inr, ◌||◌, Bool-cases, map, ◌%◌, ◌≤◌, ◌↔◌,
}
use ksdns.Prelude.Go.{message, Result, ok, err, ok-injective}
use ksdns.Prelude.Int.{pos}
use ksdns.Zupd.Coredns.{ZoneSpec}
use ksdns.Api.Records.{
  Record, Zone, Rr, soa, ns, a, aaaa, cname, txt, srv, Header, Miekg, record_rr, record_string,
  zone_spec_of, add_line, add_rrs, add_records, to_rfc1035_zone,
}

-- The four record types.
abbrev pub is_supported : Record → Bool
is_supported r =
    str_eq r.type "A" || str_eq r.type "CNAME" || str_eq r.type "SRV" || str_eq r.type "TXT"

zone_spec_of-ok :
    (r : Result String) {spec : ZoneSpec} → zone_spec_of r ≡ ok spec → (t : String) × (r ≡ ok t)
zone_spec_of-ok (ok t) h = (t, refl)
zone_spec_of-ok (err e) h = cc

module _ (m : Miekg) where
  open m use {Ip, rr_string}

  abbrev pub line_of : Result (Rr Ip) → String
  line_of (ok rr) = rr_string rr
  line_of (err e) = ""

  abbrev header_of : Rr Ip → Header
  header_of (soa h _ _ _ _ _ _ _) = h
  header_of (ns h _) = h
  header_of (a h _) = h
  header_of (aaaa h _) = h
  header_of (cname h _) = h
  header_of (txt h _) = h
  header_of (srv h _ _ _ _) = h

  -- The text of a list of lines, each ended by a line feed.
  abbrev pub lines : List String → String
  lines [] = ""
  lines (l ∷ ls) = str_append l (str_append "\n" (lines ls))

  record_string-ok :
      (r : Record) → is_supported r ≡ true → record_string m r ≡ ok (line_of (record_rr m r))
  unfolding record_rr record_string
  record_string-ok r h = ground arith

  record_string-err :
      (r : Record)
      → is_supported r ≡ false
      → record_string m r ≡ err (message (str_append "unsupported record type: " r.type))
  unfolding record_rr record_string
  record_string-err r h = ground arith

  lines-append : (ls ks : List String) → lines (ls ++ ks) ≡ str_append (lines ls) (lines ks)
  lines-append [] ks = sym (nil-append _)
  lines-append (l ∷ ls) ks =
      ap (λ t. str_append l (str_append "\n" t)) (lines-append ls ks)
      ∙ ap (str_append l) (sym (append_assoc "\n" (lines ls) (lines ks)))
      ∙ sym (append_assoc l (str_append "\n" (lines ls)) (lines ks))

  add_line-append :
      (text line rest : String)
      → str_append (add_line text line) rest
        ≡ str_append text (str_append line (str_append "\n" rest))
  add_line-append text line rest =
      append_assoc text (str_append line "\n") rest
      ∙ ap (str_append text) (append_assoc line "\n" rest)

  add_rrs_lem :
      (text : String) (rs : List (Rr Ip))
      → add_rrs m text rs ≡ str_append text (lines (map rr_string rs))
  unfolding add_rrs
  add_rrs_lem text [] = sym (append-nil text)
  add_rrs_lem text (r ∷ rs) =
      add_rrs_lem (add_line text (rr_string r)) rs ∙ add_line-append text (rr_string r) _

  add_records_lem :
      (text : String) (rs : List Record)
      → All (λ r. is_supported r ≡ true) rs
      → add_records m text rs ≡ ok (str_append text (lines (map (λ r. line_of (record_rr m r)) rs)))
  unfolding add_records
  add_records_lem text [] h = ap ok (sym (append-nil text))
  add_records_lem text (r ∷ rs) (h, hs) =
      rw (record_string-ok r h, add_records)
        (add_records_lem (add_line text (line_of (record_rr m r))) rs hs
          ∙ ap ok (add_line-append text (line_of (record_rr m r)) _))

  add_records-supported :
      (text : String) (rs : List Record) (t : String)
      → add_records m text rs ≡ ok t
      → All (λ r. is_supported r ≡ true) rs
  unfolding add_records
  add_records-supported text [] t h = tt
  add_records-supported text (r ∷ rs) t h = elim (Bool-cases (is_supported r)) [
    | inl e ↦ (
      e,
      add_records-supported (add_line text (line_of (record_rr m r))) rs t
          (rw (record_string-ok r e, add_records) at h),
    )
    | inr e ↦
        let impossible : err (message (str_append "unsupported record type: " r.type)) ≡ ok t =
          rw (record_string-err r e, add_records) at h in
        cc
  ]

  -- The three records that stand above a zone's own: SOA, NS and the address of the name server.
  abbrev pub heading : ℕ → String → Option Ip → List (Rr Ip)
  heading now origin ip =
      soa (record { name = m.fqdn origin; rrtype = 6; class = 1; ttl = 30 })
        (m.join "ns.dns" (m.fqdn origin)) (m.join "hostmaster" (m.fqdn origin)) (now % 2 ^ 32) 7200
        1800 86400 30
      ∷ ns (record { name = m.fqdn origin; rrtype = 2; class = 1; ttl = 30 })
          (m.fqdn (m.join "ns.dns" origin))
      ∷ a (record { name = m.fqdn (m.join "ns.dns" origin); rrtype = 1; class = 1; ttl = 30 }) ip
      ∷ []

  to_rfc1035_zone_lem :
      (now : ℕ) (z : Zone) (ip : Option Ip)
      → str_eq z.origin "" ≡ false
      → to_rfc1035_zone m now z ip
        ≡ zone_spec_of (add_records m (add_rrs m "" (heading now z.origin ip)) z.records)
  unfolding to_rfc1035_zone
  to_rfc1035_zone_lem now z ip e = ground arith

  -- A zone with an origin and supported records only is converted, and its text has one line for
  -- each record, in order: the SOA, NS and address records, then the zone's own.
  pub to_rfc1035_zone_text :
      (now : ℕ) (z : Zone) (ip : Option Ip)
      → z.origin ≢ ""
      → All (λ r. is_supported r ≡ true) z.records
      → to_rfc1035_zone m now z ip
        ≡ ok (record {
          zone = lines (
              map rr_string (heading now z.origin ip)
              ++ map (λ r. line_of (record_rr m r)) z.records);
        })
  to_rfc1035_zone_text now z ip named supported = elim (Bool-cases (str_eq z.origin "")) [
    | inl e ↦ absurd (named ((eq_iff z.origin "").0 e))
    | inr e ↦
        let own = lines (map (λ r. line_of (record_rr m r)) z.records) in
        to_rfc1035_zone_lem now z ip e
        ∙ ap zone_spec_of (
            add_records_lem (add_rrs m "" (heading now z.origin ip)) z.records supported
            ∙ ap (λ t. ok (str_append t own))
                (add_rrs_lem "" (heading now z.origin ip) ∙ nil-append _)
            ∙ ap ok (sym (lines-append (map rr_string (heading now z.origin ip)) _)))
  ]

  -- Only a zone that has an origin and no unsupported record is converted.
  pub to_rfc1035_zone_refuses :
      (now : ℕ) (z : Zone) (ip : Option Ip) (spec : ZoneSpec)
      → to_rfc1035_zone m now z ip ≡ ok spec
      → (z.origin ≢ "") × All (λ r. is_supported r ≡ true) z.records
  to_rfc1035_zone_refuses now z ip spec h = elim (Bool-cases (str_eq z.origin "")) [
    | inl e ↦ absurd (unfold to_rfc1035_zone in ground arith)
    | inr e ↦
        let (t, done) =
          zone_spec_of-ok (add_records m (add_rrs m "" (heading now z.origin ip)) z.records)
            (sym (to_rfc1035_zone_lem now z ip e) ∙ h) in
        (
          λ empty. false≢true (sym e ∙ (eq_iff z.origin "").1 empty),
          add_records-supported (add_rrs m "" (heading now z.origin ip)) z.records t done,
        )
  ]

  -- A zone is converted exactly if it has an origin and supported records only, and the result is
  -- then its text, with one line for each record, in order: the SOA, NS and address records, then
  -- the zone's own.
  pub to_rfc1035_zone_exactly :
      (now : ℕ) (z : Zone) (ip : Option Ip) (spec : ZoneSpec)
      → (to_rfc1035_zone m now z ip ≡ ok spec) ↔ (
          (z.origin ≢ "")
          × All (λ r. is_supported r ≡ true) z.records
          × (spec ≡ record {
            zone = lines (
                map rr_string (heading now z.origin ip)
                ++ map (λ r. line_of (record_rr m r)) z.records);
          }))
  to_rfc1035_zone_exactly now z ip spec = (
    λ converted.
        let (named, supported) = to_rfc1035_zone_refuses now z ip spec converted in
        (
          named,
          supported,
          ok-injective (sym converted ∙ to_rfc1035_zone_text now z ip named supported),
        ),
    λ (named, supported, same). to_rfc1035_zone_text now z ip named supported ∙ ap ok (sym same),
  )

  -- Where the API allows the time to live (at most 2147483647), a record that is made has the time
  -- to live and the name that were asked for: the conversion to 32 bits loses nothing.
  record_rr_ttl :
      (r : Record) (n : ℕ) (rr : Rr Ip)
      → r.ttl ≡ pos n
      → n ≤ 2147483647
      → record_rr m r ≡ ok rr
      → ((header_of rr).ttl ≡ n) × ((header_of rr).name ≡ r.name)
  unfolding record_rr
  record_rr_ttl r n rr e le h = ground arith
