-- ===== src/Api/Records/Serials.antt =====
-- The serial of the operator's zones is the clock, so a zone's text changes with it.
use text.Mathlib.TextLemmas.{append_cancel_right}
use ksdns.Prelude.{ℕ, String, ◌≡◌, ◌≢◌, sym, ap, ◌∙◌, Option, ◌++◌, map, ◌%◌, ◌^◌}
use ksdns.Prelude.Go.{ok, ok-injective}
use ksdns.Zupd.Coredns.{ZoneSpec}
use ksdns.Api.Records.{Header, soa, Miekg, Zone, record_rr, to_rfc1035_zone}
use ksdns.Api.Records.Text.{line_of, lines, heading, to_rfc1035_zone_text, to_rfc1035_zone_refuses}

-- Documented behaviour of miekg/dns: the text of an SOA record shows its serial.
abbrev pub ShowsSerial : Miekg → Type 0
ShowsSerial m =
    (h : Header) (ns mbox : String) (s t refresh retry expire minttl : ℕ)
    → m.rr_string (soa h ns mbox s refresh retry expire minttl)
      ≡ m.rr_string (soa h ns mbox t refresh retry expire minttl)
    → s ≡ t

module _ (m : Miekg) (shows : ShowsSerial m) (z : Zone) (ip : Option (m.Ip)) where
  abbrev text_at : ℕ → String
  text_at now = lines m (
      map m.rr_string (heading m now z.origin ip) ++ map (λ r. line_of m (record_rr m r)) z.records)

  text_at-injective : (s t : ℕ) → text_at s ≡ text_at t → s % 2 ^ 32 ≡ t % 2 ^ 32
  text_at-injective s t e =
      shows _ _ _ (s % 2 ^ 32) (t % 2 ^ 32) _ _ _ _ (append_cancel_right _ _ _ e)

  -- A zone that is converted at one time is converted at every other, and to another text unless
  -- the two times agree modulo 2³².
  pub converted_again :
      (earlier later : ℕ) (spec : ZoneSpec)
      → earlier % 2 ^ 32 ≢ later % 2 ^ 32
      → to_rfc1035_zone m earlier z ip ≡ ok spec
      → (spec' : ZoneSpec) × (to_rfc1035_zone m later z ip ≡ ok spec') × (spec'.zone ≢ spec.zone)
  converted_again earlier later spec differ before =
      let (named, supported) = to_rfc1035_zone_refuses m earlier z ip spec before in
      let same : spec ≡ record { zone = text_at earlier } =
        ok-injective (sym before ∙ to_rfc1035_zone_text m earlier z ip named supported) in
      (
        record { zone = text_at later },
        to_rfc1035_zone_text m later z ip named supported,
        λ e. differ (sym (text_at-injective later earlier (e ∙ ap (λ p. p.zone) same))),
      )
