-- ===== src/Tests/Rewrites.antt =====
-- A zone written again, at the small API server, with a miekg/dns whose SOA records show their
-- serial.
use Prim.Native.String.{◌++◌ as str_append}
use text.Mathlib.TextLemmas.{append_cancel_left, append-eq-nil_iff}
use ksdns.Prelude.{
  ℕ, zero, suc, String, Bool, ◌≡◌, ◌≢◌, refl, sym, ap, ◌∙◌, true, false, none, some, List, [], ◌∷◌,
  ◌++◌, arith, str_eq, eq_iff, map, ◌&&◌, ◌==◌, Bool-cases, inl, inr,
}
use ksdns.Prelude.Go.{Result, ok, err, ok-injective}
use ksdns.Zupd.Coredns.{ZoneSpec}
use ksdns.Api.Records.{Rr, soa, ns, a, aaaa, cname, txt, srv, Miekg, record_rr}
use ksdns.Api.Records.Text.{lines, line_of, heading, to_rfc1035_zone_exactly}
use ksdns.Api.Records.Serials.{ShowsSerial}
use ksdns.Operator.Objects.{Object, Kind, kind_of, zone, config_map}
use ksdns.Operator.Labels.{zupd_name}
use ksdns.Operator.Ensure.{ensure_zone, ensure_zupd_config_map}
use ksdns.Operator.Ensure.Restores.{zupd_map, corefile_data, corefile_restored}
use ksdns.Operator.Ensure.Stored.{Given, UpdateLaws}
use ksdns.Operator.Ensure.Rewrites.{zone_object, zone_rewritten}
use ksdns.Tests.Api.{miekg, zone_a, named, www}
use ksdns.Tests.Operator.{
  Server, kind_id, find, get, current, current-found, or_given, settle, owner, server, server_laws,
}

abbrev tally : ℕ → String
tally zero = ""
tally (suc n) = str_append "x" (tally n)

no_stroke : (n : ℕ) → str_append "x" (tally n) ≢ ""
no_stroke n e = ground (arith, eq_iff "x" "", (append-eq-nil_iff {p = "x"} {q = tally n}).0 e)

tally-injective : (s t : ℕ) → tally s ≡ tally t → s ≡ t
tally-injective zero zero e = refl
tally-injective zero (suc t) e = absurd (no_stroke t (sym e))
tally-injective (suc s) zero e = absurd (no_stroke s e)
tally-injective (suc s) (suc t) e = ap suc (tally-injective s t (append_cancel_left _ _ _ e))

abbrev print : Rr ℕ → String
print (soa h _ _ serial _ _ _ _) = tally serial
print (ns h _) = "NS"
print (a h _) = "A"
print (aaaa h _) = "AAAA"
print (cname h _) = "CNAME"
print (txt h _) = "TXT"
print (srv h _ _ _ _) = "SRV"

abbrev pub showing : Miekg
showing = record miekg { rr_string = print }

shows : ShowsSerial showing
shows h n mbox s t refresh retry expire minttl e = tally-injective s t e

pub all_three : (p q r : Bool) → (p && q && r) ≡ true → (p ≡ true) × (q ≡ true) × (r ≡ true)
all_three p q r h = ground arith

pub found-key :
    (os : List Object) (kind : Kind) (n name : String) (o : Object)
    → find os kind n name ≡ ok o
    → (o.namespace ≡ n) × (o.name ≡ name)
found-key [] kind n name o h = cc
found-key (x ∷ xs) kind n name o h =
    elim (Bool-cases
      ((kind_id (kind_of x.body) == kind_id kind) && str_eq x.namespace n && str_eq x.name name)) [
        | inl e ↦
            let same : x ≡ o = ok-injective (rw e at h) in
            let (_, in_namespace, named_so) = all_three _ _ _ e in
            (
              ap (λ z. z.namespace) (sym same) ∙ (eq_iff x.namespace n).0 in_namespace,
              ap (λ z. z.name) (sym same) ∙ (eq_iff x.name name).0 named_so,
            )
        | inr e ↦ found-key xs kind n name o (rw e at h)
      ]

pub got-key :
    (c : Server) (kind : Kind) (n name : String) (o : Object)
    → get c kind n name ≡ ok o
    → (str_eq n "broken" ≡ false) × (o.namespace ≡ n) × (o.name ≡ name)
got-key c kind n name o h = elim (Bool-cases (str_eq n "broken")) [
  | inl e ↦ absurd (ground arith)
  | inr e ↦
      let (in_namespace, named_so) = found-key c.objects kind n name o (rw e at h) in
      (e, in_namespace, named_so)
]

settled :
    (n : ℕ) (c : Server) (o : Object) (x : Result Object)
    → (settle n c o x).failure ≡ none
    → (p : Object) × (x ≡ ok p) × ((settle n c o x).cluster ≡ record c { objects = p ∷ c.objects })
settled zero c o (ok p) h = (p, refl, refl)
settled zero c o (err e) h = cc
settled (suc n) c o x h = cc

first_found :
    (kind : Kind) (n name : String) (p : Object) (os : List Object)
    → kind_of p.body ≡ kind
    → p.namespace ≡ n
    → p.name ≡ name
    → find (p ∷ os) kind n name ≡ ok p
first_found kind n name p os k e f = ground (arith, eq_iff p.namespace n, eq_iff p.name name)

current-Given :
    (c : Server) (obj base : Object)
    → Given server c obj base
    → (str_eq obj.namespace "broken" ≡ false)
      × (base.namespace ≡ obj.namespace)
      × (base.name ≡ obj.name)
      × (current c obj ≡ base)
current-Given c obj base (inl found) =
    let (working, in_namespace, named_so) =
      got-key c (kind_of obj.body) obj.namespace obj.name base found in
    (working, in_namespace, named_so, current-found c obj base found)
current-Given c obj base (inr (e, missing, absent, same)) =
    elim (Bool-cases (str_eq obj.namespace "broken")) [
      | inl broken ↦ absurd (ground arith)
      | inr working ↦ (
        working,
        ap (λ o. o.namespace) same,
        ap (λ o. o.name) same,
        ap (or_given obj) missing ∙ sym same,
      )
    ]

stores :
    (c : Server) (obj base : Object) (f : Object → Result Object)
    → Given server c obj base
    → ((p : Object)
        → f base ≡ ok p
        → (p.name ≡ base.name)
          × (p.namespace ≡ base.namespace)
          × (kind_of p.body ≡ kind_of obj.body))
    → (settle c.pending c (current c obj) (f (current c obj))).failure ≡ none
    → (wanted : Object) × (stored : Object) × (f base ≡ ok wanted)
      × (get
            (settle c.pending c (current c obj) (f (current c obj))).cluster
            (kind_of obj.body)
            obj.namespace
            obj.name
          ≡ ok stored)
      × (stored.body ≡ wanted.body)
stores c obj base f given keeps accepted =
    let (p, made, left) = settled c.pending c (current c obj) (f (current c obj)) accepted in
    let (working, in_namespace, named_so, same) = current-Given c obj base given in
    let made_of : f base ≡ ok p = ap f (sym same) ∙ made in
    let (n, s, k) = keeps p made_of in
    (
      p,
      p,
      made_of,
      ap (λ t. get t (kind_of obj.body) obj.namespace obj.name) left
          ∙ rw working (
              first_found (kind_of obj.body) obj.namespace obj.name p c.objects k (s ∙ in_namespace)
                (n ∙ named_so)),
      refl,
    )

pub server_updates : UpdateLaws server
server_updates = record {
  owner_keeps = λ o a p h.
      let same = ok-injective h in
      (ap (λ z. z.name) (sym same), ap (λ z. z.namespace) (sym same), ap (λ z. z.body) (sym same));
  update_stores =
      λ c obj base f of_kind given keeps accepted. stores c obj base f given keeps accepted;
}

abbrev pub text_at : ℕ → ZoneSpec
text_at now = record {
  zone = lines showing (
      map print (heading showing now "a." (some 2))
      ++ line_of showing (record_rr showing www) ∷ []);
}

abbrev pub written : Object
written = record (zone_object owner zone_a) { body = zone (text_at 7) }

abbrev holding : Server
holding = record { objects = written ∷ []; pending = 0 }

zone_rewritten_example :
    (stored : Object) × (get
        (ensure_zone server showing 8 (some 2) owner zone_a holding).1
        Kind.zone_kind
        "ns"
        "a."
      ≡ ok stored)
    × (stored.body ≢ written.body)
zone_rewritten_example =
    zone_rewritten server server_updates owner zone_a showing shows (some 2) 4 7 8 holding written
      (text_at 7) server_laws (omega arith) (λ e. absurd (omega arith))
      ((to_rfc1035_zone_exactly showing 7 zone_a (some 2) (text_at 7)).1 (named, (refl, tt), refl))
      refl refl (λ next. refl)

-- A config map with a Corefile that somebody has edited.
abbrev edited : Server
edited = record {
  objects =
      record (zupd_map owner) {
        body = config_map (("Corefile", "edited") ∷ []) (("key", "kept") ∷ []);
      }
      ∷ [];
  pending = 0;
}

edited_found :
    get edited Kind.config_map_kind "ns" (zupd_name owner)
    ≡ ok (record (zupd_map owner) {
      body = config_map (("Corefile", "edited") ∷ []) (("key", "kept") ∷ []);
    })
unfolding zupd_name
edited_found = refl

corefile_restored_example :
    (stored : Object) × (get
        (ensure_zupd_config_map server owner edited).1
        Kind.config_map_kind
        "ns"
        (zupd_name owner)
      ≡ ok stored)
    × (stored.body ≡ config_map (corefile_data server owner [] []) (("key", "kept") ∷ []))
corefile_restored_example =
    corefile_restored server server_updates owner 4 edited
      (record (zupd_map owner) {
        body = config_map (("Corefile", "edited") ∷ []) (("key", "kept") ∷ []);
      })
      [] [] server_laws (omega arith) refl refl (inl edited_found) refl
