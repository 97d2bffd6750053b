-- ===== src/Tests/Others.antt =====
-- What the zones of a Ksdns object leave alone, at the small API server.
use ksdns.Prelude.{
  ℕ, zero, suc, String, ◌≡◌, ◌≢◌, refl, sym, ◌∙◌, some, List, [], ◌∷◌, arith, str_eq, eq_iff,
  Bool-cases, inl, inr,
}
use ksdns.Prelude.Go.{Result, ok, err, Result-cases}
use ksdns.Operator.Objects.{Object, Kind, kind_of}
use ksdns.Operator.Ensure.{ensure_zones}
use ksdns.Operator.Retry.Frame.{FrameLaws}
use ksdns.Operator.Ensure.Others.{other_zones_untouched}
use ksdns.Tests.Api.{zone_a}
use ksdns.Tests.Operator.{Server, find, get, current, settle, owner, server, server_laws}
use ksdns.Tests.Rewrites.{written, showing, server_updates, got-key}

falls_through :
    (kind : Kind) (n name : String) (p : Object) (os : List Object)
    → p.name ≢ name
    → find (p ∷ os) kind n name ≡ find os kind n name
falls_through kind n name p os other = ground (arith, eq_iff p.name name)

named_as : (c : Server) (obj : Object) → (current c obj).name ≡ obj.name
named_as c obj = elim (Result-cases (get c (kind_of obj.body) obj.namespace obj.name)) [
  | inl (e, p) ↦ rw p refl
  | inr (found, p) ↦ rw p (got-key c (kind_of obj.body) obj.namespace obj.name found p).2
]

settle_writes_one :
    (n : ℕ) (c : Server) (o : Object) (x : Result Object) (kind : Kind) (in_ns name : String)
    → ((p : Object) → x ≡ ok p → p.name ≢ name)
    → get (settle n c o x).cluster kind in_ns name ≡ get c kind in_ns name
settle_writes_one zero c o (ok p) kind in_ns name other =
    elim (Bool-cases (str_eq in_ns "broken")) [
      | inl e ↦ rw e refl
      | inr e ↦ rw e (falls_through kind in_ns name p c.objects (other p refl))
    ]
settle_writes_one zero c o (err e) kind in_ns name other = refl
settle_writes_one (suc n) c o x kind in_ns name other = refl

settle_keeps_name :
    (n : ℕ) (c : Server) (o : Object) (x : Result Object) (name : String)
    → o.name ≡ name
    → ((p : Object) → x ≡ ok p → p.name ≡ name)
    → (settle n c o x).object.name ≡ name
settle_keeps_name zero c o (ok p) name h keeps = keeps p refl
settle_keeps_name zero c o (err e) name h keeps = h
settle_keeps_name (suc n) c o x name h keeps = h

server_frame : FrameLaws server
server_frame = record {
  writes_one = λ c obj f kind in_ns name keeps other.
      settle_writes_one c.pending c (current c obj) (f (current c obj)) kind in_ns name
        (λ p h e. other (sym (named_as c obj) ∙ sym (keeps (current c obj) p h) ∙ e));
  keeps_name = λ c obj f keeps.
      settle_keeps_name c.pending c (current c obj) (f (current c obj)) obj.name (named_as c obj)
        (λ p h. keeps (current c obj) p h ∙ named_as c obj);
}

abbrev other_zone : Object
other_zone = record written { name = "b." }

abbrev two_zones : Server
two_zones = record { objects = written ∷ other_zone ∷ []; pending = 1 }

other_zones_untouched_example :
    get
      (ensure_zones server showing 8 (some 2) owner (zone_a ∷ []) two_zones).1
      Kind.zone_kind
      "ns"
      "b."
    ≡ get two_zones Kind.zone_kind "ns" "b."
other_zones_untouched_example =
    other_zones_untouched server server_updates server_frame owner showing 8 (some 2) 4 server_laws
      (zone_a ∷ []) two_zones Kind.zone_kind "ns" "b." (λ e. ground (arith, eq_iff "a." "b."), tt)
