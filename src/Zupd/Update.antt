-- ===== src/Zupd/Update.antt =====
-- The loop of `ServeDNS` that applies the records of an update to the dynamic zone, and
-- `updateType` (dynamicupdate.go).
pub mod Effects
pub mod Acceptance
use ksdns.Prelude.{
  ℕ, zero, suc, Bool, Option, none, some, List, [], ◌∷◌, ◌||◌, not, ◌==◌, if◌then◌else◌,
}
use ksdns.Prelude.Go.{Error}
use ksdns.Zupd.Coredns.{Coredns}
use ksdns.Zupd.Dns

-- The texts that `updateType` returns: "insert", "remove", "removeName", "removeRRSet", "unknown".
pub data UpdateType : Type 0 where
  insert remove remove_name remove_rrset unknown : UpdateType

unfoldable pub update_type : ℕ → ℕ → UpdateType
update_type class rrtype =
    if class == Dns.class_inet
    then insert
    else if class == Dns.class_none
    then remove
    else if class == Dns.class_any
    then (if rrtype == Dns.type_any then remove_name else remove_rrset)
    else unknown

-- Where the loop stands: it goes on with the zone, or it returns a code and leaves the zone.
pub data Progress (FileZone : Type 0) : Type 0 where
  continue : FileZone → Progress FileZone
  stop : ℕ → FileZone → Progress FileZone

abbrev pub and_then : {F : Type 0} → Progress F → (F → Progress F) → Progress F
and_then (continue z) f = f z
and_then (stop code z) f = stop code z

unfoldable pub is_allowed : ℕ → Bool
is_allowed t =
    t == Dns.type_txt
    || t == Dns.type_cname
    || t == Dns.type_a
    || t == Dns.type_aaaa
    || t == Dns.type_srv

module _ (c : Coredns) where
  open c use {FileZone, Rr, rr_name, rr_type, rr_class, is_domain_name}

  abbrev inserted : FileZone × Option Error → Progress FileZone
  inserted (z, none) = continue z
  inserted (z, some e) = stop Dns.rcode_server_failure z

  abbrev apply_type : UpdateType → FileZone → Rr → Progress FileZone
  apply_type insert dz rr = inserted (c.insert dz rr)
  apply_type remove dz rr = continue (c.remove dz rr)
  apply_type _ dz rr = stop Dns.rcode_not_implemented dz

  unfoldable pub apply_rr : FileZone → Rr → Progress FileZone
  apply_rr dz rr =
      if not (is_allowed (rr_type rr))
      then stop Dns.rcode_refused dz
      else if is_domain_name (rr_name rr)
      then apply_type (update_type (rr_class rr) (rr_type rr)) dz rr
      else continue dz

  unfoldable pub apply_rrs : FileZone → List Rr → Progress FileZone
  apply_rrs dz [] = continue dz
  apply_rrs dz (rr ∷ rrs) = and_then (apply_rr dz rr) (λ dz'. apply_rrs dz' rrs)

  -- `for range r.Question`: the whole section is applied once for each question.
  unfoldable pub apply_questions : ℕ → FileZone → List Rr → Progress FileZone
  apply_questions zero dz rrs = continue dz
  apply_questions (suc k) dz rrs = and_then (apply_rrs dz rrs) (λ dz'. apply_questions k dz' rrs)
