-- ===== src/Zupd/State.antt =====
-- The plugin's state (`DynamicUpdate` of dynamicupdate.go), and the parts of the DNS protocol that
-- its handlers name. What the handlers do to the outside is kept beside it: the objects of the
-- cluster, the serial that each SOA record holds, the zones that `Notify` was called for, and the messages written.
use ksdns.Prelude.{ℕ, String, Bool, List}
use ksdns.Zupd.Coredns.{Coredns}
use ksdns.Zupd.Zones.{Zones}

module _ (c : Coredns) where
  -- A request: the name and type of its question, the number of questions, and the records of its
  -- authority section, which RFC 2136 calls the update section.
  pub record Request : Type 0 where
    pub qname : String
    pub qtype : ℕ
    pub opcode : ℕ
    pub question : ℕ
    pub ns : List c.Rr

  -- A reply made by `SetReply`: what the handlers set in it.
  pub record Reply : Type 0 where
    pub rcode : ℕ
    pub authoritative : Bool
    pub answer : List c.Rr
    pub ns : List c.Rr
    pub extra : List c.Rr

  pub record DynamicUpdate : Type 0 where
    pub zones : Zones c.FileZone
    pub namespaces : List String
    -- `d.transfer != nil`
    pub has_transfer : Bool
    pub cluster : c.Cluster
    -- the heap of SOA records: the serial at each address
    pub soa_serials : ℕ → ℕ
    pub notified : List String
    pub written : List Reply

-- What `ServeDNS` returns: a response code with no error, the answer of the next plugin, or a
-- panic by a nil pointer.
pub data Outcome : Type 0 where
  rcode : ℕ → Outcome
  next_plugin : Outcome
  nil_pointer : Outcome
