-- ===== src/Deployed/Access.antt =====
-- What the role that the operator gives to zupd (`ensureZupdNamespaceAdminRole`,
-- controllers/dns/zupd.go) allows the plugin's `Status().Update` (dynamicupdate.go).
use ksdns.Prelude.{
  ℕ, String, ◌≡◌, ◌≢◌, ◌↔◌, inl, inr, refl, sym, subst, Bool, true, false, Option, none, List, [],
  ◌∷◌, ◌++◌, In, arith, str_eq, eq_refl, Bool-cases, ◌||◌, ◌&&◌, if◌then◌else◌,
}
use ksdns.Prelude.Go.{Error}
use ksdns.Operator.Objects.{PolicyRule, Object, Ksdns, role, role_binding}
use ksdns.Operator.Labels.{zupd_name}
use ksdns.Operator.Resources.{zupd_role, zupd_role_binding, zupd_rules, zupd_deployment_spec}
use ksdns.Zupd.Coredns.{Coredns, Zone}
use ksdns.Zupd.State.{Request, Reply, DynamicUpdate, rcode}
use ksdns.Zupd.Dns
use ksdns.Zupd.Serve.{handle_update, status_of, soa_serial}
use ksdns.Zupd.Serve.Outcomes.{handle_update_success}

-- A request to the API server: the text of `resource` has the subresource behind a slash, and
-- `wildcard` is the text that stands for the subresource of every resource.
pub record Attributes : Type 0 where
  pub api_group : String
  pub resource : String
  pub wildcard : String
  pub verb : String

abbrev pub zones : String → Attributes
zones verb = record {
  api_group = "rfc1035.ksdns.io";
  resource = "zones";
  wildcard = "*";
  verb = verb;
}

abbrev pub zones_status : String → Attributes
zones_status verb = record {
  api_group = "rfc1035.ksdns.io";
  resource = "zones/status";
  wildcard = "*/status";
  verb = verb;
}

abbrev is_listed : String → List String → Bool
is_listed a [] = false
is_listed a (x ∷ xs) = str_eq x a || is_listed a xs

-- A rule grants a request if it lists its group, its resource and its verb, or their wildcards.
abbrev pub grants : Attributes → PolicyRule → Bool
grants a rule =
    (is_listed a.api_group rule.api_groups || is_listed "*" rule.api_groups)
    && (is_listed a.resource rule.resources
        || (is_listed "*" rule.resources || is_listed a.wildcard rule.resources))
    && (is_listed a.verb rule.verbs || is_listed "*" rule.verbs)

-- The rules of the roles of a name.
abbrev rules_of : String → List Object → List PolicyRule
rules_of name [] = []
rules_of name (o ∷ objects) =
    let rest = rules_of name objects in
    elim o.body [ role rules ↦ if str_eq o.name name then rules ++ rest else rest | _ ↦ rest ]

-- The rules that the bindings among `bindings` give to a service account.
abbrev pub bound_rules : String → List Object → List Object → List PolicyRule
bound_rules account objects [] = []
bound_rules account objects (o ∷ bindings) =
    let rest = bound_rules account objects bindings in
    elim o.body [
      | role_binding subject role_ref ↦
          if str_eq subject.kind "ServiceAccount" && str_eq subject.name account
          then rules_of role_ref.name objects ++ rest
          else rest
      | _ ↦ rest
    ]

-- The API server's authorizer. Its documented behaviour: a service account may do what a rule of a
-- role that is bound to it grants, and nothing else.
pub record Authorizer : Type 1 where
  pub allows : List Object → String → Attributes → Bool
  pub allows_granted :
      (objects : List Object) (account : String) (a : Attributes)
      → (allows objects account a ≡ true) ↔ (
          (rule : PolicyRule) × In rule (bound_rules account objects objects)
          × (grants a rule ≡ true))

-- The objects that the operator makes for zupd's rights, and the account that zupd runs under.
abbrev pub access : Ksdns → List Object
access owner = zupd_role owner ∷ zupd_role_binding owner ∷ []

abbrev pub account_of : Ksdns → String
account_of owner = (zupd_deployment_spec owner).service_account_name

-- Documented behaviour of the API server: the update of a status is refused unless it is allowed.
abbrev pub Enforces : Authorizer → Coredns → List Object → String → Type 0
Enforces authorizer c objects account =
    (k : c.Cluster) (obj : Zone)
    → authorizer.allows objects account (zones_status "update") ≡ false
    → (c.update_status k obj).1 ≢ none

-- The account of zupd has the rules of its role and no others.
zupd_bound :
    (owner : Ksdns) → bound_rules (account_of owner) (access owner) (access owner) ≡ zupd_rules
unfolding zupd_role zupd_role_binding zupd_deployment_spec
zupd_bound owner = rw (eq_refl (zupd_name owner)) refl

status_not_granted :
    (rule : PolicyRule) → In rule zupd_rules → grants (zones_status "update") rule ≡ false
status_not_granted rule (inl e) = rw e refl
status_not_granted rule (inr (inl e)) = rw e refl
status_not_granted rule (inr (inr (inl e))) = rw e refl
status_not_granted rule (inr (inr (inr i))) = absurd i

module _ (authorizer : Authorizer) (owner : Ksdns) where
  open authorizer use {allows, allows_granted}

  may_update : allows (access owner) (account_of owner) (zones "update") ≡ true
  may_update =
      (allows_granted (access owner) (account_of owner) (zones "update")).1
        (_, subst (In _) (sym (zupd_bound owner)) (inl refl), refl)

  may_not_save : allows (access owner) (account_of owner) (zones_status "update") ≡ false
  may_not_save =
      elim (Bool-cases (allows (access owner) (account_of owner) (zones_status "update"))) [
        | inl e ↦
            let (rule, bound, granted) =
              (allows_granted (access owner) (account_of owner) (zones_status "update")).0 e in
            absurd
              (ground (arith, status_not_granted rule (subst (In rule) (zupd_bound owner) bound)))
        | inr e ↦ e
      ]

  module _ (c : Coredns) (enforces : Enforces authorizer c (access owner) (account_of owner)) where
    -- The role that the operator gives zupd allows it to update its zones but not their status,
    -- where the plugin saves what updates add: if the API server refuses what is not allowed, no
    -- update of the deployed zupd answers success.
    pub status_forbidden :
        (write_msg : Reply c → Option Error) (now : ℕ) (zone : String) (dz : c.FileZone)
        (r : Request c) (d : DynamicUpdate c)
        → (allows (access owner) (account_of owner) (zones "update") ≡ true)
          × (allows (access owner) (account_of owner) (zones_status "update") ≡ false)
          × ((handle_update c write_msg now zone dz r d).0 ≢ rcode Dns.rcode_success)
    status_forbidden write_msg now zone dz r d = (
      may_update,
      may_not_save,
      λ success.
          let (dz', obj, _, _, stored, _, _) =
            handle_update_success c write_msg now zone dz r d success in
          enforces d.cluster (record obj { status = status_of c dz' (soa_serial now) }) may_not_save
            stored,
    )
