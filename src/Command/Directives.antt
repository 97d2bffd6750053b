-- ===== src/Command/Directives.antt =====
-- The order of the plugins (cmd/zupd/cmd/run.go): CoreDNS walks the list of directives, and builds
-- a server's chain from those that its block names.
use ksdns.Prelude.{
  refl, eq_iff, String, Bool, true, false, ◌≡◌, ap, ◌∙◌, List, [], ◌∷◌, str_eq, if◌then◌else◌,
  arith, Bool-cases, inl, inr,
}

abbrev pub directives : List String
directives =
    "metadata" ∷ "geoip" ∷ "cancel" ∷ "tls" ∷ "reload" ∷ "nsid" ∷ "bufsize" ∷ "root" ∷ "bind"
    ∷ "debug" ∷ "trace" ∷ "ready" ∷ "health" ∷ "pprof" ∷ "prometheus" ∷ "errors" ∷ "log" ∷ "dnstap"
    ∷ "local" ∷ "dns64" ∷ "acl" ∷ "any" ∷ "chaos" ∷ "loadbalance" ∷ "tsig" ∷ "cache" ∷ "rewrite"
    ∷ "header" ∷ "dnssec" ∷ "autopath" ∷ "minimal" ∷ "template" ∷ "transfer" ∷ "hosts" ∷ "route53"
    ∷ "azure" ∷ "clouddns" ∷ "k8s_external" ∷ "kubernetes" ∷ "file" ∷ "dynamicupdate" ∷ "auto"
    ∷ "secondary" ∷ "etcd" ∷ "loop" ∷ "forward" ∷ "grpc" ∷ "erratic" ∷ "whoami" ∷ "on" ∷ "sign"
    ∷ "view" ∷ "kubeapi" ∷ []

abbrev pub member : String → List String → Bool
member x [] = false
member x (d ∷ ds) = if str_eq d x then true else member x ds

-- The first `x` of the list has a `y` behind it.
abbrev pub before : String → String → List String → Bool
before x y [] = false
before x y (d ∷ ds) = let rest = before x y ds in if str_eq d x then member y ds else rest

-- The directives that a block names, in the order of the list.
unfoldable pub kept : List String → List String → List String
kept block [] = []
kept block (d ∷ ds) = let rest = kept block ds in if member d block then d ∷ rest else rest

member-kept :
    (block : List String) (y : String) (ds : List String)
    → member y block ≡ true
    → member y ds ≡ true
    → member y (kept block ds) ≡ true
unfolding kept
member-kept block y [] b h = h
member-kept block y (d ∷ ds) b h = elim (Bool-cases (str_eq d y)) [
  | inl e ↦
      let here : member d block ≡ true = ap (λ z. member z block) ((eq_iff d y).0 e) ∙ b in
      rw here (ground arith)
  | inr e ↦
      let rest = member-kept block y ds b (rw e at h) in
      elim (Bool-cases (member d block)) [ inl p ↦ rw p (rw e rest) | inr p ↦ rw p rest ]
]

before-kept :
    (block : List String) (x y : String) (ds : List String)
    → member x block ≡ true
    → member y block ≡ true
    → before x y ds ≡ true
    → before x y (kept block ds) ≡ true
unfolding kept
before-kept block x y [] a b h = h
before-kept block x y (d ∷ ds) a b h = elim (Bool-cases (str_eq d x)) [
  | inl e ↦
      let here : member d block ≡ true = ap (λ z. member z block) ((eq_iff d x).0 e) ∙ a in
      rw here (rw e (member-kept block y ds b (rw e at h)))
  | inr e ↦
      let rest = before-kept block x y ds a b (rw e at h) in
      elim (Bool-cases (member d block)) [ inl p ↦ rw p (rw e rest) | inr p ↦ rw p rest ]
]

-- Documented behaviour of caddy and CoreDNS: the chain that a request goes through is built in the
-- order of the list of directives, from those of a block whose plugins handle requests.
module _ (chain : List String → List String → List String)
    (built : (ds block : List String) → chain ds block ≡ kept block ds) where
  -- In a block that names the three, a request reaches `tsig` before `transfer`, and `transfer`
  -- before `dynamicupdate`, whatever else the block names and in whatever order.
  block_in_order :
      (block : List String)
      → member "tsig" block ≡ true
      → member "transfer" block ≡ true
      → member "dynamicupdate" block ≡ true
      → (before "tsig" "transfer" (chain directives block) ≡ true)
        × (before "transfer" "dynamicupdate" (chain directives block) ≡ true)
        × (before "tsig" "dynamicupdate" (chain directives block) ≡ true)
  block_in_order block t x d = rw (built directives block) (
    before-kept block "tsig" "transfer" directives t x refl,
    before-kept block "transfer" "dynamicupdate" directives x d refl,
    before-kept block "tsig" "dynamicupdate" directives t d refl,
  )
