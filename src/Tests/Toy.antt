-- ===== src/Tests/Toy.antt =====
-- A small CoreDNS: a zone is a list of records with an origin and an apex, every name is absolute,
-- a record prints as its text, and the cluster is a list of objects.
use ksdns.Prelude.{
  All, ℕ, String, ◌≡◌, ◌≢◌, refl, sym, subst, ◌∙◌, true, false, Option, none, some, List, [], ◌∷◌,
  arith, str_eq, if◌then◌else◌, In, inl, inr, ◌&&◌, Bool-cases,
}
use ksdns.Prelude.Go.{not_found, message, Result, ok, err}
use ksdns.Zupd.Coredns.{Coredns, ListsUpdated, FileZoneLaws, MatchesLaw, ReadsBack, Zone, success}

pub record Rr : Type 0 where
  pub name : String
  pub rrtype : ℕ
  pub class : ℕ
  pub soa : Option ℕ
  pub text : String

pub record FileZone : Type 0 where
  pub origin : String
  pub tree : List Rr
  pub apex : List Rr

abbrev pub address : String → Rr
address text = record { name = "www.a."; rrtype = 1; class = 1; soa = none; text = text }

abbrev pub soa : Rr
soa = record { name = "a."; rrtype = 6; class = 1; soa = some 7; text = "soa" }

abbrev matches : List String → String → String
matches [] q = ""
matches (n ∷ names) q = let rest = matches names q in if str_eq n q then n else rest

abbrev without : String → List Rr → List Rr
without t [] = []
without t (r ∷ rs) = let rest = without t rs in if str_eq r.text t then rest else r ∷ rest

abbrev pub find : List Zone → String → String → Result Zone
find [] ns name = err not_found
find (z ∷ zs) ns name =
    let rest = find zs ns name in if str_eq z.namespace ns && str_eq z.name name then ok z else rest

abbrev others : String → List Zone → List Zone
others name [] = []
others name (z ∷ zs) = let rest = others name zs in if str_eq z.name name then rest else z ∷ rest

abbrev parse : String → String → Result FileZone
parse text name =
    if str_eq text ""
    then err (message "no SOA record")
    else ok (record { origin = name; tree = address text ∷ []; apex = soa ∷ [] })

abbrev pub toy : Coredns
toy = record {
  Rr = Rr;
  rr_name = λ r. r.name;
  rr_type = λ r. r.rrtype;
  rr_class = λ r. r.class;
  soa_address = λ r. r.soa;
  rr_string = λ r. r.text;
  new_rr = λ t. ok (some (address t));
  is_domain_name = λ n. true;
  fqdn = λ n. n;
  matches = matches;
  trim_dot = λ n. n;
  FileZone = FileZone;
  new_zone = λ n. record { origin = n; tree = []; apex = [] };
  parse_zone = parse;
  insert = λ z r. (record z { tree = r ∷ z.tree }, none);
  remove = λ z r. record z { tree = without r.text z.tree };
  all = λ z. z.tree ∷ [];
  copy = λ z. record z { tree = [] };
  apex_if_defined = λ z. ok z.apex;
  is_expired = λ z. false;
  reload_interval = λ z. 0;
  lookup = λ z q t. record { answer = z.tree; ns = []; extra = []; result = success };
  Stream = List Rr;
  transfer_zone = λ z s. ok z.tree;
  Cluster = List Zone;
  get_zone = find;
  list_zones = λ zs ns. ok zs;
  update_status = λ zs z. (z ∷ others z.name zs, none);
}

pub origin-parse : (text name : String) (z : FileZone) → parse text name ≡ ok z → z.origin ≡ name
origin-parse text name z h = ground arith

abbrev pub toy_laws : FileZoneLaws toy
toy_laws = record {
  origin = λ z. z.origin;
  origin-copy = λ z. refl;
  origin-insert = λ z r. refl;
  origin-remove = λ z r. refl;
  origin-new_zone = λ n. refl;
  origin-parse_zone = origin-parse;
  new_zone_empty = λ n. refl;
  copy_empty = λ z. refl;
  insert_keeps = λ z r x h. inr h;
  insert_adds = λ z z' r r' h e o. inl refl;
  insert_only = λ z r x h. h;
  apex-copy = λ z. refl;
  apex-insert = λ z z' r h o. refl;
}

matches-hit : (n q : String) (names : List String) → str_eq n q ≡ true → matches (n ∷ names) q ≡ n
matches-hit n q names e = rw e

matches-skip :
    (n q : String) (names : List String)
    → str_eq n q ≡ false
    → matches (n ∷ names) q ≡ matches names q
matches-skip n q names e = rw e

matches-In : (names : List String) (q : String) → matches names q ≢ "" → In (matches names q) names
matches-In [] q h = absurd (h refl)
matches-In (n ∷ names) q h = elim (Bool-cases (str_eq n q)) [
  | inl e ↦ inl (matches-hit n q names e)
  | inr e ↦
      subst (λ m. In m (n ∷ names)) (sym (matches-skip n q names e))
        (inr (matches-In names q (λ x. h (matches-skip n q names e ∙ x))))
]

pub toy_matches : MatchesLaw toy
toy_matches = matches-In

pub toy_reads : ReadsBack toy
toy_reads r = (address r.text, refl, refl)

others-hit :
    (name : String) (z : Zone) (zs : List Zone)
    → str_eq z.name name ≡ true
    → others name (z ∷ zs) ≡ others name zs
others-hit name z zs e = rw e

others-miss :
    (name : String) (z : Zone) (zs : List Zone)
    → str_eq z.name name ≡ false
    → others name (z ∷ zs) ≡ z ∷ others name zs
others-miss name z zs e = rw e

others-All :
    (name : String) (zs : List Zone) → All (λ z. str_eq z.name name ≡ false) (others name zs)
others-All name [] = tt
others-All name (z ∷ zs) = elim (Bool-cases (str_eq z.name name)) [
  | inl e ↦
      subst (All (λ y. str_eq y.name name ≡ false)) (sym (others-hit name z zs e))
        (others-All name zs)
  | inr e ↦
      subst (All (λ y. str_eq y.name name ≡ false)) (sym (others-miss name z zs e))
        (e, others-All name zs)
]

pub toy_lists : ListsUpdated toy
toy_lists k obj h = ([], others obj.name k, refl, tt, others-All obj.name k)
