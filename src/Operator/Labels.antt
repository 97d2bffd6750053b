-- ===== src/Operator/Labels.antt =====
-- Names and labels (controllers/dns/utils.go, and the `Name` functions of coredns.go and zupd.go).
use Prim.Native.String.{◌++◌ as str_append}
use ksdns.Prelude.{String, [], ◌∷◌}
use ksdns.Operator.Objects.{Labels, Ksdns}

abbrev kdns_version : String
kdns_version = "v0.0.1"

unfoldable pub make_labels : String → Ksdns → Labels
make_labels name owner =
    ("app.kubernetes.io/name", name)
    ∷ ("app.kubernetes.io/version", kdns_version)
    ∷ ("app.kubernetes.io/managed-by", "ksdns")
    ∷ ("app.kubernetes.io/instance", owner.name)
    ∷ []

unfoldable pub make_selector : String → Ksdns → Labels
make_selector name owner =
    ("app.kubernetes.io/name", name) ∷ ("app.kubernetes.io/instance", owner.name) ∷ []

unfoldable pub coredns_name : Ksdns → String
coredns_name owner = str_append owner.name "-coredns"

unfoldable pub zupd_name : Ksdns → String
zupd_name owner = str_append owner.name "-zupd"
