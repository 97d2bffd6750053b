-- ===== src/Operator/Corefile.antt =====
-- The templates of the two Corefiles and of the TSIG file, as the functions that they render
-- (controllers/dns/coredns.go and zupd.go). Their parameters are texts, lists of texts and a
-- truth value, on which executing a template cannot fail.
pub mod Blocks
use Prim.Native.String.{◌++◌ as str_append}
use ksdns.Prelude.{String, Bool, List, [], ◌∷◌, if◌then◌else◌}

infixr 65 ◌+s◌
abbrev ◌+s◌ : String → String → String
s +s t = str_append s t

-- `{{range $index, $element := .Zones}}{{$element}}:1053{{end}}`
unfoldable pub range_zones : List String → String
range_zones [] = ""
range_zones (z ∷ zs) = z +s ":1053" +s range_zones zs

-- `{{range $index, $element := .SecondaryFrom}}{{$element}}:1053 {{end}}`
unfoldable pub range_secondary : List String → String
range_secondary [] = ""
range_secondary (ip ∷ ips) = ip +s ":1053 " +s range_secondary ips

-- `{{range $index, $element := .TransferTo}}to {{$element}}\n    #{{end}}`
unfoldable pub range_transfer : List String → String
range_transfer [] = ""
range_transfer (ip ∷ ips) = "to " +s ip +s "\n    #" +s range_transfer ips

-- The lines that both Corefiles begin with.
abbrev corefile_head : String → Bool → String
corefile_head zones debug =
    "# This files is auto-generated by ksdns-controller. Do NOT edit.\n"
    +s zones
    +s " {\n  "
    +s (if debug then "debug" else "")
    +s "\n  "
    +s (if debug then "log" else "")
    +s "\n  reload\n  ready\n  health\n  prometheus\n  tsig {\n\tsecrets /etc/coredns/secret/tsig.conf\n\trequire none\n  }\n"

unfoldable pub render_coredns_corefile : (zones secondary_from : List String) → Bool → String
render_coredns_corefile zones secondary_from debug =
    corefile_head (range_zones zones) debug
    +s "  secondary {\n\ttransfer from "
    +s range_secondary secondary_from
    +s "\n  }\n}\n"

unfoldable pub render_zupd_corefile : (zones transfer_to : List String) → String → Bool → String
render_zupd_corefile zones transfer_to namespace debug =
    corefile_head (range_zones zones) debug
    +s "  dynamicupdate "
    +s namespace
    +s "\n  transfer {\n    to *\n    #"
    +s range_transfer transfer_to
    +s "\n  }\n}\n"

unfoldable pub render_tsig_secret : String → String → String
render_tsig_secret key secret = "key \"" +s key +s "\" {\n  secret \"" +s secret +s "\";\n};\n"
