-- ===== src/Zupd/Dns.antt =====
-- Constants of miekg/dns (RFC 1035, 2136, 3596, 2782).
use ksdns.Prelude.{ℕ}

abbrev pub type_a : ℕ
type_a = 1

abbrev pub type_cname : ℕ
type_cname = 5

abbrev pub type_txt : ℕ
type_txt = 16

abbrev pub type_aaaa : ℕ
type_aaaa = 28

abbrev pub type_srv : ℕ
type_srv = 33

abbrev pub type_ixfr : ℕ
type_ixfr = 251

abbrev pub type_axfr : ℕ
type_axfr = 252

abbrev pub type_any : ℕ
type_any = 255

abbrev pub class_inet : ℕ
class_inet = 1

abbrev pub class_none : ℕ
class_none = 254

abbrev pub class_any : ℕ
class_any = 255

abbrev pub opcode_notify : ℕ
opcode_notify = 4

abbrev pub opcode_update : ℕ
opcode_update = 5

abbrev pub rcode_success : ℕ
rcode_success = 0

abbrev pub rcode_server_failure : ℕ
rcode_server_failure = 2

abbrev pub rcode_name_error : ℕ
rcode_name_error = 3

abbrev pub rcode_not_implemented : ℕ
rcode_not_implemented = 4

abbrev pub rcode_refused : ℕ
rcode_refused = 5
