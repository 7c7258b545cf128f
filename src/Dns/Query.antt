-- ===== src/Dns/Query.antt =====
-- src/dns.rs: `build_query`.
pub mod RoundTrip
use ip_tools.Base.{
  ℕ, ◌+◌, ◌/◌, ◌%◌, Bool, ◌||◌, List, [], ◌∷◌, ◌++◌, Option, none, some, ltb, Bytes, Text, text,
  is_empty, length, strip_suffix, split,
}
use ip_tools.Model.{DnsRecordType}
use ip_tools.Dns.Outcome.{Outcome, ok, ◌>>=◌, reject, invalid_label}

unfoldable pub qtype : DnsRecordType → ℕ
qtype DnsRecordType.a = 1
qtype DnsRecordType.aaaa = 28
qtype DnsRecordType.cname = 5
qtype DnsRecordType.mx = 15
qtype DnsRecordType.txt = 16
qtype DnsRecordType.ns = 2
qtype DnsRecordType.soa = 6
qtype DnsRecordType.caa = 257
qtype DnsRecordType.srv = 33
qtype DnsRecordType.ptr = 12

-- The id, the flags (recursion desired), one question, and no other section.
abbrev pub query_header : Bytes
query_header = 0 ∷ 0 ∷ 1 ∷ 0 ∷ 0 ∷ 1 ∷ 0 ∷ 0 ∷ 0 ∷ 0 ∷ 0 ∷ 0 ∷ []

-- `u16::to_be_bytes`.
abbrev pub to_be16 : ℕ → Bytes
to_be16 n = (n / 256 % 256) ∷ (n % 256) ∷ []

-- The host without one trailing dot.
unfoldable pub queried_name : Text → Text
queried_name host = elim (strip_suffix (b'.' ∷ []) host) [ none ↦ host | some name ↦ name ]

-- The loop over the labels.
unfoldable pub write_labels : (host : Text) → List Text → Outcome Bytes
write_labels host [] = ok []
write_labels host (label ∷ labels) = do
  checked ← reject (is_empty label || ltb 63 (length label)) (invalid_label host)
  rest ← write_labels host labels
  ok ((length label % 256) ∷ (label ++ rest))

unfoldable pub build_query : Text → DnsRecordType → Outcome Bytes
unfolding queried_name write_labels qtype
build_query host record_type = do
  labels ← write_labels host (split b'.' (queried_name host))
  ok (query_header ++ (labels ++ (0 ∷ (to_be16 (qtype record_type) ++ to_be16 1))))
