-- ===== src/Dns/Examples.antt =====
-- Runs of the wire format at small messages.
use ip_tools.Base.{
  ◌-◌, ◌<◌, ◌≡◌, refl, Bool, true, ◌||◌, [], ◌∷◌, ◌++◌, some, Bytes, Text, text, length, drop, All,
  IsAscii, is_empty, is_some, arith, strip_suffix, split, from_utf8_lossy, join,
}
use ip_tools.Model.{DnsRecordType, DnsRecord}
use ip_tools.Dns.Outcome.{ok, Settles}
use ip_tools.Dns.Name.{skip_name, read_name}
use ip_tools.Dns.Name.Agree.{read_name-skip_name}
use ip_tools.Dns.Message.{parse_dns_response}
use ip_tools.Dns.Message.Total.{parse_dns_response-Settles}
use ip_tools.Dns.Message.Total.Record.{record_type}
use ip_tools.Dns.Query.{queried_name, build_query, qtype, to_be16}
use ip_tools.Dns.Query.RoundTrip.{build_query-read_name}
use ip_tools.Dns.Base64.{base64url}
use ip_tools.Dns.Base64.RoundTrip.{decode, base64url-decode}
use ip_tools.Base.{strip_prefix, split_once, rsplit_once, matches_count, parse_u16}
use ip_tools.Dns.Endpoint.{EndpointError, Parsed, parse_doh_url, parse_dot_endpoint}
use ip_tools.Dns.Endpoint.Accepted.{Holds, PlainPath, parse_doh_url-Holds}

-- The name `a.b`, and a pointer back to it.
abbrev two_names : Bytes
two_names = 1 ∷ b'a' ∷ 1 ∷ b'b' ∷ 0 ∷ 0xC0 ∷ 0 ∷ []

-- An answer to the query for the address of `a`, whose owner is a pointer to the question.
abbrev reply : Bytes
reply =
    0 ∷ 0 ∷ 0x81 ∷ 0x80 ∷ 0 ∷ 1 ∷ 0 ∷ 1 ∷ 0 ∷ 0 ∷ 0 ∷ 0 ∷ 1 ∷ b'a' ∷ 0 ∷ 0 ∷ 1 ∷ 0 ∷ 1 ∷ 0xC0 ∷ 12
    ∷ 0 ∷ 1 ∷ 0 ∷ 1 ∷ 0 ∷ 0 ∷ 0 ∷ 60 ∷ 0 ∷ 4 ∷ 192 ∷ 0 ∷ 2 ∷ 1 ∷ []

-- The reply decodes to the one address, 192.0.2.1, with its time to live.
reply_test :
    parse_dns_response reply DnsRecordType.a
    ≡ ok (record {
      rcode = 0;
      ttl = some 60;
      records = DnsRecord.a 0xC0000201 ∷ [];
      saw_cname = Bool.false;
    })
unfolding parse_dns_response skip_name
reply_test = refl

two_names_read : read_name two_names 5 ≡ ok (text "a.b", 7)
unfolding read_name text join from_utf8_lossy
two_names_read = refl

read_name-skip_name_example : skip_name two_names 5 ≡ ok 7
read_name-skip_name_example = read_name-skip_name two_names 5 (text "a.b") 7 two_names_read

parse_dns_response-Settles_example :
    Settles
      (λ r.
        All (λ rec. record_type rec ≡ DnsRecordType.a) r.records
        × (is_empty r.records || is_some r.ttl ≡ true)
        × (r.rcode < 16))
      (parse_dns_response reply DnsRecordType.a)
parse_dns_response-Settles_example = parse_dns_response-Settles reply DnsRecordType.a

abbrev host : Text
host = b'a' ∷ b'.' ∷ b'b' ∷ b'.' ∷ []

abbrev query : Bytes
query = 0 ∷ 0 ∷ 1 ∷ 0 ∷ 0 ∷ 1 ∷ 0 ∷ 0 ∷ 0 ∷ 0 ∷ 0 ∷ 0 ∷ 1 ∷ b'a' ∷ 1 ∷ b'b' ∷ 0 ∷ 1 ∷ 1 ∷ 0 ∷ 1 ∷ []

host-IsAscii : IsAscii (queried_name host)
unfolding queried_name strip_suffix
host-IsAscii = (omega arith, (omega arith, (omega arith, tt)))

query_built : build_query host DnsRecordType.caa ≡ ok query
unfolding build_query split strip_suffix
query_built = refl

build_query-read_name_example :
    (read_name query 12 ≡ ok (queried_name host, length query - 4))
    × (skip_name query 12 ≡ ok (length query - 4))
    × (drop (length query - 4) query ≡ to_be16 (qtype DnsRecordType.caa) ++ to_be16 1)
build_query-read_name_example =
    build_query-read_name host DnsRecordType.caa query host-IsAscii query_built

base64url-decode_example :
    Settles (λ out. decode out ≡ some (255 ∷ 3 ∷ [])) (base64url (255 ∷ 3 ∷ []))
base64url-decode_example = base64url-decode (255 ∷ 3 ∷ []) (omega arith, (omega arith, tt))

parse_doh_url-Holds_example :
    Holds
      (λ r. (is_empty r.0 ≡ Bool.false) × (r.1 < 65536) × PlainPath r.2)
      (parse_doh_url (text "https://[::1]:8443/resolve?key=a"))
parse_doh_url-Holds_example = parse_doh_url-Holds (text "https://[::1]:8443/resolve?key=a")

-- Both are accepted, and a query string is cut off.
endpoint_test :
    (parse_doh_url (text "https://[::1]:8443/resolve?key=a")
      ≡ Parsed.ok (text "::1", 8443, text "/resolve"))
    × (parse_dot_endpoint (text "dns.example:8853") ≡ Parsed.ok (text "dns.example", 8853))
    × (parse_dot_endpoint (text "::1") ≡ Parsed.err EndpointError.unbracketed_ipv6)
unfolding parse_doh_url parse_dot_endpoint text strip_prefix split_once rsplit_once matches_count
    parse_u16
endpoint_test = (refl, refl, refl)
