-- ===== src/Report/Observations.antt =====
-- src/report.rs: the human report of DNS lookups. `debug` is Rust's `{:?}` of a text.
use ip_tools.Base.{
  ℕ, Bool, ◌&&◌, not, is_empty, Option, none, some, List, [], ◌∷◌, ◌++◌, ◌==◌, nat_eq, text_eq,
  if◌then◌else◌, Text, text, decimal, concat, join, map, filter, contains,
}
use ip_tools.Model.{
  DnsRecordType, type_eq, DnsRecord, ResolverKind, resolver_eq, label, DnsObservation, ProbeError,
  FailureKind, kind_eq, show_kind,
}
use ip_tools.Report.Columns.{pad_right, newline, trim_brackets}
use ip_tools.Report.Escapes.{show_record}
use ip_tools.Style.{Style, fail}

unfoldable pub rt_label : DnsRecordType → Text
unfolding text
rt_label DnsRecordType.a = text "A"
rt_label DnsRecordType.aaaa = text "AAAA"
rt_label DnsRecordType.cname = text "CNAME"
rt_label DnsRecordType.mx = text "MX"
rt_label DnsRecordType.txt = text "TXT"
rt_label DnsRecordType.ns = text "NS"
rt_label DnsRecordType.soa = text "SOA"
rt_label DnsRecordType.caa = text "CAA"
rt_label DnsRecordType.srv = text "SRV"
rt_label DnsRecordType.ptr = text "PTR"

abbrev pub all_dns_record_types : List DnsRecordType
all_dns_record_types =
    DnsRecordType.a ∷ DnsRecordType.aaaa ∷ DnsRecordType.cname ∷ DnsRecordType.mx
    ∷ DnsRecordType.txt ∷ DnsRecordType.ns ∷ DnsRecordType.soa ∷ DnsRecordType.caa
    ∷ DnsRecordType.srv ∷ DnsRecordType.ptr ∷ []

abbrev ttl_suffix : Option ℕ → Text
ttl_suffix none = []
ttl_suffix (some t) = concat (text ", ttl " ∷ decimal t ∷ text "s" ∷ [])

abbrev error_detail : ProbeError → Text
error_detail err =
    if err.kind == FailureKind.dns
    then err.message
    else concat (show_kind err.kind ∷ text " (" ∷ err.message ∷ text ")" ∷ [])

-- The resolvers in the order of their first observations.
unfoldable pub seen_resolvers : List ResolverKind → List DnsObservation → List ResolverKind
unfolding contains
seen_resolvers seen [] = seen
seen_resolvers seen (obs ∷ rest) =
    seen_resolvers (if contains seen obs.resolver then seen else seen ++ (obs.resolver ∷ [])) rest

abbrev name_label : Text → DnsObservation → Text
name_label host obs =
    let same_address = trim_brackets obs.hostname == trim_brackets host in
    if not same_address && not (is_empty obs.hostname) then obs.hostname ++ text " :: " else []

module _ (debug : Text → Text) where
  abbrev record_list : Option ℕ → ℕ → List DnsRecord → Text
  record_list ttl ms [] = concat (text "no records (" ∷ decimal ms ∷ text " ms)" ∷ [])
  record_list ttl ms (r ∷ rs) = concat (
      join (text ", ") (map (show_record debug) (r ∷ rs))
      ∷ ttl_suffix ttl
      ∷ text " ("
      ∷ decimal ms
      ∷ text " ms)"
      ∷ [])

  abbrev pub answer : Style → DnsObservation → Option ProbeError → Option ℕ → Text
  answer style obs (some err) ms = fail style (error_detail err)
  answer style obs none (some ms) = record_list obs.ttl ms obs.records
  answer style obs none none = text "no records"

  unfoldable pub render_dns_one : Style → DnsObservation → Text
  unfolding text decimal join show_record show_kind
  render_dns_one style obs = answer style obs obs.error obs.latency_ms

  unfoldable pub dns_row : Style → Text → DnsRecordType → DnsObservation → Text
  unfolding render_dns_one text pad_right rt_label trim_brackets
  dns_row style host rt obs = concat (
      text "    "
      ∷ pad_right 4 (rt_label rt)
      ∷ text ": "
      ∷ name_label host obs
      ∷ render_dns_one style obs
      ∷ newline
      ∷ [])

  abbrev pub is_of : ResolverKind → DnsRecordType → DnsObservation → Bool
  is_of resolver rt obs = obs.resolver == resolver && obs.record_type == rt

  unfoldable pub resolver_section : Style → Text → List DnsObservation → ResolverKind → Text
  unfolding dns_row label text
  resolver_section style host observations resolver = concat (
      text "  "
      ∷ label resolver
      ∷ newline
      ∷ concat (
          map
            (λ (rt : DnsRecordType).
              concat (map (dns_row style host rt) (filter (is_of resolver rt) observations)))
            all_dns_record_types)
      ∷ [])

  unfoldable pub render_dns : Style → Text → List DnsObservation → Text
  unfolding seen_resolvers resolver_section text
  render_dns style host observations = concat (
      text "DNS "
      ∷ host
      ∷ newline
      ∷ concat (map (resolver_section style host observations) (seen_resolvers [] observations))
      ∷ [])
