-- ===== src/Report/Coverage.antt =====
-- src/report.rs: whether a certificate names the host that was asked for.
use ip_tools.Base.{
  Bool, false, List, none, some, ◌==◌, Text, text, text_eq, any, trim_start_matches,
  trim_end_matches, to_ascii_lowercase, strip_prefix, split_once,
}
use ip_tools.Net.{IpAddr, ip_beq}
use ip_tools.Net.Parse.{parse_ip}

-- `san.parse().ok() == Some(ip)`.
abbrev pub names_ip : IpAddr → Text → Bool
names_ip ip san = elim (parse_ip san) [ none ↦ false | some i ↦ ip_beq i ip ]

-- A DNS name: exactly, or below a wildcard by one left-most label; `name` is in lower case.
unfoldable pub names_host : Text → Text → Bool
names_host name san = elim (strip_prefix (text "*.") (to_ascii_lowercase san)) [
  | none ↦ to_ascii_lowercase san == name
  | some wildcard ↦ elim (split_once b'.' name) [
    | none ↦ false
    | some (label, rest) ↦ rest == wildcard
  ]
]

-- `trim_start_matches('[').trim_end_matches(']')`.
abbrev pub unbracketed : Text → Text
unbracketed s = trim_end_matches b']' (trim_start_matches b'[' s)

unfoldable pub cert_covers_hostname : Text → List Text → Bool
unfolding names_host
cert_covers_hostname sni sans =
    let presented = unbracketed sni in
    elim (parse_ip presented) [
      | some ip ↦ any (names_ip ip) sans
      | none ↦ any (names_host (to_ascii_lowercase presented)) sans
    ]
