-- ===== src/Http/Authority.antt =====
-- src/http_common.rs: the host and the authority that a request names, and the headers and the
-- snippet that an observation keeps.
pub mod Parsed
mod Examples
use ip_tools.Base.{
  ℕ, Bool, true, false, not, ◌&&◌, ◌||◌, nat_eq, ◌==◌, ltb, if◌then◌else◌, Option, none, some,
  is_some, is_some_and, List, [], ◌∷◌, ◌++◌, filter_map, take, is_empty, Text, Bytes, text, text_eq,
  trim, trim_start_matches, trim_end_matches, split_once, rsplit_once, strip_prefix, matches_count,
  decimal, parse_u16, to_ascii_lowercase, from_utf8_lossy,
}
use ip_tools.Net.{IpAddr, v4, v6}
use ip_tools.Net.Parse.{parse_ip}

abbrev pub max_response_headers : ℕ
max_response_headers = 24

-- A header's value is none where `to_str` fails.
abbrev kept_header : Text × Option Text → Option (Text × Text)
unfolding to_ascii_lowercase text
kept_header (name, none) = none
kept_header (name, some value) =
    if to_ascii_lowercase name == text "location" then none else some (name, value)

unfoldable pub collect_response_headers : List (Text × Option Text) → List (Text × Text)
unfolding kept_header
collect_response_headers headers = take max_response_headers (filter_map kept_header headers)

unfoldable pub wire_host : Text → Text
unfolding trim_start_matches trim_end_matches
wire_host host = trim_end_matches b']' (trim_start_matches b'[' host)

abbrev pub has_colon : Text → Bool
unfolding matches_count
has_colon s = ltb 0 (matches_count b':' s)

abbrev port_after : Option Text → Bool
unfolding parse_u16
port_after none = false
port_after (some p) = is_some (parse_u16 p)

-- What follows a bracket, and a text without one.
unfoldable pub bracketed_has_port : Text → Bool
unfolding split_once strip_prefix port_after
bracketed_has_port t = elim (split_once b']' t) [
  | none ↦ false
  | some (addr, after) ↦ port_after (strip_prefix (b':' ∷ []) after)
]

unfoldable pub plain_has_port : Text → Bool
unfolding rsplit_once has_colon parse_u16
plain_has_port t = elim (rsplit_once b':' t) [
  | none ↦ false
  | some (host, port) ↦ not (has_colon host) && is_some (parse_u16 port)
]

unfoldable pub trimmed_has_port : Text → Bool
unfolding strip_prefix bracketed_has_port plain_has_port
trimmed_has_port t =
    if is_some (strip_prefix (b'[' ∷ []) t) then bracketed_has_port t else plain_has_port t

unfoldable pub authority_has_explicit_port : Text → Bool
unfolding trim trimmed_has_port
authority_has_explicit_port input = trimmed_has_port (trim input)

abbrev pub in_brackets : Text → Text
in_brackets s = b'[' ∷ (s ++ (b']' ∷ []))

abbrev is_v6 : Option IpAddr → Bool
is_v6 none = false
is_v6 (some (v4 n)) = false
is_v6 (some (v6 n)) = true

unfoldable pub uri_authority : Text → Text
unfolding authority_has_explicit_port trim wire_host parse_ip
uri_authority host =
    let bare = wire_host host in
    if authority_has_explicit_port host
    then trim host
    else if is_v6 (parse_ip bare)
    then in_brackets bare
    else bare

abbrev pub default_port : Bool → ℕ
default_port tls = if tls then 443 else 80

unfoldable pub wire_authority : Text → ℕ → Bool → Text
unfolding authority_has_explicit_port trim wire_host has_colon decimal
wire_authority host port tls =
    let bare = wire_host host in
    let named = if has_colon bare then in_brackets bare else bare in
    if authority_has_explicit_port host
    then trim host
    else if not (port == 0) && not (port == default_port tls)
    then named ++ (b':' ∷ decimal port)
    else named

unfoldable pub uri_authority_at : Text → ℕ → Text
unfolding authority_has_explicit_port trim uri_authority decimal
uri_authority_at host port =
    let base = uri_authority host in
    if authority_has_explicit_port host
    then trim host
    else if not (port == 0) && not (port == 443)
    then base ++ (b':' ∷ decimal port)
    else base

-- The ellipsis has three bytes.
unfoldable pub body_snippet_string : Bytes → Bool → Option Text
unfolding from_utf8_lossy
body_snippet_string snippet truncated =
    if is_empty snippet
    then none
    else some (from_utf8_lossy snippet ++ (if truncated then 0xE2 ∷ 0x80 ∷ 0xA6 ∷ [] else []))
