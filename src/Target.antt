-- ===== src/Target.antt =====
-- src/target.rs: a host and a port from a command-line argument.
pub mod RoundTrip
pub mod Accepted
mod Examples
use ip_tools.Base.{
  ℕ, Option, none, some, List, [], ◌∷◌, ◌++◌, Bool, nat_eq, ◌==◌, if◌then◌else◌, not, ◌&&◌, Text,
  text, strip_prefix, split_once, rsplit_once, matches_count, trim, is_digit, all, is_empty,
  parse_u16, Result, done, fail, map_err, ok_or,
}

pub record Target : Type 0 where
  pub host : Text
  pub port : ℕ

-- `DiagError::InvalidTarget`.
pub record InvalidTarget : Type 0 where
  pub input : Text
  pub reason : Text

abbrev pub Parsed : Type 0
Parsed = Result Target InvalidTarget

abbrev pub invalid {ℓ} : {A : Type ℓ} → Text → Text → Result A InvalidTarget
invalid input reason = fail (record { input = input; reason = reason })

-- `s.parse::<u16>().map_err(...)` with the host that the port belongs to.
unfoldable pub parse_port : Text → Text → Text → Parsed
unfolding parse_u16 text
parse_port host s input = elim (parse_u16 s) [
  | none ↦ invalid input (text "port out of range")
  | some port ↦ done (record { host = host; port = port })
]

unfoldable pub is_url : Text → Text → Parsed
unfolding text
is_url input rest = invalid input (
    text "looks like a URL (did you mean '"
    ++ (rest ++ text "'? this tool takes 'host[:port]', not a scheme)"))

abbrev pub unwrap_or_empty : Option Text → Text
unwrap_or_empty none = []
unwrap_or_empty (some s) = s

-- What follows `[`.
unfoldable pub parse_bracketed : Text → Text → ℕ → Parsed
unfolding split_once strip_prefix parse_port text
parse_bracketed input rest default_port = elim (split_once b']' rest) [
  | none ↦ invalid input (text "unterminated '[' ")
  | some (addr, port_part) ↦
      (let host = b'[' ∷ (addr ++ (b']' ∷ [])) in
        let at_port =
          parse_port host (unwrap_or_empty (strip_prefix (b':' ∷ []) port_part)) input in
        if is_empty addr
        then invalid input (text "empty address in brackets")
        else if is_empty port_part
        then done (record { host = host; port = default_port })
        else at_port)
]

unfoldable pub is_userinfo : Text → Text → Parsed
unfolding text
is_userinfo input userinfo = invalid input (
    text "looks like a user@host string (this tool takes 'host[:port]', drop the '"
    ++ (userinfo ++ text "@' prefix)"))

-- Exactly one colon.
unfoldable pub parse_host_port : Text → Parsed
unfolding rsplit_once parse_port text
parse_host_port input =
    let malformed : Parsed = invalid input (text "expected '<host>:<port>'") in
    elim (rsplit_once b':' input) [
      | none ↦ malformed
      | some (host, port) ↦
          (let at_port = parse_port host port input in
            if not (is_empty host) && all is_digit port then at_port else malformed)
    ]

unfoldable pub parse_plain : Text → ℕ → Parsed
unfolding matches_count parse_host_port trim text
parse_plain input default_port =
    let at_colon = parse_host_port input in
    if matches_count b':' input == 1
    then at_colon
    else if is_empty (trim input)
    then invalid input (text "empty target")
    else done (record { host = input; port = default_port })

unfoldable pub parse_unbracketed : Text → ℕ → Parsed
unfolding rsplit_once parse_plain is_userinfo
parse_unbracketed input default_port =
    let plain = parse_plain input default_port in
    elim (rsplit_once b'@' input) [
      | none ↦ plain
      | some (userinfo, host) ↦ if is_empty userinfo then plain else is_userinfo input userinfo
    ]

-- `Target::parse` behind `input.trim()`.
unfoldable pub parse_trimmed : Text → ℕ → Parsed
unfolding strip_prefix is_url parse_bracketed parse_unbracketed text
parse_trimmed input default_port = elim (strip_prefix (text "http://") input) [
  | some rest ↦ is_url input rest
  | none ↦ elim (strip_prefix (text "https://") input) [
    | some rest ↦ is_url input rest
    | none ↦ elim (strip_prefix (b'[' ∷ []) input) [
      | some rest ↦ parse_bracketed input rest default_port
      | none ↦ parse_unbracketed input default_port
    ]
  ]
]

unfoldable pub parse : Text → ℕ → Parsed
unfolding trim parse_trimmed
parse input default_port = parse_trimmed (trim input) default_port
