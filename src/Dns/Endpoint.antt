-- ===== src/Dns/Endpoint.antt =====
-- src/dns.rs: `parse_doh_url` and `parse_dot_endpoint`, the addresses of encrypted resolvers.
pub mod Accepted
use ip_tools.Base.{
  ℕ, Bool, true, false, ◌||◌, List, [], ◌∷◌, Option, none, some, ltb, ◌==◌, nat_eq, if◌then◌else◌,
  is_empty, Text, text, strip_prefix, split_once, rsplit_once, matches_count, parse_u16,
}

-- The error messages.
pub data EndpointError : Type 0 where
  not_https empty_authority malformed_bracket non_numeric_port unterminated_bracket : EndpointError
  unbracketed_ipv6 empty_host empty_endpoint : EndpointError

pub data Parsed (A : Type 0) : Type 0 where
  ok : A → Parsed A
  err : EndpointError → Parsed A

infixl 5 ◌>>=◌
abbrev pub ◌>>=◌ : {A B : Type 0} → Parsed A → (A → Parsed B) → Parsed B
ok a >>= f = f a
err e >>= f = err e

abbrev pub ok_or : {A : Type 0} → Option A → EndpointError → Parsed A
ok_or none e = err e
ok_or (some a) e = ok a

abbrev pub reject : Bool → EndpointError → Parsed (Unit {0})
reject b e = if b then err e else ok tt

-- A port behind a host, over its default.
unfoldable pub numeric_port : Text → Parsed ℕ
numeric_port port = ok_or (parse_u16 port) non_numeric_port

-- What follows the closing bracket: nothing, or a colon and a port.
unfoldable pub after_bracket : (default : ℕ) → (addr after : Text) → Parsed (Text × ℕ)
unfolding numeric_port
after_bracket default addr [] = ok (addr, default)
after_bracket default addr (c ∷ s) = do
  digits ← ok_or (strip_prefix (b':' ∷ []) (c ∷ s)) malformed_bracket
  port ← numeric_port digits
  ok (addr, port)

unfoldable pub bracketed : (default : ℕ) → Text → Parsed (Text × ℕ)
unfolding after_bracket
bracketed default rest = elim (split_once b']' rest) [
  | none ↦ err unterminated_bracket
  | some (addr, after) ↦ after_bracket default addr after
]

-- The host and the port of the authority of a URL.
unfoldable pub doh_authority : Text → Parsed (Text × ℕ)
unfolding bracketed numeric_port
doh_authority authority = elim (strip_prefix (b'[' ∷ []) authority) [
  | some rest ↦ bracketed 443 rest
  | none ↦
      if ltb 1 (matches_count b':' authority)
      then err unbracketed_ipv6
      else elim (rsplit_once b':' authority) [
        | some (host, port) ↦ (do p ← numeric_port port; ok (host, p))
        | none ↦ ok (authority, 443)
      ]
]

abbrev pub authority_and_path : Text → Text × Text
authority_and_path rest = elim (split_once b'/' rest) [
  | some (authority, path) ↦ (authority, b'/' ∷ path)
  | none ↦ (rest, text "/dns-query")
]

-- The path in front of a query string or a fragment.
unfoldable pub base_path : Text → Text
base_path [] = []
base_path (c ∷ s) = let rest = base_path s in if c == b'?' || c == b'#' then [] else c ∷ rest

unfoldable pub parse_doh_url : Text → Parsed (Text × ℕ × Text)
unfolding doh_authority base_path
parse_doh_url url = do
  rest ← ok_or (strip_prefix (text "https://") url) not_https
  let (authority, path) = authority_and_path rest
  checked ← reject (is_empty authority) empty_authority
  (host, port) ← doh_authority authority
  named ← reject (is_empty host) empty_host
  ok (host, port, base_path path)

-- The host and the port of a DoT endpoint; a colon left of the last one is an IPv6 literal.
unfoldable pub dot_authority : Text → Parsed (Text × ℕ)
unfolding bracketed numeric_port
dot_authority endpoint = elim (strip_prefix (b'[' ∷ []) endpoint) [
  | some rest ↦ bracketed 853 rest
  | none ↦ elim (rsplit_once b':' endpoint) [
    | some (host, port) ↦
        if ltb 0 (matches_count b':' host)
        then err unbracketed_ipv6
        else (do p ← numeric_port port; ok (host, p))
    | none ↦ ok (endpoint, 853)
  ]
]

unfoldable pub parse_dot_endpoint : Text → Parsed (Text × ℕ)
unfolding dot_authority
parse_dot_endpoint endpoint = do
  given ← reject (is_empty endpoint) empty_endpoint
  (host, port) ← dot_authority endpoint
  named ← reject (is_empty host) empty_host
  ok (host, port)
