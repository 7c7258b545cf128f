-- ===== src/Dns/Endpoint/Accepted.antt =====
-- What holds of an endpoint that was accepted.
use ip_tools.Base.{
  ℕ, ◌<◌, ◌≡◌, refl, Bool, true, false, ◌||◌, Bool-cases, inl, inr, [], ◌∷◌, Option, none, some,
  Option-cases, arith, ltb, ◌==◌, nat_eq, if◌then◌else◌, is_empty, first, Text, text, split_once,
  rsplit_once, strip_prefix, matches_count, parse_u16,
}
use ip_tools.Base.Decimal.{parse_u16-lt}
use ip_tools.Dns.Endpoint.{
  EndpointError, Parsed, ok, err, ◌>>=◌, ok_or, reject, numeric_port, after_bracket, bracketed,
  doh_authority, authority_and_path, base_path, parse_doh_url, dot_authority, parse_dot_endpoint,
}

-- A value with the property, or an error.
pub data Holds {A : Type 0} (P : A → Type 0) : Parsed A → Type 0 where
  holds : {a : A} → P a → Holds P (ok a)
  refused : {e : EndpointError} → Holds P (err e)

bind-Holds :
    {A B : Type 0} {P : A → Type 0} {Q : B → Type 0} {o : Parsed A} (f : A → Parsed B)
    → Holds P o
    → ((a : A) → P a → Holds Q (f a))
    → Holds Q (o >>= f)
bind-Holds f (holds {a = a} h) k = k a h
bind-Holds f refused k = refused

reject-Holds : (b : Bool) (e : EndpointError) → Holds (λ t. b ≡ false) (reject b e)
reject-Holds true e = refused
reject-Holds false e = holds refl

if-Holds :
    {A : Type 0} {P : A → Type 0} (b : Bool) (x y : Parsed A)
    → Holds P x
    → Holds P y
    → Holds P (if b then x else y)
if-Holds true x y h k = h
if-Holds false x y h k = k

numeric_port-Holds : (port : Text) → Holds (λ p. p < 65536) (numeric_port port)
unfolding numeric_port
numeric_port-Holds port = elim (Option-cases (parse_u16 port)) [
  | inl e ↦ rw e refused
  | inr (p, e) ↦ rw e (holds (parse_u16-lt port p e))
]

-- The port of an authority is a `u16`.
abbrev PortFits : Text × ℕ → Type 0
PortFits a = a.1 < 65536

ok_or-Holds : {A : Type 0} (o : Option A) (e : EndpointError) → Holds (λ a. Unit) (ok_or o e)
ok_or-Holds none e = refused
ok_or-Holds (some a) e = holds tt

after_bracket-Holds :
    (default : ℕ) (addr after : Text)
    → default < 65536
    → Holds PortFits (after_bracket default addr after)
unfolding after_bracket
after_bracket-Holds default addr [] h = holds h
after_bracket-Holds default addr (c ∷ s) h =
    bind-Holds _ (ok_or-Holds (strip_prefix (b':' ∷ []) (c ∷ s)) EndpointError.malformed_bracket)
      λ digits _. bind-Holds _ (numeric_port-Holds digits) λ p k. holds k

bracketed-Holds :
    (default : ℕ) (rest : Text) → default < 65536 → Holds PortFits (bracketed default rest)
unfolding bracketed
bracketed-Holds default rest h = elim (Option-cases (split_once b']' rest)) [
  | inl e ↦ rw (e, bracketed) refused
  | inr (p, e) ↦ rw (e, bracketed) (after_bracket-Holds default p.0 p.1 h)
]

with_port-Holds : (host port : Text) → Holds PortFits (numeric_port port >>= λ p. ok (host, p))
with_port-Holds host port = bind-Holds _ (numeric_port-Holds port) λ p k. holds k

doh_authority-Holds : (authority : Text) → Holds PortFits (doh_authority authority)
unfolding doh_authority
doh_authority-Holds authority = elim (Option-cases (strip_prefix (b'[' ∷ []) authority)) [
  | inr (rest, e) ↦ rw (e, doh_authority) (bracketed-Holds 443 rest (omega arith))
  | inl e ↦
      rw (e, doh_authority)
        (if-Holds (ltb 1 (matches_count b':' authority)) _ _ refused
          (elim (Option-cases (rsplit_once b':' authority)) [
            | inl k ↦ rw k (holds (omega arith))
            | inr (p, k) ↦ rw k (with_port-Holds p.0 p.1)
          ]))
]

dot_authority-Holds : (endpoint : Text) → Holds PortFits (dot_authority endpoint)
unfolding dot_authority
dot_authority-Holds endpoint = elim (Option-cases (strip_prefix (b'[' ∷ []) endpoint)) [
  | inr (rest, e) ↦ rw (e, dot_authority) (bracketed-Holds 853 rest (omega arith))
  | inl e ↦
      rw (e, dot_authority)
        (elim (Option-cases (rsplit_once b':' endpoint)) [
          | inl k ↦ rw k (holds (omega arith))
          | inr (p, k) ↦
              rw k (if-Holds (ltb 0 (matches_count b':' p.0)) _ _ refused (with_port-Holds p.0 p.1))
        ])
]

base_path-count :
    (c : ℕ) (s : Text) → (c == b'?' || c == b'#') ≡ true → matches_count c (base_path s) ≡ 0
unfolding base_path matches_count
base_path-count c [] h = refl
base_path-count c (d ∷ s) h = elim (Bool-cases (d == b'?' || d == b'#')) [
  | inl t ↦ rw t refl
  | inr t ↦ rw t (ground (arith, h, t, base_path-count c s h))
]

-- A path from the root, with no query string and no fragment.
abbrev pub PlainPath : Text → Type 0
PlainPath path =
    (first path ≡ some b'/') × (matches_count b'?' path ≡ 0) × (matches_count b'#' path ≡ 0)

base_path-first : (s : Text) → first (base_path (b'/' ∷ s)) ≡ some b'/'
unfolding base_path
base_path-first s = refl

base_path-PlainPath : (s : Text) → PlainPath (base_path (b'/' ∷ s))
base_path-PlainPath s =
    (base_path-first s, base_path-count b'?' (b'/' ∷ s) refl, base_path-count b'#' (b'/' ∷ s) refl)

path-PlainPath : (rest : Text) → PlainPath (base_path (authority_and_path rest).1)
unfolding text
path-PlainPath rest = elim (Option-cases (split_once b'/' rest)) [
  | inl e ↦ rw (e, authority_and_path) (base_path-PlainPath (text "dns-query"))
  | inr (p, e) ↦ rw (e, authority_and_path) (base_path-PlainPath p.1)
]

-- An accepted DoH endpoint has a host that is not empty, a port of sixteen bits, and a path from the
-- root in which neither a query string nor a fragment is left.
pub parse_doh_url-Holds :
    (url : Text)
    → Holds (λ r. (is_empty r.0 ≡ false) × (r.1 < 65536) × PlainPath r.2) (parse_doh_url url)
unfolding parse_doh_url
parse_doh_url-Holds url =
    bind-Holds _ (ok_or-Holds (strip_prefix (text "https://") url) EndpointError.not_https)
      λ rest _.
        bind-Holds _
          (reject-Holds (is_empty (authority_and_path rest).0) EndpointError.empty_authority)
          λ _ _. bind-Holds _ (doh_authority-Holds (authority_and_path rest).0) λ a fits.
            bind-Holds _ (reject-Holds (is_empty a.0) EndpointError.empty_host)
              λ _ named. holds (named, fits, path-PlainPath rest)

-- An accepted DoT endpoint has a host that is not empty and a port of sixteen bits.
pub parse_dot_endpoint-Holds :
    (endpoint : Text)
    → Holds (λ r. (is_empty r.0 ≡ false) × (r.1 < 65536)) (parse_dot_endpoint endpoint)
unfolding parse_dot_endpoint
parse_dot_endpoint-Holds endpoint =
    bind-Holds _ (reject-Holds (is_empty endpoint) EndpointError.empty_endpoint) λ _ _.
      bind-Holds _ (dot_authority-Holds endpoint) λ a fits.
        bind-Holds _ (reject-Holds (is_empty a.0) EndpointError.empty_host)
          λ _ named. holds (named, fits)
