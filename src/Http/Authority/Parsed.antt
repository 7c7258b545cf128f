-- ===== src/Http/Authority/Parsed.antt =====
-- src/http_common.rs and src/target.rs: the authority of a target is parsed back into it.
use ip_tools.Base.{
  ℕ, ◌⊎◌, strip_prefix, ◌≤◌, ◌<◌, eq_of_beq, ◌≡◌, ◌≢◌, refl, sym, ap, ◌∙◌, inl, inr, Bool, true,
  false, not, ◌&&◌, Bool-cases, nat_eq, ◌==◌, if◌then◌else◌, [], ◌∷◌, ◌++◌, all, is_empty, arith,
  Text, trim_start_matches, trim_end_matches, matches_count, decimal, u16_max, done,
}
use mathlib.Core.List.{reverse, reverse-reverse, reverse-append}
use ip_tools.Base.Trimmed.{is_visible, all-append, all-reverse, trim-visible}
use ip_tools.Base.Splitting.{
  matches_count-append, split_once-first, matches_count-all, rsplit_once-none, strip_prefix-none,
}
use ip_tools.Target.{parse}
use ip_tools.Target.RoundTrip.{
  is_address_char, in_brackets, parse-bracketed, parse-bracketed_port, is_host_char, all-weaken,
  parse-plain_port, parse-host,
}
use ip_tools.Http.Authority.{
  wire_host, authority_has_explicit_port, trimmed_has_port, plain_has_port, bracketed_has_port,
  has_colon, default_port, wire_authority,
}

-- Visible ASCII but for `/`, `:`, `@` and brackets.
abbrev pub is_name_char : ℕ → Bool
is_name_char c = is_host_char c && not (c == b']')

trim_start-absent : (c : ℕ) (s : Text) → matches_count c s ≡ 0 → trim_start_matches c s ≡ s
unfolding matches_count trim_start_matches
trim_start-absent c [] h = refl
trim_start-absent c (d ∷ s) h = let other : (c == d) ≡ false = ground (arith, h) in rw other refl

module _ (host : Text) (plain : all is_name_char host ≡ true) where
  wire_host-plain : wire_host host ≡ host
  unfolding wire_host trim_end_matches
  wire_host-plain =
      rw
        (
          trim_start-absent b'[' host (matches_count-all is_name_char b'[' host refl plain),
          trim_start-absent b']' (reverse host) (
              matches_count-all is_name_char b']' (reverse host) refl
                (all-reverse is_name_char host plain)),
        )
        (reverse-reverse host)

  no_colon : matches_count b':' host ≡ 0
  no_colon = matches_count-all is_name_char b':' host refl plain

  hosted : all is_host_char host ≡ true
  hosted = all-weaken is_name_char is_host_char host (λ c h. ground (arith, h)) plain

  visible : all is_visible host ≡ true
  visible = all-weaken is_name_char is_visible host (λ c h. ground (arith, h)) plain

  no_bracket : matches_count b'[' host < 1
  no_bracket = omega (arith, matches_count-all is_name_char b'[' host refl plain)

  no_port : authority_has_explicit_port host ≡ false
  unfolding authority_has_explicit_port trimmed_has_port plain_has_port matches_count
  no_port =
      ap trimmed_has_port (trim-visible host visible)
      ∙ rw
          (
            strip_prefix-none (b'[' ∷ []) host b'[' no_bracket,
            rsplit_once-none b':' host no_colon,
            trimmed_has_port,
            plain_has_port,
          )
          refl

  authority_of :
      (port : ℕ) (tls : Bool)
      → wire_authority host port tls ≡ (
          if not (port == 0) && not (port == default_port tls)
          then host ++ (b':' ∷ decimal port)
          else host)
  unfolding wire_authority
  authority_of port tls = rw (no_port, wire_host-plain, no_colon, wire_authority) refl

  named-parse :
      (port : ℕ) (tls : Bool)
      → is_empty host ≡ false
      → port ≢ 0
      → port ≤ u16_max
      → parse (wire_authority host port tls) (default_port tls)
        ≡ done (record { host = host; port = port })
  named-parse port tls named nonzero fits = elim (Bool-cases (port == default_port tls)) [
    | inl h ↦
        let same : port ≡ default_port tls = eq_of_beq port (default_port tls) h in
        ap (λ a. parse a (default_port tls)) (authority_of port tls ∙ rw h (ground (arith)))
        ∙ parse-host host (default_port tls) named hosted
        ∙ ap (λ n. done (record { host = host; port = n })) (sym same)
    | inr h ↦
        ap (λ a. parse a (default_port tls))
          (authority_of port tls
            ∙ (let other : (port == 0) ≡ false = ground (arith, nonzero) in rw (other, h) refl))
        ∙ parse-plain_port host port (default_port tls) named hosted fits
  ]

-- Visible ASCII but for brackets, and a colon among them: an IPv6 address, say.
abbrev pub is_v6_char : ℕ → Bool
is_v6_char c = is_address_char c && not (c == b'[')

module _ (addr : Text) (plain : all is_v6_char addr ≡ true) (colon : has_colon addr ≡ true) where
  addressed : all is_address_char addr ≡ true
  addressed = all-weaken is_v6_char is_address_char addr (λ c h. ground (arith, h)) plain

  wire_host-in_brackets : wire_host (in_brackets addr) ≡ addr
  unfolding wire_host trim_end_matches trim_start_matches matches_count
  wire_host-in_brackets =
      rw
        (
          trim_start-absent b'[' (addr ++ (b']' ∷ [])) (
              omega (
                arith,
                matches_count-append b'[' addr (b']' ∷ []),
                matches_count-all is_v6_char b'[' addr refl plain,
              )),
          reverse-append addr (b']' ∷ []),
          trim_start-absent b']' (reverse addr) (
              matches_count-all is_v6_char b']' (reverse addr) refl
                (all-reverse is_v6_char addr plain)),
        )
        (reverse-reverse addr)

  no_port_behind : authority_has_explicit_port (in_brackets addr) ≡ false
  unfolding authority_has_explicit_port trimmed_has_port bracketed_has_port strip_prefix
  no_port_behind =
      ap trimmed_has_port (
        trim-visible (in_brackets addr) (
          ground (
            arith,
            all-append is_visible addr (b']' ∷ []),
            all-weaken is_v6_char is_visible addr (λ c h. ground (arith, h)) plain,
          )))
      ∙ rw
          (
            split_once-first is_address_char b']' (b'[' ∷ addr) [] refl addressed,
            bracketed_has_port,
          )
          refl

  bracketed_authority_of :
      (port : ℕ) (tls : Bool)
      → wire_authority (in_brackets addr) port tls ≡ (
          if not (port == 0) && not (port == default_port tls)
          then in_brackets addr ++ (b':' ∷ decimal port)
          else in_brackets addr)
  unfolding wire_authority
  bracketed_authority_of port tls =
      rw (no_port_behind, wire_host-in_brackets, colon, wire_authority) refl

  bracketed-parse :
      (port : ℕ) (tls : Bool)
      → is_empty addr ≡ false
      → port ≢ 0
      → port ≤ u16_max
      → parse (wire_authority (in_brackets addr) port tls) (default_port tls)
        ≡ done (record { host = in_brackets addr; port = port })
  bracketed-parse port tls named nonzero fits = elim (Bool-cases (port == default_port tls)) [
    | inl h ↦
        let same : port ≡ default_port tls = eq_of_beq port (default_port tls) h in
        ap (λ a. parse a (default_port tls))
          (bracketed_authority_of port tls ∙ rw h (ground (arith)))
        ∙ parse-bracketed addr named addressed (default_port tls)
        ∙ ap (λ n. done (record { host = in_brackets addr; port = n })) (sym same)
    | inr h ↦
        ap (λ a. parse a (default_port tls))
          (bracketed_authority_of port tls
            ∙ (let other : (port == 0) ≡ false = ground (arith, nonzero) in rw (other, h) refl))
        ∙ parse-bracketed_port addr named addressed port (default_port tls) fits
  ]

-- A host that is written in an authority as it stands: a name (not empty, of visible ASCII characters
-- but for `/`, `:`, `@` and brackets), or an address in brackets (not empty, of visible ASCII
-- characters but for brackets, a colon among them).
abbrev pub IsWireHost : Text → Type 0
IsWireHost host =
    ((is_empty host ≡ false) × (all is_name_char host ≡ true))
    ⊎ ((addr : Text) × (host ≡ in_brackets addr)
        × (is_empty addr ≡ false)
        × (all is_v6_char addr ≡ true)
        × (has_colon addr ≡ true))

-- The authority that a request sends is parsed back into the host and the port, with the scheme's port
-- for a default: the host is a name (not empty, of visible ASCII characters but for `/`, `:`, `@` and
-- brackets) or an address in brackets (not empty, of visible ASCII characters but for brackets, a
-- colon among them), and the port has 16 bits and is not 0.
pub wire_authority-parse :
    (host : Text) (port : ℕ) (tls : Bool)
    → IsWireHost host
    → port ≢ 0
    → port ≤ u16_max
    → parse (wire_authority host port tls) (default_port tls)
      ≡ done (record { host = host; port = port })
wire_authority-parse host port tls (inl (named, plain)) nonzero fits =
    named-parse host plain port tls named nonzero fits
wire_authority-parse host port tls (inr (addr, e, named, plain, colon)) nonzero fits =
    rw e (bracketed-parse addr plain colon port tls named nonzero fits)
