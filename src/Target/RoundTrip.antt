-- ===== src/Target/RoundTrip.antt =====
-- src/target.rs: a host and a port, written with a colon between them, are parsed back.
use ip_tools.Base.{
  ℕ, ◌⊎◌, inl, inr, sym, append-nil, append_assoc, ◌≤◌, ◌<◌, ◌≡◌, refl, ap, ◌∙◌, [], ◌∷◌, ◌++◌,
  Bool, true, false, not, ◌&&◌, ◌||◌, nat_eq, ◌==◌, arith, strip_prefix, Text, text, decimal,
  is_digit, all, is_empty, matches_count, u16_max, done,
}
use ip_tools.Base.Decimal.{decimal-digits, parse_u16-decimal}
use ip_tools.Base.Trimmed.{is_visible, all-append, trim-visible}
use ip_tools.Base.Splitting.{
  matches_count-append, matches_count-all, rsplit_once-none, rsplit_once-last, strip_prefix-none,
  split_once-first,
}
use ip_tools.Target.{
  parse, parse_trimmed, parse_unbracketed, parse_plain, parse_host_port, parse_port,
  parse_bracketed,
}

-- Visible ASCII but for `/`, `:`, `@` and `[`.
abbrev pub is_host_char : ℕ → Bool
is_host_char c = is_visible c && not (c == b'/' || c == b':' || c == b'@' || c == b'[')

pub all-weaken :
    (p q : ℕ → Bool) (s : Text)
    → ((c : ℕ) → p c ≡ true → q c ≡ true)
    → all p s ≡ true
    → all q s ≡ true
all-weaken p q [] h k = refl
all-weaken p q (c ∷ s) h k =
    ground (arith, h c (ground (arith, k)), all-weaken p q s h (ground (arith, k)))

module _ (host : Text) (port default_port : ℕ) (named : is_empty host ≡ false)
    (plain : all is_host_char host ≡ true) (fits : port ≤ u16_max) where
  abbrev input : Text
  input = host ++ (b':' ∷ decimal port)

  digit_count : (c : ℕ) → is_digit c ≡ false → matches_count c (decimal port) ≡ 0
  digit_count c h = matches_count-all is_digit c (decimal port) h (decimal-digits port)

  absent :
      (c : ℕ)
      → is_host_char c ≡ false
      → is_digit c ≡ false
      → (c == b':') ≡ false
      → matches_count c input ≡ 0
  unfolding matches_count
  absent c h k colon = ground (
    arith,
    colon,
    matches_count-append c host (b':' ∷ decimal port),
    matches_count-all is_host_char c host h plain,
    digit_count c k,
  )

  no_scheme : matches_count b'/' input < 2
  no_scheme = omega (arith, absent b'/' refl refl refl)

  no_bracket : matches_count b'[' input < 1
  no_bracket = omega (arith, absent b'[' refl refl refl)

  one_colon : matches_count b':' input ≡ 1
  unfolding matches_count
  one_colon = ground (
    arith,
    matches_count-append b':' host (b':' ∷ decimal port),
    matches_count-all is_host_char b':' host refl plain,
    digit_count b':' refl,
  )

  visible : all is_visible input ≡ true
  visible = ground (
    arith,
    all-append is_visible host (b':' ∷ decimal port),
    all-weaken is_host_char is_visible host (λ c h. ground (arith, h)) plain,
    all-weaken is_digit is_visible (decimal port) (λ c h. ground (arith, h)) (decimal-digits port),
  )

  host_port : parse_host_port input ≡ done (record { host = host; port = port })
  unfolding parse_host_port parse_port
  host_port =
      rw
        (
          rsplit_once-last b':' host (decimal port) (digit_count b':' refl),
          named,
          decimal-digits port,
          parse_u16-decimal port fits,
          parse_host_port,
          parse_port,
        )
        refl

  pub parse-plain_port : parse input default_port ≡ done (record { host = host; port = port })
  unfolding parse parse_trimmed parse_unbracketed parse_plain text matches_count
  parse-plain_port =
      ap (λ s. parse_trimmed s default_port) (trim-visible input visible)
      ∙ rw
          (
            strip_prefix-none (text "http://") input b'/' no_scheme,
            strip_prefix-none (text "https://") input b'/' no_scheme,
            strip_prefix-none (b'[' ∷ []) input b'[' no_bracket,
            rsplit_once-none b'@' input (absent b'@' refl refl refl),
            one_colon,
            parse_trimmed,
            parse_unbracketed,
            parse_plain,
          )
          host_port

-- A host alone gets the default port.
pub parse-host :
    (host : Text) (default_port : ℕ)
    → is_empty host ≡ false
    → all is_host_char host ≡ true
    → parse host default_port ≡ done (record { host = host; port = default_port })
unfolding parse parse_trimmed parse_unbracketed parse_plain text matches_count
parse-host host default_port named plain =
    let absent =
      λ (c : ℕ) (h : is_host_char c ≡ false). matches_count-all is_host_char c host h plain in
    let visible = all-weaken is_host_char is_visible host (λ c h. ground (arith, h)) plain in
    let no_slash : matches_count b'/' host < 2 = omega (arith, absent b'/' refl) in
    let no_bracket : matches_count b'[' host < 1 = omega (arith, absent b'[' refl) in
    ap (λ s. parse_trimmed s default_port) (trim-visible host visible)
    ∙ rw
        (
          strip_prefix-none (text "http://") host b'/' no_slash,
          strip_prefix-none (text "https://") host b'/' no_slash,
          strip_prefix-none (b'[' ∷ []) host b'[' no_bracket,
          rsplit_once-none b'@' host (absent b'@' refl),
          absent b':' refl,
          trim-visible host visible,
          named,
          parse_trimmed,
          parse_unbracketed,
          parse_plain,
        )
        refl

-- Visible ASCII but for `]`: what stands in the brackets of an address.
abbrev pub is_address_char : ℕ → Bool
is_address_char c = is_visible c && not (c == b']')

abbrev pub in_brackets : Text → Text
in_brackets addr = b'[' ∷ (addr ++ (b']' ∷ []))

module _ (addr : Text) (named : is_empty addr ≡ false)
    (plain : all is_address_char addr ≡ true) where
  seen : all is_visible addr ≡ true
  seen = all-weaken is_address_char is_visible addr (λ c h. ground (arith, h)) plain

  -- What follows the brackets is visible too, and the text is parsed as an address in brackets.
  parse-in_brackets :
      (after : Text) (default_port : ℕ)
      → all is_visible after ≡ true
      → parse (in_brackets addr ++ after) default_port
        ≡ parse_bracketed (in_brackets addr ++ after) (addr ++ (b']' ∷ after)) default_port
  unfolding parse parse_trimmed text strip_prefix
  parse-in_brackets after default_port h =
      let whole : in_brackets addr ++ after ≡ b'[' ∷ (addr ++ (b']' ∷ after)) =
        ap (λ s. b'[' ∷ s) (append_assoc addr (b']' ∷ []) after) in
      let visible : all is_visible (b'[' ∷ (addr ++ (b']' ∷ after))) ≡ true =
        ground (arith, all-append is_visible addr (b']' ∷ after), seen, h) in
      rw whole (
        ap (λ s. parse_trimmed s default_port)
          (trim-visible (b'[' ∷ (addr ++ (b']' ∷ after))) visible))

  pub parse-bracketed_port :
      (port default_port : ℕ)
      → port ≤ u16_max
      → parse (in_brackets addr ++ (b':' ∷ decimal port)) default_port
        ≡ done (record { host = in_brackets addr; port = port })
  unfolding parse_bracketed parse_port strip_prefix
  parse-bracketed_port port default_port fits =
      parse-in_brackets (b':' ∷ decimal port) default_port (
        all-weaken is_digit is_visible (decimal port) (λ c h. ground (arith, h))
          (decimal-digits port))
      ∙ rw
          (
            split_once-first is_address_char b']' addr (b':' ∷ decimal port) refl plain,
            named,
            parse_u16-decimal port fits,
            parse_bracketed,
            parse_port,
          )
          refl

  pub parse-bracketed :
      (default_port : ℕ)
      → parse (in_brackets addr) default_port
        ≡ done (record { host = in_brackets addr; port = default_port })
  unfolding parse_bracketed
  parse-bracketed default_port =
      ap (λ s. parse s default_port) (sym (append-nil (in_brackets addr)))
      ∙ (parse-in_brackets [] default_port refl
          ∙ rw (split_once-first is_address_char b']' addr [] refl plain, named, parse_bracketed)
              refl)

-- A host as the parser takes it: not empty and of visible ASCII characters but for `/`, `:`, `@` and
-- `[`, or an address in brackets, not empty and of visible ASCII characters but for `]`.
abbrev pub IsHost : Text → Type 0
IsHost host =
    ((is_empty host ≡ false) × (all is_host_char host ≡ true))
    ⊎ ((addr : Text) × (host ≡ in_brackets addr)
        × (is_empty addr ≡ false)
        × (all is_address_char addr ≡ true))

-- A name (not empty, of visible ASCII characters but for `/`, `:`, `@` and `[`) or an address in
-- brackets (not empty, of visible ASCII characters but for `]`), then a colon and a port of 16 bits
-- in decimal: the parser gives that host and that port, whatever the default port.
pub parse-host_port :
    (host : Text) (port default_port : ℕ)
    → IsHost host
    → port ≤ u16_max
    → parse (host ++ (b':' ∷ decimal port)) default_port
      ≡ done (record { host = host; port = port })
parse-host_port host port default_port (inl (named, plain)) fits =
    parse-plain_port host port default_port named plain fits
parse-host_port host port default_port (inr (addr, e, named, plain)) fits =
    rw e (parse-bracketed_port addr named plain port default_port fits)
