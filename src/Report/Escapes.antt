-- ===== src/Report/Escapes.antt =====
-- src/model/dns.rs, `esc_present` and the display of records, and src/report.rs,
-- `sanitize_snippet`: what a server sends is printed without control characters. `debug` is Rust's
-- `{:?}` of a text.
pub mod Printable
mod Examples
use ip_tools.Base.{
  is_control_byte, is_control_pair, ℕ, ◌+◌, ◌-◌, ◌/◌, ◌%◌, Bool, false, ◌&&◌, ◌||◌, nat_eq, ◌==◌,
  ltb, leb, if◌then◌else◌, List, [], ◌∷◌, ◌++◌, any, Text, text, decimal,
}
use ip_tools.Net.{show_ip, v4, v6}
use ip_tools.Model.{DnsRecord}

-- `\{:03o}`; the number of a two-byte control character is its second byte.
abbrev pub octal : ℕ → Text → Text
octal n rest = 92 ∷ (b'0' + n / 64) ∷ (b'0' + n / 8 % 8) ∷ (b'0' + n % 8) ∷ rest

unfoldable pub esc_present : Text → Text
esc_present [] = []
esc_present (a ∷ []) = if is_control_byte a then octal a [] else a ∷ []
esc_present (a ∷ b ∷ s) =
    let one = esc_present (b ∷ s) in
    let two = esc_present s in
    if is_control_byte a then octal a one else if is_control_pair a b then octal b two else a ∷ one

module _ (debug : Text → Text) where
  -- `Display for DnsRecord`.
  unfoldable pub show_record : DnsRecord → Text
  unfolding show_ip esc_present decimal
  show_record (DnsRecord.a ip) = show_ip (v4 ip)
  show_record (DnsRecord.aaaa ip) = show_ip (v6 ip)
  show_record (DnsRecord.cname name) = esc_present name
  show_record (DnsRecord.ns name) = esc_present name
  show_record (DnsRecord.ptr name) = esc_present name
  show_record (DnsRecord.mx preference exchange) = decimal preference ++ (32 ∷ esc_present exchange)
  show_record (DnsRecord.txt t) = debug t
  show_record (DnsRecord.soa t) = esc_present t
  show_record (DnsRecord.caa flags tag value) =
      decimal flags ++ (32 ∷ (tag ++ (32 ∷ esc_present value)))
  show_record (DnsRecord.srv priority weight port target) =
      decimal priority
      ++ (32 ∷ (decimal weight ++ (32 ∷ (decimal port ++ (32 ∷ esc_present target)))))

-- `{:x}` of a digit.
abbrev pub hex_digit : ℕ → ℕ
hex_digit d = if ltb d 10 then b'0' + d else b'a' + (d - 10)

-- The match on one character of `sanitize_snippet`, in front of what follows. The named escapes
-- come first; the rest of the range is written `\\x{:02x}`.
abbrev pub escape : ℕ → Text → Text
escape c rest =
    if c == 0x1B
    then 92 ∷ b'x' ∷ b'1' ∷ b'b' ∷ rest
    else if c == 10
    then 92 ∷ b'n' ∷ rest
    else if c == 9
    then 92 ∷ b't' ∷ rest
    else if c == 13
    then 92 ∷ b'r' ∷ rest
    else if is_control_byte c
    then 92 ∷ b'x' ∷ hex_digit (c / 16) ∷ hex_digit (c % 16) ∷ rest
    else c ∷ rest

unfoldable pub sanitize_snippet : Text → Text
sanitize_snippet [] = []
sanitize_snippet (c ∷ s) = escape c (sanitize_snippet s)
