-- ===== src/Report/Escapes/Printable.antt =====
-- src/model/dns.rs and src/report.rs: no control character is left in an escaped text.
use ip_tools.Base.{
  is_control_byte, is_control_pair, ℕ, ◌+◌, ◌/◌, ◌%◌, ◌<◌, ◌≡◌, refl, ◌⊎◌, inl, inr, Bool, true,
  false, ◌||◌, Bool-cases, nat_eq, ltb, [], ◌∷◌, ◌++◌, any, any-append, all, arith, Text, is_digit,
  decimal,
}
use ip_tools.Base.Decimal.{decimal-digits}
use ip_tools.Base.Trimmed.{is_visible}
use ip_tools.Net.{v4, v6}
use ip_tools.Net.Visible.{show_ip-visible}
use ip_tools.Model.{DnsRecord}
use ip_tools.Report.Escapes.{show_record, octal, esc_present, hex_digit, escape, sanitize_snippet}

-- A control character, of one byte or of two.
unfoldable pub has_control : Text → Bool
has_control [] = false
has_control (a ∷ []) = is_control_byte a
has_control (a ∷ b ∷ s) = is_control_byte a || is_control_pair a b || has_control (b ∷ s)

-- The first byte of an escaped text: a backslash, or the text's own.
esc_present-first :
    (b : ℕ) (s : Text)
    → (c : ℕ) × (rest : Text) × (esc_present (b ∷ s) ≡ c ∷ rest) × ((c ≡ 92) ⊎ (c ≡ b))
unfolding esc_present
esc_present-first b [] = elim (Bool-cases (is_control_byte b)) [
  | inl h ↦ rw h (92, _, refl, inl refl)
  | inr h ↦ rw h (b, [], refl, inr refl)
]
esc_present-first b (d ∷ s) = elim (Bool-cases (is_control_byte b)) [
  | inl h ↦ rw h (92, _, refl, inl refl)
  | inr h ↦ elim (Bool-cases (is_control_pair b d)) [
    | inl k ↦ rw (h, k) (92, _, refl, inl refl)
    | inr k ↦ rw (h, k) (b, _, refl, inr refl)
  ]
]

-- A byte in front of a text without control characters.
has_control-cons :
    (a c : ℕ) (rest : Text)
    → is_control_byte a ≡ false
    → is_control_pair a c ≡ false
    → has_control (c ∷ rest) ≡ false
    → has_control (a ∷ c ∷ rest) ≡ false
unfolding has_control
has_control-cons a c rest h k l = ground (arith, h, k, l)

has_control-visible :
    (a : ℕ) (rest : Text)
    → ltb 31 a ≡ true
    → ltb a 127 ≡ true
    → has_control rest ≡ false
    → has_control (a ∷ rest) ≡ false
unfolding has_control
has_control-visible a [] h k l = ground (arith, h, k)
has_control-visible a (c ∷ rest) h k l = ground (arith, h, k, l)

has_control-octal :
    (n : ℕ) (rest : Text) → n < 256 → has_control rest ≡ false → has_control (octal n rest) ≡ false
has_control-octal n rest h l = has_control-visible 92 _ refl refl (
    has_control-visible (b'0' + n / 64) _ (ground arith) (ground arith) (
      has_control-visible (b'0' + n / 8 % 8) _ (ground arith) (ground arith)
        (has_control-visible (b'0' + n % 8) rest (ground arith) (ground arith) l)))

other : (a b c : ℕ) → (c ≡ 92) ⊎ (c ≡ b) → is_control_pair a b ≡ false → is_control_pair a c ≡ false
other a b c (inl e) k = ground (arith, e)
other a b c (inr e) k = rw e k

-- A name of a DNS record is printed without a control character, of ASCII or of the range behind it,
-- whatever bytes the server sent in it.
pub esc_present-printable : (s : Text) → has_control (esc_present s) ≡ false
unfolding esc_present has_control
esc_present-printable [] = refl
esc_present-printable (a ∷ []) = elim (Bool-cases (is_control_byte a)) [
  | inl h ↦ rw h (has_control-octal a [] (ground (arith, h)) refl)
  | inr h ↦ rw h h
]
esc_present-printable (a ∷ b ∷ s) = elim (Bool-cases (is_control_byte a)) [
  | inl h ↦ rw h (has_control-octal a _ (ground (arith, h)) (esc_present-printable (b ∷ s)))
  | inr h ↦ elim (Bool-cases (is_control_pair a b)) [
    | inl k ↦ rw (h, k) (has_control-octal b _ (ground (arith, k)) (esc_present-printable s))
    | inr k ↦
        let (c, rest, e, o) = esc_present-first b s in
        rw (h, k, e)
          (has_control-cons a c rest h (other a b c o k) (rw e at (esc_present-printable (b ∷ s))))
  ]
]

hex_digit-printable : (d : ℕ) → d < 16 → is_control_byte (hex_digit d) ≡ false
hex_digit-printable d h = ground arith

escape-printable :
    (c : ℕ) (rest : Text)
    → any is_control_byte rest ≡ false
    → any is_control_byte (escape c rest) ≡ false
escape-printable c rest h = elim (Bool-cases (is_control_byte c)) [
  | inr k ↦ ground (arith, h, k)
  | inl k ↦
      let small : c < 128 = ground (arith, k) in
      ground (
        arith,
        h,
        hex_digit-printable (c / 16) (omega (arith, small)),
        hex_digit-printable (c % 16) (omega arith),
      )
]

-- A body's snippet is printed without an ASCII control character,
-- whatever bytes the server sent.
pub sanitize_snippet-printable : (s : Text) → any is_control_byte (sanitize_snippet s) ≡ false
unfolding sanitize_snippet
sanitize_snippet-printable [] = refl
sanitize_snippet-printable (c ∷ s) =
    escape-printable c (sanitize_snippet s) (sanitize_snippet-printable s)

has_control-digits :
    (d rest : Text)
    → all is_digit d ≡ true
    → has_control rest ≡ false
    → has_control (d ++ rest) ≡ false
has_control-digits [] rest h l = l
has_control-digits (c ∷ d) rest h l =
    has_control-visible c (d ++ rest) (ground (arith, h)) (ground (arith, h))
      (has_control-digits d rest (ground (arith, h)) l)

number :
    (n : ℕ) (rest : Text)
    → has_control rest ≡ false
    → has_control (decimal n ++ (32 ∷ rest)) ≡ false
number n rest h =
    has_control-digits (decimal n) (32 ∷ rest) (decimal-digits n)
      (has_control-visible 32 rest refl refl h)

has_control-all : (t : Text) → all is_visible t ≡ true → has_control t ≡ false
unfolding has_control
has_control-all [] h = refl
has_control-all (c ∷ t) h =
    has_control-visible c t (ground (arith, h)) (ground (arith, h))
      (has_control-all t (ground (arith, h)))

-- A blank behind a text ends its last character.
has_control-blank :
    (t rest : Text)
    → has_control t ≡ false
    → has_control rest ≡ false
    → has_control (t ++ (32 ∷ rest)) ≡ false
unfolding has_control
has_control-blank [] rest h l = has_control-visible 32 rest refl refl l
has_control-blank (a ∷ []) rest h l = ground (arith, h, has_control-visible 32 rest refl refl l)
has_control-blank (a ∷ b ∷ t) rest h l =
    ground (arith, h, has_control-blank (b ∷ t) rest (ground (arith, h)) l)

-- The tag of a CAA record, the one name that is printed as it stands.
abbrev pub HasCleanTag : DnsRecord → Type 0
HasCleanTag (DnsRecord.caa flags tag value) = has_control tag ≡ false
HasCleanTag _ = Unit

-- A record is printed without a control character, of ASCII or of the range behind it, whatever bytes
-- its names and its value have, if in a CAA record the tag has none; Rust's `{:?}`, with which a TXT
-- record is printed, leaves none in any text.
pub show_record-printable :
    (debug : Text → Text) (r : DnsRecord)
    → ((t : Text) → has_control (debug t) ≡ false)
    → HasCleanTag r
    → has_control (show_record debug r) ≡ false
unfolding show_record
show_record-printable debug (DnsRecord.a ip) d h = has_control-all _ (show_ip-visible (v4 ip))
show_record-printable debug (DnsRecord.aaaa ip) d h = has_control-all _ (show_ip-visible (v6 ip))
show_record-printable debug (DnsRecord.txt t) d h = d t
show_record-printable debug (DnsRecord.cname t) d h = esc_present-printable t
show_record-printable debug (DnsRecord.ns t) d h = esc_present-printable t
show_record-printable debug (DnsRecord.ptr t) d h = esc_present-printable t
show_record-printable debug (DnsRecord.soa t) d h = esc_present-printable t
show_record-printable debug (DnsRecord.mx n t) d h = number n _ (esc_present-printable t)
show_record-printable debug (DnsRecord.srv p w o t) d h =
    number p _ (number w _ (number o _ (esc_present-printable t)))
show_record-printable debug (DnsRecord.caa flags tag value) d h =
    number flags _ (has_control-blank tag _ h (esc_present-printable value))

-- The tag of a CAA record is printed as the server sent it: a control byte in it, an escape of the
-- terminal say, is a control byte of the record's text.
pub show_record-caa_tag :
    (debug : Text → Text) (flags : ℕ) (tag value : Text)
    → any is_control_byte tag ≡ true
    → any is_control_byte (show_record debug (DnsRecord.caa flags tag value)) ≡ true
unfolding show_record
show_record-caa_tag debug flags tag value h = ground (
  arith,
  h,
  any-append is_control_byte (decimal flags) (32 ∷ (tag ++ (32 ∷ esc_present value))),
  any-append is_control_byte tag (32 ∷ esc_present value),
)
