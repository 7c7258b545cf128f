-- ===== src/Base/Strings.antt =====
-- Rust's `String` and `str`: the UTF-8 bytes of the text. Positions and lengths count bytes, as
-- `str::len` and slicing do.
use Prim.Native.Char.{code}
use Prim.Native.String.{String}
use Prim.Native.Nat.{ℕ, zero, suc, ◌+◌, ◌-◌, ◌*◌, ◌/◌, ◌%◌, ◌^◌}
use mathlib.Core.Path.{◌≡◌}
use mathlib.Core.Logic.{◌↔◌}
use mathlib.Core.Bool.{Bool, true, false, ◌&&◌, ◌||◌}
use mathlib.Core.List.{List, [], ◌∷◌, ◌++◌, reverse}
use mathlib.Core.Option.{Option, none, some}
use native.Mathlib.Omega.{arith}
use ip_tools.Base.Logic.{nat_eq, ltb, leb, PartialEq, ◌==◌, if◌then◌else◌}
use ip_tools.Base.Lists.{length, take, drop}

abbrev pub Bytes : Type 0
Bytes = List ℕ

abbrev pub Text : Type 0
Text = Bytes

-- The bytes of a literal, all of whose characters are ASCII.
unfoldable pub text : String → Text
text String.[] = []
text (String.◌∷◌ c s) = code c ∷ text s

unfoldable pub text_beq : Text → Text → Bool
text_beq [] [] = true
text_beq (c ∷ s) (d ∷ t) = c == d && text_beq s t
text_beq _ _ = false

pub text_beq_iff : (s t : Text) → (text_beq s t ≡ true) ↔ (s ≡ t)
unfolding text_beq
text_beq_iff [] [] = ground arith
text_beq_iff [] (d ∷ t) = ground arith
text_beq_iff (c ∷ s) [] = ground arith
text_beq_iff (c ∷ s) (d ∷ t) = ground (arith, text_beq_iff s t)

instance abbrev pub text_eq : PartialEq Text
text_eq = record { beq = text_beq; beq_iff = text_beq_iff }

-- `format!` and `push_str`: the pieces one after the other.
unfoldable pub concat : List Text → Text
concat [] = []
concat (s ∷ ss) = s ++ concat ss

-- `str::strip_prefix`.
unfoldable pub strip_prefix : Text → Text → Option Text
strip_prefix [] s = some s
strip_prefix (c ∷ p) [] = none
strip_prefix (c ∷ p) (d ∷ s) = let rest = strip_prefix p s in if c == d then rest else none

-- `str::strip_suffix`.
unfoldable pub strip_suffix : Text → Text → Option Text
unfolding strip_prefix
strip_suffix p s = elim (strip_prefix (reverse p) (reverse s)) [
  | none ↦ none
  | some r ↦ some (reverse r)
]

-- `str::split_once` at a character, the first one.
unfoldable pub split_once : ℕ → Text → Option (Text × Text)
split_once c [] = none
split_once c (d ∷ s) =
    let rest = split_once c s in
    if c == d then some ([], s) else elim rest [ none ↦ none | some (a, b) ↦ some (d ∷ a, b) ]

-- `str::rsplit_once` at a character, the last one.
unfoldable pub rsplit_once : ℕ → Text → Option (Text × Text)
rsplit_once c [] = none
rsplit_once c (d ∷ s) = elim (rsplit_once c s) [
  | some (a, b) ↦ some (d ∷ a, b)
  | none ↦ if c == d then some ([], s) else none
]

-- `s.matches(c).count()`.
unfoldable pub matches_count : ℕ → Text → ℕ
matches_count c [] = 0
matches_count c (d ∷ s) = (if c == d then 1 else 0) + matches_count c s

-- `str::split` at a character: one part more than there are separators.
unfoldable pub split : ℕ → Text → List Text
split c [] = [] ∷ []
split c (d ∷ s) = elim (split c s) [
  | [] ↦ []
  | p ∷ ps ↦ if c == d then [] ∷ (p ∷ ps) else (d ∷ p) ∷ ps
]

-- `[T]::join` of texts.
unfoldable pub join : Text → List Text → Text
join sep [] = []
join sep (p ∷ []) = p
join sep (p ∷ q ∷ ps) = p ++ (sep ++ join sep (q ∷ ps))

-- `trim_start_matches` and `trim_end_matches` of a character.
unfoldable pub trim_start_matches : ℕ → Text → Text
trim_start_matches c [] = []
trim_start_matches c (d ∷ s) = let rest = trim_start_matches c s in if c == d then rest else d ∷ s

unfoldable pub trim_end_matches : ℕ → Text → Text
unfolding trim_start_matches
trim_end_matches c s = reverse (trim_start_matches c (reverse s))

-- The characters of `char::is_whitespace` of two and three bytes.
abbrev pub wide_space : ℕ → ℕ → ℕ → Bool
wide_space a b c =
    (a == 0xE1 && b == 0x9A && c == 0x80)
    || (a == 0xE2 && b == 0x80 && (leb 0x80 c && leb c 0x8A || c == 0xA8 || c == 0xA9 || c == 0xAF))
    || (a == 0xE2 && b == 0x81 && c == 0x9F)
    || (a == 0xE3 && b == 0x80 && c == 0x80)

abbrev pub middle_space : ℕ → ℕ → Bool
middle_space a b = a == 0xC2 && (b == 0x85 || b == 0xA0)

abbrev pub is_ascii_space : ℕ → Bool
is_ascii_space c = leb 9 c && leb c 13 || c == 32

-- `char::is_control` at a character of one byte, and at one of two bytes.
abbrev pub is_control_byte : ℕ → Bool
is_control_byte c = ltb c 32 || c == 127

abbrev pub is_control_pair : ℕ → ℕ → Bool
is_control_pair a b = a == 0xC2 && leb 0x80 b && leb b 0x9F

-- The whitespace at the front; `back` says that the bytes come last first.
unfoldable pub trim_front : Bool → Text → Text
trim_front back [] = []
trim_front back (a ∷ []) = if is_ascii_space a then [] else a ∷ []
trim_front back (a ∷ b ∷ []) =
    let rest = trim_front back (b ∷ []) in
    if is_ascii_space a
    then rest
    else if (if back then middle_space b a else middle_space a b)
    then []
    else a ∷ b ∷ []
trim_front back (a ∷ b ∷ c ∷ s) =
    let one = trim_front back (b ∷ c ∷ s) in
    let two = trim_front back (c ∷ s) in
    let three = trim_front back s in
    if is_ascii_space a
    then one
    else if (if back then middle_space b a else middle_space a b)
    then two
    else if (if back then wide_space c b a else wide_space a b c)
    then three
    else a ∷ b ∷ c ∷ s

-- `str::trim`.
unfoldable pub trim : Text → Text
unfolding trim_front
trim s = reverse (trim_front true (reverse (trim_front false s)))

-- `char::to_ascii_lowercase` and `str::to_ascii_lowercase`.
abbrev pub lower : ℕ → ℕ
lower c = if leb b'A' c && leb c b'Z' then c + 32 else c

unfoldable pub to_ascii_lowercase : Text → Text
to_ascii_lowercase [] = []
to_ascii_lowercase (c ∷ s) = lower c ∷ to_ascii_lowercase s

abbrev pub is_digit : ℕ → Bool
is_digit c = leb b'0' c && leb c b'9'

-- Decimal digits, the last one first computed; `fuel` is more than their number.
unfoldable pub digits : ℕ → ℕ → Text → Text
digits zero n out = out
digits (suc fuel) n out =
    let more = digits fuel (n / 10) ((b'0' + n % 10) ∷ out) in
    if ltb n 10 then (b'0' + n) ∷ out else more

-- `ToString` of an unsigned integer.
unfoldable pub decimal : ℕ → Text
unfolding digits
decimal n = digits (suc n) n []

-- Reading decimal digits behind `n`; `none` above `limit` or at another character.
unfoldable pub scan_digits : ℕ → ℕ → Text → Option ℕ
scan_digits limit n [] = some n
scan_digits limit n (c ∷ s) =
    let rest = scan_digits limit (n * 10 + (c - b'0')) s in
    if is_digit c && leb (n * 10 + (c - b'0')) limit then rest else none

-- `str::parse` into an unsigned integer of at most `limit`: an optional `+`, then digits.
unfoldable pub parse_unsigned : ℕ → Text → Option ℕ
unfolding scan_digits
parse_unsigned limit [] = none
parse_unsigned limit (c ∷ []) = scan_digits limit 0 (c ∷ [])
parse_unsigned limit (c ∷ d ∷ s) =
    if c == b'+' then scan_digits limit 0 (d ∷ s) else scan_digits limit 0 (c ∷ d ∷ s)

abbrev pub u16_max : ℕ
u16_max = 2 ^ 16 - 1

unfoldable pub parse_u16 : Text → Option ℕ
unfolding parse_unsigned
parse_u16 = parse_unsigned u16_max

-- A position of `str::get` is at a character's first byte, or at the end.
abbrev boundary : Text → Bool
boundary [] = true
boundary (c ∷ s) = ltb c 0x80 || leb 0xC0 c

-- `str::get(a..b)`.
unfoldable pub get_range : Text → ℕ → ℕ → Option Text
get_range s a b =
    if leb a b && leb b (length s) && boundary (drop a s) && boundary (drop b s)
    then some (take (b - a) (drop a s))
    else none
