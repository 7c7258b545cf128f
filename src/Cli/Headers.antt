-- ===== src/Cli/Headers.antt =====
-- src/cli/mod.rs: `--header`, `--method` and `--path`. `debug` is Rust's `{:?}` of a text, which the
-- messages quote lines with.
pub mod Injection
use ip_tools.Base.{
  is_control_byte, is_control_pair, ℕ, Bool, true, false, not, ◌&&◌, ◌||◌, nat_eq, ◌==◌, ltb, leb,
  if◌then◌else◌, Option, none, some, List, [], ◌∷◌, ◌++◌, map, any, all, is_empty, is_digit, Text,
  text, trim, split_once, split, strip_suffix, Result, done, fail, wide_space, middle_space,
  is_ascii_space,
}

abbrev is_alphanumeric : ℕ → Bool
is_alphanumeric b = is_digit b || (leb b'A' b && leb b b'Z') || (leb b'a' b && leb b b'z')

-- `tchar` of RFC 9110.
abbrev pub is_token_byte : ℕ → Bool
unfolding text
is_token_byte b = is_alphanumeric b || any (λ c. c == b) (text "!#$%&'*+-.^_`|~")

unfoldable pub valid_header_name : Text → Bool
unfolding is_token_byte
valid_header_name name = not (is_empty name) && all is_token_byte name

-- A text in single quotes.
abbrev pub in_quotes : Text → Text
in_quotes s = 39 ∷ (s ++ (39 ∷ []))

unfoldable pub http_method_token : Text → Result Text Text
unfolding is_token_byte text
http_method_token s =
    if is_empty s
    then fail (text "must be a non-empty HTTP method")
    else if not (all is_token_byte s)
    then fail (
        in_quotes s
        ++ text
            " is not a valid HTTP method (methods are tokens: letters, digits, or ! # $ % & ' * + - . ^ _ ` | ~)")
    else done s

-- `s.chars().any(|c| c.is_whitespace() || c.is_control())`. A first byte of a longer character is
-- never another character's later byte.
unfoldable pub has_blank : Text → Bool
has_blank [] = false
has_blank (a ∷ []) = is_control_byte a || is_ascii_space a
has_blank (a ∷ b ∷ []) =
    is_control_byte a
    || is_ascii_space a
    || is_control_pair a b
    || middle_space a b
    || has_blank (b ∷ [])
has_blank (a ∷ b ∷ c ∷ s) =
    is_control_byte a
    || is_ascii_space a
    || is_control_pair a b
    || middle_space a b
    || wide_space a b c
    || has_blank (b ∷ c ∷ s)

-- The control characters replaced by `?`.
unfoldable pub mask_controls : Text → Text
mask_controls [] = []
mask_controls (a ∷ []) = if is_control_byte a then b'?' ∷ [] else a ∷ []
mask_controls (a ∷ b ∷ s) =
    let one = mask_controls (b ∷ s) in
    let two = mask_controls s in
    if is_control_byte a then b'?' ∷ one else if is_control_pair a b then b'?' ∷ two else a ∷ one

abbrev starts_with_slash : Text → Bool
starts_with_slash [] = false
starts_with_slash (c ∷ s) = c == b'/'

unfoldable pub http_path_token : Text → Result Text Text
unfolding has_blank mask_controls text
http_path_token s =
    if is_empty s
    then fail (text "must be a non-empty request path (e.g. '/' or '/healthz')")
    else if not (starts_with_slash s)
    then fail (
        in_quotes s
        ++ (text " does not start with '/' "
            ++ ((0xE2 ∷ 0x80 ∷ 0x94 ∷ [])
                ++ text " a request-target is origin-form (RFC 9110 "
                ++ ((0xC2 ∷ 0xA7 ∷ []) ++ text "3.2)"))))
    else if has_blank s
    then fail (
        in_quotes (mask_controls s)
        ++ text " contains whitespace or control characters that cannot appear in a request-target")
    else done s

-- `(b < 0x20 && b != b'\t') || b == 0x7f`.
abbrev pub is_refused_byte : ℕ → Bool
is_refused_byte b = (ltb b 32 && not (b == 9)) || b == 127

-- `str::lines`: the part behind the last line feed is a line if it is not empty, and a carriage
-- return in front of a line feed is dropped.
abbrev strip_cr : Text → Text
unfolding strip_suffix
strip_cr s = elim (strip_suffix (13 ∷ []) s) [ none ↦ s | some rest ↦ rest ]

unfoldable pub lines_of : List Text → List Text
unfolding strip_cr
lines_of [] = []
lines_of (p ∷ []) = if is_empty p then [] else p ∷ []
lines_of (p ∷ q ∷ ps) = strip_cr p ∷ lines_of (q ∷ ps)

unfoldable pub lines : Text → List Text
unfolding split lines_of
lines s = lines_of (split 10 s)

module _ (debug : Text → Text) where
  unfoldable pub checked_header : Text → Text → Text → Result (Text × Text) Text
  unfolding valid_header_name text
  checked_header line name value =
      if not (valid_header_name name)
      then fail (
          text "invalid header "
          ++ (debug line
              ++ text
                  ": the name must be a valid HTTP token (e.g. 'authorization', not 'foo bar')"))
      else if any is_refused_byte value
      then fail (
          text "invalid header " ++ (debug line ++ text ": the value contains a control character"))
      else done (name, value)

  unfoldable pub parse_header_line : Text → Result (Text × Text) Text
  unfolding split_once trim checked_header text
  parse_header_line line = elim (split_once b':' line) [
    | none ↦ fail (
        text "invalid header "
        ++ (debug line ++ text "; expected NAME:VALUE, e.g. --header 'authorization: Bearer abc'"))
    | some (name, value) ↦ checked_header line (trim name) (trim value)
  ]

  -- The loop of `push_header_lines`: the first malformed line ends it.
  unfoldable pub push_lines :
      Text → List Text → List (Text × Text) → Result (List (Text × Text)) Text
  unfolding parse_header_line trim text
  push_lines source [] headers = done headers
  push_lines source (raw ∷ rest) headers =
      let line = trim raw in
      let skip = push_lines source rest headers in
      if is_empty line then skip else elim (parse_header_line line) [
        | fail e ↦ fail (e ++ (text " (from " ++ (source ++ text ")")))
        | done h ↦ push_lines source rest (headers ++ (h ∷ []))
      ]

  unfoldable pub push_header_lines :
      List (Text × Text) → Text → Text → Result (List (Text × Text)) Text
  unfolding push_lines lines
  push_header_lines headers s source = push_lines source (lines s) headers
