-- ===== src/Cli/Status.antt =====
-- src/cli/mod.rs: `--expect-status` and `--expect-contains`. `debug` is Rust's `{:?}` of a text.
pub mod Spec
pub mod Verdict
use ip_tools.Base.{
  ℕ, ◌/◌, Bool, true, false, not, ◌&&◌, ◌||◌, nat_eq, ◌==◌, ltb, leb, if◌then◌else◌, Option, none,
  some, is_some, is_some_and, List, [], ◌∷◌, ◌++◌, is_empty, Text, text, join, trim, decimal,
  strip_suffix, strip_prefix, parse_u16, Result, done, fail,
}
use ip_tools.Net.{SocketAddr, show_addr}

pub data StatusSpec : Type 0 where
  exact : ℕ → StatusSpec
  class : ℕ → StatusSpec

unfoldable pub matches : StatusSpec → ℕ → Bool
matches (exact code) status = code == status
matches (class hundred) status = status / 100 == hundred

unfoldable pub describes : StatusSpec → Text
unfolding decimal text
describes (exact code) = decimal code
describes (class hundred) = decimal hundred ++ text "xx"

abbrev malformed_spec : Text → Text
malformed_spec spec =
    text "invalid --expect-status '"
    ++ (spec ++ text "': expected an exact code like 200 or a class like 2xx")

unfoldable pub parse_class : Text → Text → Result StatusSpec Text
unfolding parse_u16 text
parse_class spec digits = elim (parse_u16 digits) [
  | none ↦ fail (malformed_spec spec)
  | some hundred ↦
      if not (leb 1 hundred && leb hundred 5)
      then fail
          (text "invalid --expect-status '" ++ (spec ++ text "': status classes run 1xx..5xx"))
      else done (class hundred)
]

unfoldable pub parse_code : Text → Text → Result StatusSpec Text
unfolding parse_u16 text
parse_code spec digits = elim (parse_u16 digits) [
  | none ↦ fail (malformed_spec spec)
  | some code ↦
      if not (leb 100 code && leb code 599)
      then fail (text "invalid --expect-status '" ++ (spec ++ text "': status codes run 100..599"))
      else done (exact code)
]

-- The arms of `parse_status_spec` for the trimmed spec `s`.
unfoldable pub parse_spec : Text → Text → Result StatusSpec Text
unfolding strip_suffix parse_class parse_code text
parse_spec spec s = elim (strip_suffix (text "xx") s) [
  | some digits ↦ parse_class spec digits
  | none ↦ parse_code spec s
]

unfoldable pub parse_status_spec : Text → Result StatusSpec Text
unfolding trim parse_spec
parse_status_spec spec = parse_spec spec (trim spec)

pub record Expectation : Type 0 where
  pub status : Option StatusSpec
  pub contains : Option Text

-- `str::contains`.
unfoldable pub contains_text : Text → Text → Bool
unfolding strip_prefix
contains_text needle [] = is_empty needle
contains_text needle (c ∷ s) = is_some (strip_prefix needle (c ∷ s)) || contains_text needle s

abbrev pub snippet_body_bytes : ℕ
snippet_body_bytes = 1024

abbrev unwrap_or_none : Option Text → Text
unwrap_or_none none = text "none"
unwrap_or_none (some body) = body

unfoldable pub status_reasons : Option StatusSpec → Option ℕ → List Text
unfolding matches describes decimal text
status_reasons none status = []
status_reasons (some spec) none =
    (text "no status observed (expected " ++ (describes spec ++ text ")")) ∷ []
status_reasons (some spec) (some code) =
    if matches spec code
    then []
    else (text "status " ++ (decimal code ++ (text " (expected " ++ (describes spec ++ text ")"))))
      ∷ []

module _ (debug : Text → Text) where
  unfoldable pub body_reasons : Option Text → Option Text → Option ℕ → List Text
  unfolding contains_text text
  body_reasons none body body_bytes = []
  body_reasons (some needle) body body_bytes =
      let beyond =
        if is_some_and body_bytes (λ n. ltb snippet_body_bytes n)
        then text " (the needle may lie beyond the 1 KiB snippet)"
        else [] in
      let reason =
        text "body missing "
        ++ (debug needle ++ (text " (snippet " ++ (unwrap_or_none body ++ text ")"))) in
      if is_some_and body (contains_text needle) then [] else (reason ++ beyond) ∷ []

  -- `Expectation::violation`.
  unfoldable pub violation :
      Expectation
      → SocketAddr
      → (status : Option ℕ) → (body : Option Text) → (body_bytes : Option ℕ) → (failed : Bool)
      → Option Text
  unfolding status_reasons body_reasons show_addr join text
  violation e destination status body body_bytes failed =
      let reasons = status_reasons e.status status ++ body_reasons e.contains body body_bytes in
      if failed
      then some
          (show_addr destination ++ text ": probe failed to complete (no response to assert on)")
      else if is_empty reasons
      then none
      else some (show_addr destination ++ (text ": " ++ join (text ", ") reasons))
