-- ===== src/Cli/Examples.antt =====
-- The command line's parsers at sample arguments.
use ip_tools.Base.{
  ◌≡◌, ◌↔◌, refl, false, not, ◌&&◌, true, none, some, [], ◌∷◌, ◌++◌, length, All, Text, text,
  matches_count, done,
}
use ip_tools.Net.{v4}
use ip_tools.Cli.Headers.{push_header_lines}
use ip_tools.Cli.Headers.Injection.{IsClean, Gives, wire, push_header_lines-Gives}
use ip_tools.Cli.Status.{exact, class, Expectation, parse_status_spec, violation}
use ip_tools.Cli.Status.Spec.{IsSpec, StandsForCodes, parse_status_spec-IsSpec}
use ip_tools.Cli.Status.Verdict.{status_met, body_met, violation-none}

abbrev quoted_cell : Text
quoted_cell = b'a' ∷ 34 ∷ b',' ∷ 13 ∷ []

abbrev plain_cell : Text
plain_cell = b'b' ∷ []

-- In place of the `{:?}` of Rust.
abbrev shown : Text → Text
shown s = s

abbrev header_file : Text
unfolding text
header_file = text "x-a: 1" ++ (13 ∷ 10 ∷ text "x-b: 2")

push_header_lines-Gives_example :
    Gives
      (λ hs.
        All IsClean hs
        × (matches_count 13 (wire hs) ≡ length hs)
        × (matches_count 10 (wire hs) ≡ length hs))
      (push_header_lines shown [] header_file plain_cell)
push_header_lines-Gives_example = push_header_lines-Gives shown header_file plain_cell

abbrev two_hundred : Text
unfolding text
two_hundred = text "200"

read_200 : parse_status_spec two_hundred ≡ done (exact 200)
unfolding parse_status_spec
read_200 = refl

parse_status_spec-IsSpec_example : IsSpec (exact 200) × StandsForCodes (exact 200)
parse_status_spec-IsSpec_example = parse_status_spec-IsSpec two_hundred (exact 200) read_200

abbrev success_with_b : Expectation
success_with_b = record { status = some (class 2); contains = some plain_cell }

violation-none_example :
    (violation shown success_with_b
        (record { ip = v4 1; port = 443 })
        (some 204)
        (some quoted_cell)
        (some 4)
        false
      ≡ none)
    ↔ ((not false
          && status_met (some (class 2)) (some 204)
          && body_met (some plain_cell) (some quoted_cell))
        ≡ true)
violation-none_example =
    violation-none shown success_with_b (record { ip = v4 1; port = 443 }) (some 204)
      (some quoted_cell) (some 4) false
