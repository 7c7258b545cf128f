-- ===== src/Style.antt =====
-- src/style.rs: the colouring of human reports by ANSI escapes.
pub mod Stripped
mod Examples
use ip_tools.Base.{Bool, true, false, not, ◌&&◌, if◌then◌else◌, [], ◌∷◌, ◌++◌, Text}

pub record Style : Type 0 where
  pub color : Bool

-- `Style::plain`.
abbrev pub plain : Style
plain = record { color = false }

-- `Style::from_parts`.
unfoldable pub from_parts : Bool → Bool → Bool → Style
from_parts no_color is_terminal no_color_env = record {
  color = not no_color && is_terminal && not no_color_env;
}

-- `ansi::RESET`, the escape `\x1b[0m`, and the codes of the colours.
abbrev pub reset : Text
reset = 27 ∷ b'[' ∷ b'0' ∷ b'm' ∷ []

abbrev pub red : Text
red = b'3' ∷ b'1' ∷ []

abbrev pub green : Text
green = b'3' ∷ b'2' ∷ []

abbrev pub yellow : Text
yellow = b'3' ∷ b'3' ∷ []

abbrev pub cyan : Text
cyan = b'3' ∷ b'6' ∷ []

-- `Style::paint`.
unfoldable pub paint : Style → Text → Text → Text
paint style code s = if style.color then 27 ∷ b'[' ∷ (code ++ (b'm' ∷ (s ++ reset))) else s

-- `Style::pass`, `fail`, `warn` and `info`.
abbrev pub pass : Style → Text → Text
pass style s = paint style green s

abbrev pub fail : Style → Text → Text
fail style s = paint style red s

abbrev pub warn : Style → Text → Text
warn style s = paint style yellow s

abbrev pub info : Style → Text → Text
info style s = paint style cyan s
