-- ===== src/Report/Http/Rows.antt =====
-- src/report.rs: the body of a response cannot break the rows of its report.
use ip_tools.Base.{ℕ, Bool, not, some, is_control_byte, Text}
use ip_tools.Model.{HttpObservation}
use ip_tools.Style.{Style}

-- The observation with another body.
abbrev pub with_snippet : Text → HttpObservation → HttpObservation
with_snippet s obs = record obs { body_snippet = some s }

abbrev is_plain_byte : ℕ → Bool
is_plain_byte c = not (is_control_byte c)
