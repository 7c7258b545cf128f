-- ===== src/Style/Examples.antt =====
-- Colours at sample texts.
use ip_tools.Base.{◌≡◌, refl, true, false, text, ◌∷◌, ◌++◌}
use ip_tools.Style.{Style, plain, from_parts, paint, pass}
use ip_tools.Style.Stripped.{strip_escapes}

abbrev coloured : Style
coloured = from_parts false true false

pass_test : pass coloured (text "PASS") ≡ 27 ∷ (text "[32mPASS" ++ (27 ∷ text "[0m"))
unfolding paint text from_parts
pass_test = refl

plain_test : pass plain (text "PASS") ≡ text "PASS"
unfolding paint
plain_test = refl

-- Colours need a terminal, and neither of the two ways to turn them off.
gate_test :
    (from_parts true true false ≡ plain)
    × (from_parts false false false ≡ plain)
    × (from_parts false true true ≡ plain)
unfolding from_parts
gate_test = (refl, refl, refl)

strip_test : strip_escapes false (pass coloured (text "PASS")) ≡ text "PASS"
unfolding strip_escapes paint text from_parts
strip_test = refl
