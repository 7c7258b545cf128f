-- ===== src/Cli/Csv.antt =====
-- src/cli/mod.rs, `csv_field`: a field of a CSV row.
pub mod RoundTrip
pub mod Table
use ip_tools.Base.{ℕ, Bool, ◌||◌, nat_eq, ◌==◌, if◌then◌else◌, List, [], ◌∷◌, ◌++◌, any, Text, join}

-- A comma, a quote, a carriage return or a line feed.
abbrev pub is_special : ℕ → Bool
is_special c = c == b',' || c == 34 || c == 13 || c == 10

-- `value.replace('"', "\"\"")`.
unfoldable pub double_quotes : Text → Text
double_quotes [] = []
double_quotes (c ∷ s) = let rest = double_quotes s in if c == 34 then 34 ∷ 34 ∷ rest else c ∷ rest

unfoldable pub csv_field : Text → Text
unfolding double_quotes
csv_field value = if any is_special value then 34 ∷ (double_quotes value ++ (34 ∷ [])) else value

-- A row of an export: its fields with commas between them, and a line feed.
unfoldable pub csv_row : List Text → Text
unfolding join
csv_row fields = join (b',' ∷ []) fields ++ (10 ∷ [])
