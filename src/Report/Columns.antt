-- ===== src/Report/Columns.antt =====
-- src/report.rs: the pieces that the human reports share. Rust pads a text by its characters.
pub mod Width
use ip_tools.Base.{
  ℕ, suc, ◌+◌, ◌-◌, max, Bool, true, false, ◌&&◌, ◌||◌, not, is_empty, Option, none, some, List, [],
  ◌∷◌, ◌++◌, ltb, leb, nat_eq, ◌==◌, if◌then◌else◌, Text, text, decimal, replicate, concat, map,
  trim_start_matches, trim_end_matches,
}
use ip_tools.Net.{IpAddr, SocketAddr, ip_eq}
use ip_tools.Net.Parse.{parse_ip}
use ip_tools.Style.{Style, pass, warn, fail}

-- The characters of a text: the bytes that begin one.
unfoldable pub chars_count : Text → ℕ
chars_count [] = 0
chars_count (c ∷ s) = let rest = chars_count s in if leb 128 c && ltb c 192 then rest else suc rest

-- `{s:<w$}` and `{s:>w$}`.
unfoldable pub pad_right : ℕ → Text → Text
unfolding chars_count
pad_right w s = s ++ replicate (w - chars_count s) 32

unfoldable pub pad_left : ℕ → Text → Text
unfolding chars_count
pad_left w s = replicate (w - chars_count s) 32 ++ s

-- `Iterator::max`.
abbrev pub larger : ℕ → Option ℕ → Option ℕ
larger n none = some n
larger n (some m) = some (max n m)

abbrev pub largest : List ℕ → Option ℕ
largest [] = none
largest (n ∷ ns) = larger n (largest ns)

-- `.max().unwrap_or(w).max(w)`, and `.max().unwrap_or(0).max(w)`, which is the same.
abbrev pub at_least : ℕ → Option ℕ → ℕ
at_least w none = w
at_least w (some n) = max n w

abbrev pub newline : Text
newline = 10 ∷ []

unfoldable pub ms_or_dash : Option ℕ → Text
unfolding text decimal
ms_or_dash none = text "-"
ms_or_dash (some n) = decimal n ++ text " ms"

-- `fmt`.
unfoldable pub fmt : Option ℕ → Text
unfolding text decimal
fmt none = text "-"
fmt (some n) = decimal n

unfoldable pub trim_brackets : Text → Text
unfolding trim_start_matches trim_end_matches
trim_brackets s = trim_end_matches b']' (trim_start_matches b'[' s)

abbrev pub differs_from : IpAddr → Text → Option IpAddr → Bool
differs_from dest trimmed (some ip) = not (ip == dest)
differs_from dest trimmed none = not (is_empty trimmed)

unfoldable pub presented_name_differs : Text → SocketAddr → Bool
unfolding trim_brackets parse_ip
presented_name_differs presented destination =
    differs_from destination.ip (trim_brackets presented) (parse_ip (trim_brackets presented))

-- The colour of a status code's class, around a text; `render_status`.
unfoldable pub paint_status : Style → ℕ → Text → Text
paint_status style status s =
    if leb 200 status && leb status 299
    then pass style s
    else if leb 300 status && leb status 399
    then warn style s
    else if leb 400 status && leb status 599
    then fail style s
    else s

unfoldable pub render_status : Style → ℕ → Text
unfolding paint_status decimal
render_status style status = paint_status style status (decimal status)

-- A failure count, red unless it is 0.
unfoldable pub paint_failures : Style → ℕ → Text
unfolding decimal
paint_failures style n = if ltb 0 n then fail style (decimal n) else decimal n
