-- ===== src/Report/Routes.antt =====
-- src/report.rs: the human reports of traces and of repeated traces.
pub mod Aligned
use ip_tools.Base.{
  ℕ, ◌-◌, Bool, true, false, ◌||◌, Option, none, some, List, [], ◌∷◌, ◌++◌, ltb, nat_eq, ◌==◌,
  if◌then◌else◌, is_empty, is_none, filter, length, replicate, Text, text, decimal, concat, join,
  map,
}
use ip_tools.Net.{IpAddr, show_ip}
use ip_tools.Model.{LatencySummary}
use ip_tools.Route.{RouteHop, RouteHopStats, RouteRepeat}
use ip_tools.Report.Columns.{newline, pad_left, pad_right, ms_or_dash, at_least, largest}
use ip_tools.Style.{Style, fail, warn}

-- `name (addr)`, or the address if there is no name.
abbrev named : Option Text → Text → Text
named none addr = addr
named (some n) addr = if is_empty n then addr else concat (n ∷ text " (" ∷ addr ∷ text ")" ∷ [])

abbrev show_some : Option IpAddr → Text
show_some none = []
show_some (some a) = show_ip a

unfoldable pub route_host_cell : RouteHop → Text
unfolding text show_ip
route_host_cell hop = named hop.hostname (show_some hop.addr)

abbrev pub is_silent : RouteHop → Bool
is_silent hop = hop.lost || is_none hop.addr

unfoldable pub cell_width : RouteHop → ℕ
unfolding route_host_cell
cell_width hop = if is_silent hop then 0 else length (route_host_cell hop)

unfoldable pub host_w : List RouteHop → ℕ
unfolding cell_width
host_w hops = at_least 40 (largest (map cell_width hops))

unfoldable pub hop_row : Style → ℕ → RouteHop → Text
unfolding text decimal pad_left pad_right route_host_cell ms_or_dash
hop_row style w hop =
    if is_silent hop
    then concat (
        text "  " ∷ pad_left 2 (decimal hop.ttl) ∷ text "  " ∷ fail style (text "*") ∷ newline ∷ [])
    else concat (
        text "  "
        ∷ pad_left 2 (decimal hop.ttl)
        ∷ text "  "
        ∷ pad_right w (route_host_cell hop)
        ∷ text " "
        ∷ ms_or_dash hop.rtt_ms
        ∷ newline
        ∷ [])

unfoldable pub render_route : Style → List RouteHop → Text
unfolding hop_row host_w text
render_route style hops = concat (text "Traceroute\n" ∷ map (hop_row style (host_w hops)) hops)

unfoldable pub route_repeat_host_cell : RouteHopStats → Text
unfolding text show_ip join
route_repeat_host_cell hop = named hop.hostname (join (text ", ") (map show_ip hop.addrs))

abbrev pub is_answered : RouteHopStats → Bool
is_answered hop = ltb 0 hop.answered

unfoldable pub repeat_host_w : List RouteHopStats → ℕ
unfolding route_repeat_host_cell
repeat_host_w hops = at_least 40 (
    largest
      (map (λ (h : RouteHopStats). length (route_repeat_host_cell h)) (filter is_answered hops)))

abbrev pub ms_part : Text → Option ℕ → List Text
ms_part head none = []
ms_part head (some ms) = concat (head ∷ decimal ms ∷ text " ms" ∷ []) ∷ []

-- The vector `tail` of a row.
unfoldable pub tail_parts : Style → RouteHopStats → List Text
unfolding text decimal
tail_parts style hop =
    ms_part (text "min ") hop.rtt.min
    ++ (ms_part (text "p50 ") hop.rtt.p50
        ++ (ms_part (text "max ") hop.rtt.max
            ++ (if hop.path_changed then warn style (text "path changed") ∷ [] else [])))

abbrev pub tail_text : List Text → Text
tail_text [] = []
tail_text (p ∷ ps) = text "  " ++ join (text "  ") (p ∷ ps)

unfoldable pub repeat_row : Style → ℕ → ℕ → RouteHopStats → Text
unfolding text decimal pad_left pad_right route_repeat_host_cell tail_parts join
repeat_row style runs w hop =
    if hop.answered == 0
    then concat (
        text "  "
        ∷ pad_left 2 (decimal hop.ttl)
        ∷ text "  "
        ∷ fail style (text "*")
        ∷ replicate (w - 1) 32
        ∷ text " 0/"
        ∷ fail style (decimal runs ++ text " (lost)")
        ∷ newline
        ∷ [])
    else concat (
        text "  "
        ∷ pad_left 2 (decimal hop.ttl)
        ∷ text "  "
        ∷ pad_right w (route_repeat_host_cell hop)
        ∷ text " "
        ∷ decimal hop.answered
        ∷ text "/"
        ∷ decimal runs
        ∷ text " answered"
        ∷ tail_text (tail_parts style hop)
        ∷ newline
        ∷ [])

unfoldable pub render_route_repeat : Style → RouteRepeat → Text
unfolding repeat_row repeat_host_w text decimal
render_route_repeat style rep = concat (
    text "Traceroute ("
    ∷ decimal rep.runs
    ∷ text " runs)\n"
    ∷ map (repeat_row style rep.runs (repeat_host_w rep.hops)) rep.hops)
