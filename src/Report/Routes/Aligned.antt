-- ===== src/Report/Routes/Aligned.antt =====
-- src/report.rs: the hosts of a trace, and of repeated traces, stand in one column.
use ip_tools.Base.{
  ℕ, ◌+◌, ◌-◌, refl, if◌then◌else◌, [], ◌≤◌, ◌≡◌, ap, true, false, Bool-cases, inl, inr, List, ◌∷◌,
  ◌++◌, length, replicate, map, filter, sym, ◌∙◌, append_assoc, Text, text, concat, decimal, arith,
  nat_eq, ◌==◌,
}
use ip_tools.Style.{Style, plain, paint}
use ip_tools.Route.{RouteHop, RouteHopStats, RouteRepeat}
use ip_tools.Report.Columns.{chars_count, pad_left, pad_right}
use ip_tools.Report.Columns.Width.{
  filled, at_least-largest, at_least-le, All-weaken, All-filter, HasColumn, AllRows, AllRows-map,
}
use ip_tools.Report.Routes.{
  is_silent, route_host_cell, cell_width, host_w, hop_row, is_answered, route_repeat_host_cell,
  repeat_host_w, repeat_row, render_route, render_route_repeat,
}

-- `{ttl:>2}` and two blanks.
abbrev pub ttl_head : ℕ → Text
ttl_head ttl = text "  " ++ (pad_left 2 (decimal ttl) ++ text "  ")

column :
    (w ttl blanks : ℕ) (shown rest : Text)
    → chars_count shown + blanks ≡ w
    → HasColumn (ttl_head ttl) w shown (
        text "  "
        ++ (pad_left 2 (decimal ttl)
            ++ (text "  " ++ ((shown ++ replicate blanks 32) ++ (32 ∷ rest)))))
column w ttl blanks shown rest h =
    let tail : Text = (shown ++ replicate blanks 32) ++ (32 ∷ rest) in
    (
      blanks,
      rest,
      sym (
          append_assoc (text "  ") (pad_left 2 (decimal ttl) ++ text "  ") tail
          ∙ ap (λ s. text "  " ++ s) (append_assoc (pad_left 2 (decimal ttl)) (text "  ") tail)),
      h,
    )

hop_row-HasColumn :
    (style : Style) (w : ℕ) (hop : RouteHop)
    → cell_width hop ≤ w
    → is_silent hop ≡ false
    → HasColumn (ttl_head hop.ttl) w (route_host_cell hop) (hop_row style w hop)
unfolding hop_row concat text cell_width pad_right
hop_row-HasColumn style w hop h e =
    let fits : length (route_host_cell hop) ≤ w = rw e at h in
    rw e (column w hop.ttl _ (route_host_cell hop) _ (filled w (route_host_cell hop) fits))

-- The report on a trace is its heading and a row for each hop, in order; every row for a hop that
-- answered has its host in a column of the same width.
pub render_route-HasColumn :
    (style : Style) (hops : List RouteHop)
    → (w : ℕ) × (rows : List Text) × (render_route style hops ≡ text "Traceroute\n" ++ concat rows)
      × AllRows
          (λ hop row.
            is_silent hop ≡ false → HasColumn (ttl_head hop.ttl) w (route_host_cell hop) row)
          hops
          rows
unfolding render_route host_w concat
render_route-HasColumn style hops = (
  host_w hops,
  map (hop_row style (host_w hops)) hops,
  refl,
  AllRows-map _ (hop_row style (host_w hops)) hops (
      All-weaken _ _ hops (hop_row-HasColumn style (host_w hops))
        (at_least-largest 40 cell_width hops)),
)

-- What a row shows in the column: the host, or the star of a hop that never answered.
abbrev pub shown_in : RouteHopStats → Text
shown_in hop = if is_answered hop then route_repeat_host_cell hop else 42 ∷ []

repeat_row-HasColumn :
    (runs w : ℕ) (hop : RouteHopStats)
    → 40 ≤ w
    → (is_answered hop ≡ true → length (route_repeat_host_cell hop) ≤ w)
    → HasColumn (ttl_head hop.ttl) w (shown_in hop) (repeat_row plain runs w hop)
unfolding repeat_row concat text paint chars_count pad_right
repeat_row-HasColumn runs w hop h f = elim (Bool-cases (hop.answered == 0)) [
  | inl e ↦
      let none_is : is_answered hop ≡ false = ground (arith, e) in
      rw (e, none_is) (column w hop.ttl (w - 1) (42 ∷ []) _ (omega (arith, h)))
  | inr e ↦
      let some_is : is_answered hop ≡ true = ground (arith, e) in
      rw (e, some_is)
        (column w hop.ttl _ (route_repeat_host_cell hop) _
          (filled w (route_repeat_host_cell hop) (f some_is)))
]

-- The plain report on repeated traces is its heading and a row for each hop, in order; every row has
-- its host, or the star of a hop that never answered, in a column of the same width.
pub render_route_repeat-HasColumn :
    (rep : RouteRepeat)
    → (w : ℕ) × (rows : List Text) × (render_route_repeat plain rep
        ≡ text "Traceroute (" ++ (decimal rep.runs ++ (text " runs)\n" ++ concat rows)))
      × AllRows (λ hop row. HasColumn (ttl_head hop.ttl) w (shown_in hop) row) rep.hops rows
unfolding render_route_repeat repeat_host_w concat
render_route_repeat-HasColumn rep =
    let widths : List ℕ =
      map (λ (h : RouteHopStats). length (route_repeat_host_cell h))
        (filter is_answered rep.hops) in
    (
      repeat_host_w rep.hops,
      map (repeat_row plain rep.runs (repeat_host_w rep.hops)) rep.hops,
      refl,
      AllRows-map _ (repeat_row plain rep.runs (repeat_host_w rep.hops)) rep.hops (
          All-weaken _ _ rep.hops
            (λ hop f. repeat_row-HasColumn rep.runs _ hop (at_least-le 40 widths) f)
            (All-filter is_answered _ rep.hops (
              at_least-largest 40 (λ (h : RouteHopStats). length (route_repeat_host_cell h))
                (filter is_answered rep.hops)))),
    )
