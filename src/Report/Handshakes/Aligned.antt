-- ===== src/Report/Handshakes/Aligned.antt =====
-- src/report.rs: the destinations of a TCP report stand in one column.
use ip_tools.Base.{ℕ, ◌≤◌, refl, List, ◌++◌, ◌≡◌, map, Text, length, text, concat}
use ip_tools.Net.{show_addr}
use ip_tools.Model.{TcpObservation}
use ip_tools.Style.{Style}
use ip_tools.Report.Columns.Width.{
  filled, at_least-largest, All-weaken, HasColumn, AllRows, AllRows-map,
}
use ip_tools.Report.Columns.{pad_right}
use ip_tools.Report.Handshakes.{dest_w, tcp_row, render_tcp}

tcp_row-HasColumn :
    (style : Style) (w : ℕ) (o : TcpObservation)
    → length (show_addr o.destination) ≤ w
    → HasColumn (text "  ") w (show_addr o.destination) (tcp_row style w o)
unfolding tcp_row concat text pad_right
tcp_row-HasColumn style w o h = (_, _, refl, filled w (show_addr o.destination) h)

-- The TCP report is its heading and a row for each observation, in order; every row has its
-- destination in a column of the same width, whatever the addresses and the style.
pub render_tcp-HasColumn :
    (style : Style) (obs : List TcpObservation)
    → (w : ℕ) × (rows : List Text) × (render_tcp style obs ≡ text "TCP connect\n" ++ concat rows)
      × AllRows (λ o row. HasColumn (text "  ") w (show_addr o.destination) row) obs rows
unfolding render_tcp dest_w concat
render_tcp-HasColumn style obs = (
  dest_w obs,
  map (tcp_row style (dest_w obs)) obs,
  refl,
  AllRows-map _ (tcp_row style (dest_w obs)) obs (
      All-weaken _ _ obs (tcp_row-HasColumn style (dest_w obs))
        (at_least-largest 24 (λ (o : TcpObservation). length (show_addr o.destination)) obs)),
)
