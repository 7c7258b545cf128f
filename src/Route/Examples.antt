-- ===== src/Route/Examples.antt =====
-- Repeated traces and ICMP replies, at small inputs.
use ip_tools.Base.Tests.{naturals}
use ip_tools.Base.{
  ℕ, ◌+◌, ◌*◌, ◌≡◌, refl, inl, true, false, none, some, List, [], ◌∷◌, length, filter, map, arith,
  Bytes, ◌++◌, all, ltb,
}
use ip_tools.Net.{v4}
use ip_tools.Dns.Outcome.{Settles, ok}
use ip_tools.Route.{RouteHop, aggregate_runs, parse_icmp_udp_src}
use ip_tools.Route.Hops.{Ascending, of_ttl, all_hops}
use ip_tools.Route.Hops.Rows.{IsRowFor, row_of, aggregate_runs-IsRowFor}
use ip_tools.Route.Reply.{IsQuote, IsBytes, parse_icmp_udp_src-Settles}
use ip_tools.Route.Reply.Found.{reply, parse_icmp_udp_src-reply}

abbrev first_hop : RouteHop
first_hop = record { ttl = 1; addr = some (v4 7); hostname = none; rtt_ms = some 3; lost = false }

abbrev lost_hop : RouteHop
lost_hop = record { ttl = 2; addr = none; hostname = none; rtt_ms = none; lost = true }

abbrev other_hop : RouteHop
other_hop = record { ttl = 1; addr = some (v4 8); hostname = none; rtt_ms = some 4; lost = false }

abbrev traces : List (List RouteHop)
traces = (first_hop ∷ lost_hop ∷ []) ∷ (other_hop ∷ []) ∷ []

aggregate_runs-IsRowFor_example :
    let r = aggregate_runs naturals traces in
    (r.runs ≡ length traces)
    × Ascending (map (λ s. s.ttl) r.hops)
    × ((ttl : ℕ) → IsRowFor (filter (of_ttl ttl) (all_hops traces)) (row_of ttl r.hops))
aggregate_runs-IsRowFor_example = aggregate_runs-IsRowFor naturals traces

abbrev header_end : Bytes
header_end = 11 ∷ 0 ∷ 0 ∷ 0 ∷ 0 ∷ 0 ∷ 0 ∷ 0 ∷ 0x45 ∷ 0 ∷ 0 ∷ 0 ∷ []

all_bytes : (bytes : Bytes) → all (λ b. ltb b 256) bytes ≡ true → IsBytes bytes
all_bytes [] h = tt
all_bytes (b ∷ bytes) h = (ground (arith, h), all_bytes bytes (ground (arith, h)))

abbrev seven : Bytes
seven = 0 ∷ 0 ∷ 0 ∷ 0 ∷ 0 ∷ 0 ∷ 0 ∷ []

abbrev nineteen : Bytes
nineteen = 0 ∷ 0 ∷ 0 ∷ 0 ∷ 0 ∷ 0 ∷ 0 ∷ 0 ∷ 0 ∷ 0 ∷ 0 ∷ 0 ∷ 0 ∷ 0 ∷ 0 ∷ 0 ∷ 0 ∷ 0 ∷ 0 ∷ []

-- A header that claims to be longer than the packet, which the buffer has room behind.
abbrev cut : Bytes
cut = 0x4F ∷ (nineteen ++ header_end)

cut-IsBytes : IsBytes cut
cut-IsBytes = all_bytes cut refl

parse_icmp_udp_src-Settles_example : Settles IsQuote (parse_icmp_udp_src cut 28)
parse_icmp_udp_src-Settles_example = parse_icmp_udp_src-Settles cut 28 cut-IsBytes (omega arith)

abbrev eight : Bytes
eight = 0 ∷ 0 ∷ 0 ∷ 0 ∷ 0 ∷ 0 ∷ 0 ∷ 0 ∷ []

abbrev ten : Bytes
ten = 0 ∷ 0 ∷ 0 ∷ 0 ∷ 0 ∷ 0 ∷ 0 ∷ 0 ∷ 0 ∷ 0 ∷ []

abbrev time_exceeded : Bytes
time_exceeded = reply 0x45 nineteen 11 seven 0x45 eight ten 0x82 0x9B (0x82 ∷ 0x9A ∷ [])

parse_icmp_udp_src-reply_example :
    parse_icmp_udp_src time_exceeded (length time_exceeded) ≡ ok (some (11, 0x82 * 256 + 0x9B))
parse_icmp_udp_src-reply_example =
    parse_icmp_udp_src-reply 0x45 11 0x45 0x82 0x9B nineteen seven eight ten (0x82 ∷ 0x9A ∷ [])
      (omega arith) (omega arith) (inl refl) (omega arith) (omega arith) (omega arith) (omega arith)
      (omega arith) (omega arith)
