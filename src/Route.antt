-- ===== src/Route.antt =====
-- src/route.rs: the aggregation of repeated traces, and the parser of the ICMP replies that a trace
-- reads. The raw sockets, the clock and the reverse lookups are not modelled.
pub mod Hops
pub mod Reply
mod Examples
use ip_tools.Base.{
  ℕ, suc, ◌+◌, ◌*◌, ◌/◌, ◌%◌, ◌^◌, min, Option, none, some, List, [], ◌∷◌, ◌++◌, map, length, Bool,
  true, false, not, ◌&&◌, ◌||◌, nat_eq, ◌==◌, if◌then◌else◌, Float, Text, Bytes, is_empty, is_none,
  contains, entry, ltb, leb, u16_max,
}
use ip_tools.Net.{IpAddr, ip_eq}
use ip_tools.Model.{LatencyStats, LatencySummary, empty_stats, push, summarize}
use ip_tools.Dns.Outcome.{Outcome, ok, panic, ◌>>=◌, index}

pub record RouteHop : Type 0 where
  pub ttl : ℕ
  pub addr : Option IpAddr
  pub hostname : Option Text
  pub rtt_ms : Option ℕ
  pub lost : Bool

pub record RouteHopStats : Type 0 where
  pub ttl : ℕ
  pub answered : ℕ
  pub addrs : List IpAddr
  pub hostname : Option Text
  pub rtt : LatencySummary
  pub path_changed : Bool

pub record RouteRepeat : Type 0 where
  pub runs : ℕ
  pub hops : List RouteHopStats

-- The value of `by_ttl`: a counter of 16 bits, the addresses, the hostname and the latencies.
pub record HopTally : Type 0 where
  pub answered : ℕ
  pub addrs : List IpAddr
  pub hostname : Option Text
  pub latency : LatencyStats

abbrev pub no_answer : HopTally
no_answer = record { answered = 0; addrs = []; hostname = none; latency = empty_stats }

abbrev pub add_addr : List IpAddr → Option IpAddr → List IpAddr
add_addr addrs none = addrs
add_addr addrs (some a) = if contains addrs a then addrs else addrs ++ (a ∷ [])

abbrev pub add_name : Option Text → Option Text → Option Text
add_name known none = known
add_name known (some name) = if is_none known && not (is_empty name) then some name else known

abbrev pub add_ms : LatencyStats → Option ℕ → LatencyStats
add_ms s none = s
add_ms s (some ms) = push s ms

-- The loop's body behind `or_insert_with`.
unfoldable pub note_hop : HopTally → RouteHop → HopTally
unfolding contains
note_hop t hop = if hop.lost then t else record {
  answered = min (t.answered + 1) u16_max;
  addrs = add_addr t.addrs hop.addr;
  latency = add_ms t.latency hop.rtt_ms;
  hostname = add_name t.hostname hop.hostname;
}

abbrev pub or_insert : Option HopTally → HopTally
or_insert none = no_answer
or_insert (some t) = t

unfoldable pub put_hop : RouteHop → List (ℕ × HopTally) → List (ℕ × HopTally)
unfolding note_hop entry
put_hop hop by_ttl = entry ltb hop.ttl (λ t. note_hop (or_insert t) hop) by_ttl

unfoldable pub put_run : List RouteHop → List (ℕ × HopTally) → List (ℕ × HopTally)
unfolding put_hop
put_run [] by_ttl = by_ttl
put_run (hop ∷ run) by_ttl = put_run run (put_hop hop by_ttl)

unfoldable pub put_runs : List (List RouteHop) → List (ℕ × HopTally) → List (ℕ × HopTally)
unfolding put_run
put_runs [] by_ttl = by_ttl
put_runs (run ∷ runs) by_ttl = put_runs runs (put_run run by_ttl)

module _ (fl : Float) where
  unfoldable pub hop_stats : ℕ × HopTally → RouteHopStats
  unfolding summarize
  hop_stats e = record {
    ttl = e.0;
    answered = e.1.answered;
    path_changed = ltb 1 (length e.1.addrs);
    addrs = e.1.addrs;
    hostname = e.1.hostname;
    rtt = summarize fl e.1.latency;
  }

  unfoldable pub aggregate_runs : List (List RouteHop) → RouteRepeat
  unfolding put_runs hop_stats
  aggregate_runs hops_by_run = record {
    runs = length hops_by_run;
    hops = map hop_stats (put_runs hops_by_run []);
  }

-- `parse_icmp_udp_src`. `buf[i]` panics outside of the buffer, of which `len` bytes are the packet.
abbrev pub ihl : ℕ → ℕ
ihl b = b % 16 * 4

-- The source port of the quoted UDP packet.
unfoldable pub quoted_port : Bytes → ℕ → ℕ → ℕ → Outcome (Option (ℕ × ℕ))
quoted_port buf len icmp_type inner_start = do
  first ← index buf inner_start
  let udp_start = inner_start + ihl first
  if ltb len (udp_start + 4) then ok none else (do
    high ← index buf udp_start
    low ← index buf (udp_start + 1)
    ok (some (icmp_type, high * 256 + low)))

-- The quoted packet is IPv4, and UDP.
unfoldable pub quoted_packet : Bytes → ℕ → ℕ → ℕ → Outcome (Option (ℕ × ℕ))
unfolding quoted_port
quoted_packet buf len icmp_type inner_start = if ltb len (inner_start + 20) then ok none else (do
  version ← index buf inner_start
  let port = quoted_port buf len icmp_type inner_start
  let udp = do
    protocol ← index buf (inner_start + 9)
    if not (protocol == 17) then ok none else port
  if not (version / 16 == 4) then ok none else udp)

unfoldable pub parse_icmp_udp_src : Bytes → ℕ → Outcome (Option (ℕ × ℕ))
unfolding quoted_packet
parse_icmp_udp_src buf len = if ltb len 28 then ok none else (do
  first ← index buf 0
  let outer_ihl = ihl first
  if ltb len (outer_ihl + 8) then ok none else (do
    icmp_type ← index buf outer_ihl
    let rest = quoted_packet buf len icmp_type (outer_ihl + 8)
    if not (icmp_type == 11) && not (icmp_type == 3) then ok none else rest))
