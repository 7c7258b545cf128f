-- ===== src/Route/Hops/Rows.antt =====
-- src/route.rs, `aggregate_runs`: what a row says of the hops of its time to live.
use ip_tools.Base.{
  ℕ, ◌+◌, ◌≡◌, refl, sym, ap, Option, none, some, List, [], ◌∷◌, ◌++◌, append_assoc, append-nil,
  map, length, length-append, keys, filter, filter-append, any, any-append, contains,
  contains-append, Distinct, Bool, true, false, not, ◌&&◌, ◌||◌, Bool-cases, inl, inr, ltb, nat_eq,
  ◌==◌, beq_refl, eq_of_beq, arith, if◌then◌else◌, is_some, min, u16_max, Float,
}
use ip_tools.Net.{IpAddr, ip_eq}
use ip_tools.Model.{LatencyStats, summarize}
use ip_tools.Route.{
  RouteHop, RouteHopStats, HopTally, no_answer, note_hop, put_runs, hop_stats, aggregate_runs,
  add_addr, add_ms,
}
use ip_tools.Route.Hops.{
  get, Ascending, of_ttl, fold_hops, put_runs-Ascending, all_hops, get-put_runs,
}

abbrev pub answers : RouteHop → Bool
answers hop = not hop.lost

abbrev pub timed : RouteHop → Bool
timed hop = answers hop && is_some hop.rtt_ms

abbrev is_addr : IpAddr → Option IpAddr → Bool
is_addr a none = false
is_addr a (some b) = b == a

abbrev pub answers_from : IpAddr → RouteHop → Bool
answers_from a hop = answers hop && is_addr a hop.addr

-- What a tally holds of the hops that went into it.
abbrev pub HoldsHops : List RouteHop → HopTally → Type 0
unfolding contains
HoldsHops hops t =
    (t.answered ≡ min (length (filter answers hops)) u16_max)
    × (length t.latency.samples ≡ length (filter timed hops))
    × ((a : IpAddr) → contains t.addrs a ≡ any (answers_from a) hops)
    × Distinct t.addrs

abbrev one_if : Bool → ℕ
one_if true = 1
one_if false = 0

length-filter_snoc :
    (p : RouteHop → Bool) (seen : List RouteHop) (hop : RouteHop)
    → length (filter p (seen ++ (hop ∷ []))) ≡ length (filter p seen) + one_if (p hop)
length-filter_snoc p seen hop = elim (Bool-cases (p hop)) [
  | inl h ↦ rw (filter-append p seen (hop ∷ []), h) (length-append (filter p seen) (hop ∷ []))
  | inr h ↦ rw (filter-append p seen (hop ∷ []), h, append-nil (filter p seen)) (omega arith)
]

beq_sym : (a b : IpAddr) → (a == b) ≡ (b == a)
beq_sym a b = elim (Bool-cases (a == b)) [
  | inl h ↦ rw (eq_of_beq a b h) refl
  | inr h ↦ elim (Bool-cases (b == a)) [
    | inl g ↦ rw (eq_of_beq b a g) refl
    | inr g ↦ rw (h, g) refl
  ]
]

Distinct-snoc :
    (xs : List IpAddr) (a : IpAddr)
    → contains xs a ≡ false
    → Distinct xs
    → Distinct (xs ++ (a ∷ []))
unfolding contains
Distinct-snoc [] a h d = (refl, tt)
Distinct-snoc (x ∷ xs) a h (d, ds) = (
  ground (arith, h, d, contains-append xs (a ∷ []) x, beq_sym x a),
  Distinct-snoc xs a (ground (arith, h)) ds,
)

add_addr-Distinct : (xs : List IpAddr) (o : Option IpAddr) → Distinct xs → Distinct (add_addr xs o)
add_addr-Distinct xs none d = d
add_addr-Distinct xs (some a) d = elim (Bool-cases (contains xs a)) [
  | inl h ↦ rw h d
  | inr h ↦ rw h (Distinct-snoc xs a h d)
]

contains-add_addr :
    (xs : List IpAddr) (o : Option IpAddr) (a : IpAddr)
    → contains (add_addr xs o) a ≡ (contains xs a || is_addr a o)
contains-add_addr xs none a = ground arith
contains-add_addr xs (some b) a = elim (Bool-cases (contains xs b)) [
  | inl h ↦ rw h (elim (Bool-cases (b == a)) [
    | inl g ↦ ground (arith, g, h, ap (contains xs) (eq_of_beq b a g))
    | inr g ↦ ground (arith, g)
  ])
  | inr h ↦ rw (h, contains-append xs (b ∷ []) a) (unfold contains in ground arith)
]

length-add_ms :
    (s : LatencyStats) (o : Option ℕ)
    → length (add_ms s o).samples ≡ length s.samples + one_if (is_some o)
length-add_ms s none = omega arith
length-add_ms s (some ms) = length-append s.samples (ms ∷ [])

note_hop-HoldsHops :
    (seen : List RouteHop) (t : HopTally) (hop : RouteHop)
    → HoldsHops seen t
    → HoldsHops (seen ++ (hop ∷ [])) (note_hop t hop)
unfolding note_hop
note_hop-HoldsHops seen t hop (n, samples, addrs, distinct) =
    let answered = length-filter_snoc answers seen hop in
    let measured = length-filter_snoc timed seen hop in
    let sources = λ (a : IpAddr). any-append (answers_from a) seen (hop ∷ []) in
    elim (Bool-cases hop.lost) [
      | inl h ↦ rw h (
        ground (arith, h, n, answered),
        ground (arith, h, samples, measured),
        λ a. ground (arith, h, addrs a, sources a),
        distinct,
      )
      | inr h ↦ rw h (
        ground (arith, h, n, answered),
        ground (arith, h, samples, measured, length-add_ms t.latency hop.rtt_ms),
        λ a. ground (arith, h, addrs a, sources a, contains-add_addr t.addrs hop.addr a),
        add_addr-Distinct t.addrs hop.addr distinct,
      )
    ]

pub fold_hops-HoldsHops :
    (hops seen : List RouteHop) (t : HopTally)
    → HoldsHops seen t
    → (u : HopTally) × (fold_hops (some t) hops ≡ some u) × HoldsHops (seen ++ hops) u
unfolding fold_hops
fold_hops-HoldsHops [] seen t h = (t, refl, rw (append-nil seen) h)
fold_hops-HoldsHops (hop ∷ hops) seen t h = rw (sym (append_assoc seen (hop ∷ []) hops)) (
    fold_hops-HoldsHops hops (seen ++ (hop ∷ [])) (note_hop t hop)
      (note_hop-HoldsHops seen t hop h))

-- The row of a time to live, if there is one.
unfoldable pub row_of : ℕ → List RouteHopStats → Option RouteHopStats
row_of ttl [] = none
row_of ttl (s ∷ rows) = let later = row_of ttl rows in if s.ttl == ttl then some s else later

-- What a row says of the hops `hops` of its time to live.
abbrev pub ReportsHops : List RouteHop → RouteHopStats → Type 0
unfolding contains
ReportsHops hops s =
    (s.answered ≡ min (length (filter answers hops)) u16_max)
    × (s.rtt.count ≡ length (filter timed hops))
    × ((a : IpAddr) → contains s.addrs a ≡ any (answers_from a) hops)
    × Distinct s.addrs
    × (s.path_changed ≡ ltb 1 (length s.addrs))

-- There is a row for the hops exactly if there are hops.
abbrev pub IsRowFor : List RouteHop → Option RouteHopStats → Type 0
IsRowFor [] o = o ≡ none
IsRowFor (hop ∷ hops) none = ⊥
IsRowFor (hop ∷ hops) (some s) = ReportsHops (hop ∷ hops) s

module _ (fl : Float) where
  abbrev stats_at : ℕ → Option HopTally → Option RouteHopStats
  stats_at ttl none = none
  stats_at ttl (some t) = some (hop_stats fl (ttl, t))

  row_of-map :
      (ttl : ℕ) (m : List (ℕ × HopTally))
      → row_of ttl (map (hop_stats fl) m) ≡ stats_at ttl (get ttl m)
  unfolding row_of get hop_stats
  row_of-map ttl [] = refl
  row_of-map ttl ((j, t) ∷ m) = elim (Bool-cases (j == ttl)) [
    | inl h ↦ rw (eq_of_beq j ttl h, beq_refl ttl) refl
    | inr h ↦ rw h (row_of-map ttl m)
  ]

  ttls-map : (m : List (ℕ × HopTally)) → map (λ s. s.ttl) (map (hop_stats fl) m) ≡ keys m
  unfolding hop_stats
  ttls-map [] = refl
  ttls-map (e ∷ m) = ap (λ ks. e.0 ∷ ks) (ttls-map m)

  stats-IsRowFor :
      (ttl : ℕ) (hops : List RouteHop) → IsRowFor hops (stats_at ttl (fold_hops none hops))
  unfolding fold_hops summarize contains hop_stats
  stats-IsRowFor ttl [] = refl
  stats-IsRowFor ttl (hop ∷ hops) =
      let begun = note_hop-HoldsHops [] no_answer hop (refl, refl, λ a. refl, tt) in
      let (u, e, held) = fold_hops-HoldsHops hops (hop ∷ []) (note_hop no_answer hop) begun in
      let (n, samples, addrs, distinct) = held in rw e (n, samples, addrs, distinct, refl)

  -- Repeated traces, of any hops: the rows stand in ascending order of their time to live, one for
  -- each that a hop has and none for another. A row counts the hops of its time to live that
  -- answered, up to 65535; it has a latency sample for each of them with a time; its addresses are
  -- those that answered, each once; and its path changed exactly if there are two or more.
  pub aggregate_runs-IsRowFor :
      (runs : List (List RouteHop))
      → let r = aggregate_runs fl runs in
        (r.runs ≡ length runs)
        × Ascending (map (λ s. s.ttl) r.hops)
        × ((ttl : ℕ) → IsRowFor (filter (of_ttl ttl) (all_hops runs)) (row_of ttl r.hops))
  unfolding aggregate_runs get
  aggregate_runs-IsRowFor runs = (
    refl,
    rw (ttls-map (put_runs runs [])) (put_runs-Ascending runs [] tt),
    λ ttl.
        rw (row_of-map ttl (put_runs runs []), get-put_runs ttl runs [] tt)
          (stats-IsRowFor ttl (filter (of_ttl ttl) (all_hops runs))),
  )
