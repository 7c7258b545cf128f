-- ===== src/Route/Reply.antt =====
-- src/route.rs, `parse_icmp_udp_src`: it reads inside of the packet, and finds the port of a reply.
pub mod Found
use ip_tools.Base.{
  ℕ, zero, suc, ◌+◌, ◌*◌, ◌/◌, ◌%◌, ◌^◌, ◌≤◌, ◌<◌, ◌≡◌, refl, ◌⊎◌, inl, inr, List, [], ◌∷◌, ◌++◌,
  length, get_elem?, Option, none, some, Bool, true, false, not, ◌&&◌, ltb, nat_eq, ◌==◌, arith,
  if◌then◌else◌, All, Bytes,
}
use ip_tools.Dns.Outcome.{
  Outcome, ok, panic, ◌>>=◌, index, Settles, settled, failed, Anything, bind-Settles, if-Settles,
  lt-get_elem?, index-Settles,
}
use ip_tools.Route.{ihl, quoted_port, quoted_packet, parse_icmp_udp_src}

abbrev pub IsBytes : Bytes → Type 0
IsBytes = All (λ b. b < 256)

-- An ICMP type that quotes a packet, and a port number of 16 bits.
abbrev pub IsQuote : Option (ℕ × ℕ) → Type 0
IsQuote none = Unit
IsQuote (some (icmp_type, port)) = ((icmp_type ≡ 11) ⊎ (icmp_type ≡ 3)) × (port < 2 ^ 16)

get_elem?-byte :
    (bytes : Bytes) (pos b : ℕ) → IsBytes bytes → get_elem? bytes pos ≡ some b → b < 256
get_elem?-byte [] pos b h e = cc
get_elem?-byte (c ∷ bytes) zero b (h, hs) e = let same : c ≡ b = cc e in omega (arith, same)
get_elem?-byte (c ∷ bytes) (suc pos) b (h, hs) e = get_elem?-byte bytes pos b hs e

index-byte :
    (bytes : Bytes) (pos : ℕ)
    → IsBytes bytes
    → pos < length bytes
    → Settles (λ b. b < 256) (index bytes pos)
index-byte bytes pos hb h =
    let (b, e) = lt-get_elem? bytes pos h in
    rw (e, index) (settled (get_elem?-byte bytes pos b hb e))

module _ (buf : Bytes) (len : ℕ) (bytes : IsBytes buf) (fits : len ≤ length buf) where
  quoted_port-Settles :
      (icmp_type inner_start : ℕ)
      → (icmp_type ≡ 11) ⊎ (icmp_type ≡ 3)
      → inner_start + 20 ≤ len
      → Settles IsQuote (quoted_port buf len icmp_type inner_start)
  unfolding quoted_port
  quoted_port-Settles icmp_type inner_start t h =
      bind-Settles _ (index-byte buf inner_start bytes (omega arith)) (λ first k.
        if-Settles (ltb len (inner_start + ihl first + 4)) _ _ (λ e. settled tt)
          (λ e.
            bind-Settles _ (index-byte buf (inner_start + ihl first) bytes (ground (arith, e)))
              (λ high hh.
                bind-Settles _
                  (index-byte buf (inner_start + ihl first + 1) bytes (ground (arith, e)))
                  (λ low hl. settled (t, omega arith)))))

  quoted_packet-Settles :
      (icmp_type inner_start : ℕ)
      → (icmp_type ≡ 11) ⊎ (icmp_type ≡ 3)
      → Settles IsQuote (quoted_packet buf len icmp_type inner_start)
  unfolding quoted_packet
  quoted_packet-Settles icmp_type inner_start t =
      if-Settles (ltb len (inner_start + 20)) _ _ (λ e. settled tt)
        (λ e.
          let inside : inner_start + 20 ≤ len = ground (arith, e) in
          bind-Settles _ (index-byte buf inner_start bytes (omega arith)) (λ version k.
            if-Settles (not (version / 16 == 4)) _ _ (λ e. settled tt)
              (λ e.
                bind-Settles _ (index-byte buf (inner_start + 9) bytes (omega arith)) (λ protocol k.
                  if-Settles (not (protocol == 17)) _ _ (λ e. settled tt)
                    (λ e. quoted_port-Settles icmp_type inner_start t inside)))))

  -- A packet of `len` bytes that the buffer holds is parsed without an index out of range, into
  -- nothing or into the type of a time-exceeded or destination-unreachable reply and a port of 16
  -- bits.
  pub parse_icmp_udp_src-Settles : Settles IsQuote (parse_icmp_udp_src buf len)
  unfolding parse_icmp_udp_src
  parse_icmp_udp_src-Settles =
      if-Settles (ltb len 28) _ _ (λ e. settled tt)
        (λ e.
          let inside : 28 ≤ len = ground (arith, e) in
          bind-Settles _ (index-byte buf 0 bytes (omega arith)) (λ first k.
            if-Settles (ltb len (ihl first + 8)) _ _ (λ e. settled tt)
              (λ e.
                bind-Settles _ (index-byte buf (ihl first) bytes (ground (arith, e)))
                  (λ icmp_type k.
                    if-Settles (not (icmp_type == 11) && not (icmp_type == 3)) _ _ (λ e. settled tt)
                      (λ e. quoted_packet-Settles icmp_type (ihl first + 8) (ground (arith, e)))))))
