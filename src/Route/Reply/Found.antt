-- ===== src/Route/Reply/Found.antt =====
-- src/route.rs, `parse_icmp_udp_src`: a reply to a probe gives the port that the probe was sent from.
use ip_tools.Base.{
  ℕ, suc, ◌+◌, ◌*◌, ◌/◌, ◌≤◌, ◌≡◌, refl, ◌⊎◌, [], ◌∷◌, ◌++◌, length, length-append, Option, none,
  some, not, ◌&&◌, ltb, nat_eq, ◌==◌, arith, if◌then◌else◌, Bytes,
}
use ip_tools.Dns.Outcome.{Outcome, ok, index, bind-ok, if_false}
use ip_tools.Route.{ihl, quoted_port, quoted_packet, parse_icmp_udp_src}

-- A reply: an outer IPv4 header, the ICMP type and the rest of its header, and the quoted packet,
-- which is an IPv4 header whose protocol is UDP, the source port, and more.
abbrev pub reply :
    (outer : ℕ) (options : Bytes) (icmp_type : ℕ) (icmp : Bytes) (inner : ℕ) (front back : Bytes)
    (high low : ℕ) (tail : Bytes)
    → Bytes
reply outer options icmp_type icmp inner front back high low tail =
    (outer ∷ options)
    ++ ((icmp_type ∷ icmp) ++ ((inner ∷ front) ++ ((17 ∷ back) ++ (high ∷ low ∷ tail))))

index-skip :
    (xs ys : Bytes) (p q : ℕ) (o : Outcome ℕ)
    → p ≡ length xs + q
    → index ys q ≡ o
    → index (xs ++ ys) p ≡ o
index-skip [] ys p q o e h = let k : p ≡ q = omega arith in rw k h
index-skip (x ∷ xs) ys p q o e h =
    let k : p ≡ suc (length xs + q) = omega arith in
    rw k (index-skip xs ys (length xs + q) q o refl h)

module _ (outer icmp_type inner high low : ℕ) (options icmp front back tail : Bytes)
    (outer_length : ihl outer ≡ length options + 1) (outer_whole : 20 ≤ ihl outer)
    (time_or_unreachable : (icmp_type ≡ 11) ⊎ (icmp_type ≡ 3)) (icmp_length : length icmp ≡ 7)
    (version : inner / 16 ≡ 4) (inner_length : ihl inner ≡ length back + 10)
    (protocol_at : length front ≡ 8) (inner_whole : 20 ≤ ihl inner)
    (udp_length : 2 ≤ length tail) where
  abbrev buf : Bytes
  buf = reply outer options icmp_type icmp inner front back high low tail

  abbrev inner_start : ℕ
  inner_start = ihl outer + 8

  -- Positions behind the two headers in front of the quoted packet, and in the packet.
  behind :
      (ys : Bytes) (p q : ℕ) (o : Outcome ℕ)
      → p ≡ inner_start + q
      → index ys q ≡ o
      → index ((outer ∷ options) ++ ((icmp_type ∷ icmp) ++ ys)) p ≡ o
  behind ys p q o e h =
      index-skip (outer ∷ options) ((icmp_type ∷ icmp) ++ ys) p (8 + q) o (omega arith)
        (index-skip (icmp_type ∷ icmp) ys (8 + q) q o (omega arith) h)

  in_udp :
      (p q : ℕ) (o : Outcome ℕ)
      → p ≡ inner_start + (ihl inner + q)
      → index (high ∷ low ∷ tail) q ≡ o
      → index buf p ≡ o
  in_udp p q o e h = behind _ p (ihl inner + q) o e (
      index-skip (inner ∷ front) _ (ihl inner + q) (length back + (1 + q)) o (omega arith)
        (index-skip (17 ∷ back) _ (length back + (1 + q)) q o (omega arith) h))

  length-reply : length buf ≡ ihl outer + 8 + ihl inner + 2 + length tail
  length-reply =
      let udp = high ∷ low ∷ tail in
      let packet = (inner ∷ front) ++ ((17 ∷ back) ++ udp) in
      omega (
        arith,
        length-append options ((icmp_type ∷ icmp) ++ packet),
        length-append icmp packet,
        length-append front ((17 ∷ back) ++ udp),
        length-append back udp,
      )

  reply-port :
      quoted_port buf (length buf) icmp_type inner_start ≡ ok (some (icmp_type, high * 256 + low))
  unfolding quoted_port
  reply-port = bind-ok (index buf inner_start) _ _ (behind _ _ 0 _ (omega arith) refl) (
      if_false (ltb (length buf) (inner_start + ihl inner + 4)) _ _ _ (ground (arith, length-reply))
        (bind-ok (index buf (inner_start + ihl inner)) _ _ (in_udp _ 0 _ (omega arith) refl) (
          bind-ok (index buf (inner_start + ihl inner + 1)) _ _ (in_udp _ 1 _ (omega arith) refl)
            refl)))

  reply-packet :
      quoted_packet buf (length buf) icmp_type inner_start ≡ ok (some (icmp_type, high * 256 + low))
  unfolding quoted_packet
  reply-packet =
      if_false (ltb (length buf) (inner_start + 20)) _ _ _ (ground (arith, length-reply)) (
        bind-ok (index buf inner_start) _ _ (behind _ _ 0 _ (omega arith) refl) (
          if_false (not (inner / 16 == 4)) _ _ _ (ground (arith, version)) (
            bind-ok (index buf (inner_start + 9)) _ _
              (behind _ _ 9 _ (omega arith)
                (index-skip (inner ∷ front) _ 9 0 (ok 17) (omega arith) refl))
              reply-port)))

  abbrev of_type : ℕ → Outcome (Option (ℕ × ℕ))
  of_type t =
      if not (t == 11) && not (t == 3)
      then ok none
      else quoted_packet buf (length buf) t inner_start

  -- A time-exceeded or destination-unreachable reply, whose headers have the lengths that they
  -- state and which quotes an IPv4 packet of UDP with its first four bytes of UDP header, is parsed
  -- into its type and the quoted source port.
  pub parse_icmp_udp_src-reply :
      parse_icmp_udp_src buf (length buf) ≡ ok (some (icmp_type, high * 256 + low))
  unfolding parse_icmp_udp_src
  parse_icmp_udp_src-reply = if_false (ltb (length buf) 28) _ _ _ (ground (arith, length-reply)) (
      if_false (ltb (length buf) (ihl outer + 8)) (ok none) _ _ (ground (arith, length-reply)) (
        bind-ok (index buf (ihl outer)) of_type _
          (index-skip (outer ∷ options) _ (ihl outer) 0 _ (omega arith) refl)
          (if_false (not (icmp_type == 11) && not (icmp_type == 3)) (ok none) _ _
            (ground (arith, time_or_unreachable)) reply-packet)))
