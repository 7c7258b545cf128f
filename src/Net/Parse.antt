-- ===== src/Net/Parse.antt =====
-- Rust's `str::parse` into an `IpAddr` (std::net::parser).
use ip_tools.Base.{
  ℕ, zero, suc, ◌+◌, ◌-◌, ◌*◌, ◌/◌, ◌%◌, replicate, Bool, true, false, ◌&&◌, List, [], ◌∷◌, ◌++◌,
  Option, none, some, ◌==◌, nat_eq, ltb, leb, if◌then◌else◌, Text, is_digit, length,
}
use ip_tools.Net.{IpAddr, v4, v6}

-- Up to `room` digits of a number below `limit`, in base 10 or 16, behind the number `n` of which
-- `seen` digits are read: the number, how many digits it has, and the rest.
digit_value : ℕ → ℕ → Option ℕ
digit_value radix c =
    if is_digit c
    then some (c - b'0')
    else if radix == 16 && leb b'a' c && leb c b'f'
    then some (c - b'a' + 10)
    else if radix == 16 && leb b'A' c && leb c b'F'
    then some (c - b'A' + 10)
    else none

-- More digits than `room` are an error, and so is a number that does not fit.
read_digits : (radix limit room : ℕ) → (n seen : ℕ) → Text → Option (ℕ × ℕ × Text)
read_digits radix limit room n seen [] = if seen == 0 then none else some (n, seen, [])
read_digits radix limit room n seen (c ∷ s) =
    let stop : Option (ℕ × ℕ × Text) = (if seen == 0 then none else some (n, seen, c ∷ s)) in
    elim (digit_value radix c) [
      | none ↦ stop
      | some d ↦
          let more = read_digits radix limit room (n * radix + d) (seen + 1) s in
          if ltb seen room && ltb (n * radix + d) limit then more else none
    ]

-- A decimal octet has no leading zero.
octet : Text → Option (ℕ × Text)
unfolding read_digits digit_value
octet s = elim (read_digits 10 256 3 0 0 s) [
  | none ↦ none
  | some (n, seen, rest) ↦
      if elim s [ [] ↦ false | c ∷ t ↦ c == b'0' ] && ltb 1 seen then none else some (n, rest)
]

expect : ℕ → Text → Option Text
expect c [] = none
expect c (d ∷ s) = if c == d then some s else none

octets : ℕ → ℕ → Text → Option (ℕ × Text)
unfolding octet expect
octets zero acc s = some (acc, s)
octets (suc k) acc s = elim (octet s) [
  | none ↦ none
  | some (n, rest) ↦ elim (expect b'.' rest) [
    | none ↦ (if k == 0 then some (acc * 256 + n, rest) else none)
    | some rest' ↦ (if k == 0 then some (acc * 256 + n, rest) else octets k (acc * 256 + n) rest')
  ]
]

read_v4 : Text → Option (ℕ × Text)
unfolding octets
read_v4 s = octets 4 0 s

-- `read_groups`: up to `limit` groups of 16 bits, of which the last two may be an IPv4 address;
-- `sep` asks for a colon in front. Gives the groups, whether they end in an IPv4 address, and the
-- rest.
with_sep : Bool → Text → Option Text
unfolding expect
with_sep true s = expect b':' s
with_sep false s = some s

group_v4 : Bool → Text → Option (ℕ × Text)
unfolding with_sep read_v4
group_v4 sep s = elim (with_sep sep s) [ none ↦ none | some t ↦ read_v4 t ]

group : Bool → Text → Option (ℕ × Text)
unfolding with_sep read_digits digit_value
group sep s = elim (with_sep sep s) [
  | none ↦ none
  | some t ↦ elim (read_digits 16 0x10000 4 0 0 t) [
    | none ↦ none
    | some (n, seen, rest) ↦ some (n, rest)
  ]
]

read_groups : ℕ → Bool → Text → List ℕ × Bool × Text
unfolding group_v4 group
read_groups zero sep s = ([], false, s)
read_groups (suc k) sep s =
    let v4_tail = (if k == 0 then none else group_v4 sep s) in
    elim v4_tail [
      | some (n, rest) ↦ (n / 0x10000 ∷ n % 0x10000 ∷ [], true, rest)
      | none ↦ elim (group sep s) [
        | none ↦ ([], false, s)
        | some (g, rest) ↦
            (let (gs, mapped, after) = read_groups k true rest in (g ∷ gs, mapped, after))
      ]
    ]

-- The number that groups of 16 bits spell.
abbrev groups_value : ℕ → List ℕ → ℕ
groups_value acc [] = acc
groups_value acc (g ∷ gs) = groups_value (acc * 0x10000 + g) gs

-- The groups in front of `::`, then those behind it, with zeros between.
elided : List ℕ → Text → Option (ℕ × Text)
unfolding read_groups expect
elided front s = elim (expect b':' s) [
  | none ↦ none
  | some t ↦ elim (expect b':' t) [
    | none ↦ none
    | some u ↦
        (let (back, mapped, rest) = read_groups (7 - length front) false u in
          some (
            groups_value 0 (front ++ (replicate (8 - length front - length back) 0 ++ back)),
            rest,
          ))
  ]
]

read_v6 : Text → Option (ℕ × Text)
unfolding read_groups elided
read_v6 s =
    let (front, mapped, rest) = read_groups 8 false s in
    if length front == 8
    then some (groups_value 0 front, rest)
    else if mapped
    then none
    else elided front rest

whole : (ℕ → IpAddr) → ℕ × Text → Option IpAddr
whole f (n, []) = some (f n)
whole f (n, c ∷ s) = none

unfoldable pub parse_ip : Text → Option IpAddr
unfolding read_v4 read_v6 whole
parse_ip s = elim (read_v4 s) [
  | some r ↦ whole v4 r
  | none ↦ elim (read_v6 s) [ none ↦ none | some r ↦ whole v6 r ]
]
