-- ===== src/Net.antt =====
-- Rust's `std::net::{IpAddr, SocketAddr}`: equality, order and `Display`.
-- An address is its 32 or 128 bits. The flow label and the scope id of an IPv6 socket address,
-- which the program never sets, are left out.
pub mod Parse
pub mod Visible
mod Tests
use ip_tools.Base.{
  ℕ, zero, suc, ◌+◌, ◌-◌, ◌*◌, ◌/◌, ◌%◌, ◌^◌, ◌≡◌, refl, ◌↔◌, Bool, true, false, ◌&&◌, ◌||◌, List,
  [], ◌∷◌, ◌++◌, map, arith, PartialEq, ◌==◌, nat_eq, ltb, leb, if◌then◌else◌, Text, text, decimal,
  join, length, take, drop, ap,
}

pub data IpAddr : Type 0 where
  v4 : ℕ → IpAddr
  v6 : ℕ → IpAddr

pub record SocketAddr : Type 0 where
  pub ip : IpAddr
  pub port : ℕ

abbrev pub ip_beq : IpAddr → IpAddr → Bool
ip_beq (v4 a) (v4 b) = a == b
ip_beq (v6 a) (v6 b) = a == b
ip_beq _ _ = false

pub ip_beq_iff : (a b : IpAddr) → (ip_beq a b ≡ true) ↔ (a ≡ b)
ip_beq_iff (v4 a) (v4 b) = ground arith
ip_beq_iff (v4 a) (v6 b) = ground arith
ip_beq_iff (v6 a) (v4 b) = ground arith
ip_beq_iff (v6 a) (v6 b) = ground arith

instance abbrev pub ip_eq : PartialEq IpAddr
ip_eq = record { beq = ip_beq; beq_iff = ip_beq_iff }

abbrev pub addr_beq : SocketAddr → SocketAddr → Bool
addr_beq a b = ip_beq a.ip b.ip && a.port == b.port

pub addr_beq_iff : (a b : SocketAddr) → (addr_beq a b ≡ true) ↔ (a ≡ b)
addr_beq_iff a b = ground (arith, ip_beq_iff a.ip b.ip)

instance abbrev pub addr_eq : PartialEq SocketAddr
addr_eq = record { beq = addr_beq; beq_iff = addr_beq_iff }

-- `Ord`: IPv4 before IPv6, then the number.
abbrev pub ip_lt : IpAddr → IpAddr → Bool
ip_lt (v4 a) (v4 b) = ltb a b
ip_lt (v4 a) (v6 b) = true
ip_lt (v6 a) (v4 b) = false
ip_lt (v6 a) (v6 b) = ltb a b

abbrev pub addr_lt : SocketAddr → SocketAddr → Bool
addr_lt a b = ip_lt a.ip b.ip || (a.ip == b.ip && ltb a.port b.port)

abbrev pub ip_is_v4 : IpAddr → Bool
ip_is_v4 (v4 a) = true
ip_is_v4 (v6 a) = false

-- `SocketAddr::is_ipv4`.
abbrev pub is_ipv4 : SocketAddr → Bool
is_ipv4 a = ip_is_v4 a.ip

-- The parts of `n` of `2 ^ bits` each, `k` of them, the highest first.
unfoldable pub parts : ℕ → ℕ → ℕ → List ℕ
parts bits zero n = []
parts bits (suc k) n = (n / 2 ^ (bits * k) % 2 ^ bits) ∷ parts bits k n

hex_digit : ℕ → ℕ
hex_digit d = if ltb d 10 then b'0' + d else b'a' + (d - 10)

hex_digits : ℕ → ℕ → Text → Text
unfolding hex_digit
hex_digits zero n out = out
hex_digits (suc fuel) n out =
    let more = hex_digits fuel (n / 16) (hex_digit (n % 16) ∷ out) in
    if ltb n 16 then hex_digit n ∷ out else more

-- `{:x}` of a 16-bit segment.
hex : ℕ → Text
unfolding hex_digits
hex n = hex_digits 4 n []

-- The longest run of zero segments, the first of that length: its start and its length.
-- `i` is the position, `start` and `len` the run that ends there.
zero_run : List ℕ → (i start len best_start best_len : ℕ) → ℕ × ℕ
zero_run [] i start len best_start best_len = (best_start, best_len)
zero_run (s ∷ rest) i start len best_start best_len =
    let start' = if len == 0 then i else start in
    let better = zero_run rest (i + 1) start' (len + 1) start' (len + 1) in
    let same = zero_run rest (i + 1) start' (len + 1) best_start best_len in
    let over = zero_run rest (i + 1) 0 0 best_start best_len in
    if s == 0 then (if ltb best_len (len + 1) then better else same) else over

abbrev dot : Text
dot = b'.' ∷ []

abbrev colon : Text
colon = b':' ∷ []

show_v4 : ℕ → Text
unfolding parts decimal join
show_v4 n = join dot (map decimal (parts 8 4 n))

show_segments : List ℕ → Text
unfolding hex join
show_segments ss = join colon (map hex ss)

compressed : List ℕ → ℕ × ℕ → Text
unfolding show_segments
compressed ss (start, len) =
    if ltb 1 len
    then show_segments (take start ss)
      ++ (colon ++ (colon ++ show_segments (drop (start + len) ss)))
    else show_segments ss

-- An IPv4-mapped address, `::ffff:a.b.c.d`, is written so.
show_v6 : ℕ → Text
unfolding compressed zero_run show_v4 text parts
show_v6 n =
    if n / 2 ^ 32 == 0xFFFF
    then text "::ffff:" ++ show_v4 (n % 2 ^ 32)
    else compressed (parts 16 8 n) (zero_run (parts 16 8 n) 0 0 0 0 0)

unfoldable pub show_ip : IpAddr → Text
unfolding show_v4 show_v6
show_ip (v4 n) = show_v4 n
show_ip (v6 n) = show_v6 n

-- `Display for SocketAddr`: an IPv6 address stands in brackets.
unfoldable pub show_addr : SocketAddr → Text
unfolding show_ip
show_addr a =
    let plain = show_ip a.ip ++ (colon ++ decimal a.port) in
    let bracketed = (b'[' ∷ []) ++ (show_ip a.ip ++ ((b']' ∷ []) ++ (colon ++ decimal a.port))) in
    if is_ipv4 a then plain else bracketed
