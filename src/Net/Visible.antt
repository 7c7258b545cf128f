-- ===== src/Net/Visible.antt =====
-- Rust's `Display` of an address: visible ASCII characters alone.
use ip_tools.Base.{
  ℕ, zero, suc, ◌+◌, ◌/◌, ◌%◌, ◌^◌, ◌≡◌, refl, Bool-cases, inl, inr, true, nat_eq, ◌==◌, ltb, List,
  [], ◌∷◌, ◌++◌, map, take, drop, join, all, All, Text, text, decimal, arith, is_digit,
}
use ip_tools.Base.Decimal.{decimal-digits}
use ip_tools.Base.Trimmed.{is_visible, all-append}
use ip_tools.Net.{
  IpAddr, v4, v6, parts, hex_digit, hex_digits, hex, zero_run, dot, colon, show_v4, show_segments,
  compressed, show_v6, show_ip,
}

digits-visible : (s : Text) → all is_digit s ≡ true → all is_visible s ≡ true
digits-visible [] h = refl
digits-visible (c ∷ s) h = ground (arith, h, digits-visible s (ground (arith, h)))

join-visible :
    (sep : Text) (ps : List Text)
    → all is_visible sep ≡ true
    → All (λ p. all is_visible p ≡ true) ps
    → all is_visible (join sep ps) ≡ true
unfolding join
join-visible sep [] h k = refl
join-visible sep (p ∷ []) h k = k.0
join-visible sep (p ∷ q ∷ ps) h (k, ks) = ground (
  arith,
  h,
  k,
  all-append is_visible p (sep ++ join sep (q ∷ ps)),
  all-append is_visible sep (join sep (q ∷ ps)),
  join-visible sep (q ∷ ps) h ks,
)

map-visible :
    (f : ℕ → Text) (ns : List ℕ)
    → ((n : ℕ) → all is_visible (f n) ≡ true)
    → All (λ p. all is_visible p ≡ true) (map f ns)
map-visible f [] h = tt
map-visible f (n ∷ ns) h = (h n, map-visible f ns h)

hex_digits-visible :
    (fuel n : ℕ) (out : Text)
    → all is_visible out ≡ true
    → all is_visible (hex_digits fuel n out) ≡ true
unfolding hex_digits hex_digit
hex_digits-visible zero n out h = h
hex_digits-visible (suc fuel) n out h = elim (Bool-cases (ltb n 16)) [
  | inl e ↦ rw e (ground (arith, e, h))
  | inr e ↦ rw e (hex_digits-visible fuel (n / 16) _ (ground (arith, h)))
]

show_v4-visible : (n : ℕ) → all is_visible (show_v4 n) ≡ true
unfolding show_v4
show_v4-visible n =
    join-visible dot (map decimal (parts 8 4 n)) refl
      (map-visible decimal (parts 8 4 n) (λ d. digits-visible (decimal d) (decimal-digits d)))

show_segments-visible : (ss : List ℕ) → all is_visible (show_segments ss) ≡ true
unfolding show_segments hex
show_segments-visible ss =
    join-visible colon (map hex ss) refl (map-visible hex ss (λ s. hex_digits-visible 4 s [] refl))

compressed-visible : (ss : List ℕ) (run : ℕ × ℕ) → all is_visible (compressed ss run) ≡ true
unfolding compressed
compressed-visible ss (start, len) = elim (Bool-cases (ltb 1 len)) [
  | inr e ↦ rw e (show_segments-visible ss)
  | inl e ↦ rw e (
      ground (
        arith,
        all-append is_visible (show_segments (take start ss))
            (colon ++ (colon ++ show_segments (drop (start + len) ss))),
        show_segments-visible (take start ss),
        show_segments-visible (drop (start + len) ss),
      ))
]

-- The text of an address has visible ASCII characters alone.
pub show_ip-visible : (a : IpAddr) → all is_visible (show_ip a) ≡ true
unfolding show_ip show_v6 text
show_ip-visible (v4 n) = show_v4-visible n
show_ip-visible (v6 n) = elim (Bool-cases (n / 2 ^ 32 == 0xFFFF)) [
  | inl e ↦ rw e (show_v4-visible (n % 2 ^ 32))
  | inr e ↦ rw e (compressed-visible (parts 16 8 n) (zero_run (parts 16 8 n) 0 0 0 0 0))
]
