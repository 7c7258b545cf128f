-- ===== src/Dns/Base64/RoundTrip.antt =====
-- `base64url` against a decoder of RFC 4648 §5, written for the purpose.
use ip_tools.Base.{
  ℕ, zero, suc, ◌+◌, ◌-◌, ◌*◌, ◌/◌, ◌%◌, ◌<◌, ◌≡◌, refl, ap, Bool, true, false, ◌&&◌, List, [], ◌∷◌,
  Option, none, some, All, leb, ◌==◌, nat_eq, if◌then◌else◌, Bytes, Text, arith, Bool-cases,
  Option-cases, eq_of_beq, inl, inr,
}
use ip_tools.Dns.Outcome.{Outcome, ok, Settles, settled, bind-Settles}
use ip_tools.Dns.Base64.{symbol, base64url}

-- The number that a symbol stands for.
abbrev value : ℕ → Option ℕ
value c =
    if leb b'A' c && leb c b'Z'
    then some (c - b'A')
    else if leb b'a' c && leb c b'z'
    then some (c - b'a' + 26)
    else if leb b'0' c && leb c b'9'
    then some (c - b'0' + 52)
    else if c == b'-'
    then some 62
    else if c == b'_'
    then some 63
    else none

abbrev bytes_of : List ℕ → Option Bytes
bytes_of [] = some []
bytes_of (v0 ∷ []) = none
bytes_of (v0 ∷ v1 ∷ []) = some ((v0 * 4 + v1 / 16) ∷ [])
bytes_of (v0 ∷ v1 ∷ v2 ∷ []) = some ((v0 * 4 + v1 / 16) ∷ (v1 % 16 * 16 + v2 / 4) ∷ [])
bytes_of (v0 ∷ v1 ∷ v2 ∷ v3 ∷ vs) = elim (bytes_of vs) [
  | none ↦ none
  | some rest ↦ some ((v0 * 4 + v1 / 16) ∷ (v1 % 16 * 16 + v2 / 4) ∷ (v2 % 4 * 64 + v3) ∷ rest)
]

abbrev values : Text → Option (List ℕ)
values [] = some []
values (c ∷ s) = elim (value c) [
  | none ↦ none
  | some v ↦ elim (values s) [ none ↦ none | some vs ↦ some (v ∷ vs) ]
]

unfoldable pub decode : Text → Option Bytes
decode s = elim (values s) [ none ↦ none | some vs ↦ bytes_of vs ]

-- Each number below 64 has a symbol, and it stands for that number.
matches : ℕ → Bool
matches i = elim (symbol i) [
  | Outcome.ok c ↦ elim (value c) [ none ↦ false | some v ↦ v == i ]
  | _ ↦ false
]

all_below : (ℕ → Bool) → ℕ → Bool
all_below p zero = true
all_below p (suc n) = p n && all_below p n

all_match : all_below matches 64 ≡ true
unfolding all_below matches symbol
all_match = refl

all_below-at : (p : ℕ → Bool) (n i : ℕ) → all_below p n ≡ true → i < n → p i ≡ true
unfolding all_below
all_below-at p zero i h lt = absurd (omega arith)
all_below-at p (suc n) i h lt = elim (Bool-cases (i == n)) [
  | inl e ↦ cc (and_left (p n) (all_below p n) h, eq_of_beq i n e)
  | inr e ↦ all_below-at p n i (and_right (p n) (all_below p n) h) (ground (arith, e, lt))
]
  where
    and_left : (a b : Bool) → (a && b) ≡ true → a ≡ true
    and_left a b h = ground (arith, h)

    and_right : (a b : Bool) → (a && b) ≡ true → b ≡ true
    and_right a b h = ground (arith, h)

symbol-Settles : (i : ℕ) → i < 64 → Settles (λ c. value c ≡ some i) (symbol i)
unfolding matches
symbol-Settles i lt = of_match (symbol i) (all_below-at matches 64 i all_match lt)
  where
    stands : (o : Option ℕ) → (elim o [ none ↦ false | some v ↦ v == i ]) ≡ true → o ≡ some i
    stands none h = cc h
    stands (some v) h = ap some (eq_of_beq v i h)

    of_match :
        (o : Outcome ℕ)
        → (elim o [ Outcome.ok c ↦ elim (value c) [ none ↦ false | some v ↦ v == i ] | _ ↦ false ])
          ≡ true
        → Settles (λ c. value c ≡ some i) o
    of_match (ok c) h = settled (stands (value c) h)
    of_match (Outcome.err e) h = cc h
    of_match Outcome.panic h = cc h
    of_match Outcome.diverged h = cc h

-- Four symbols in front of a text that decodes.
decode_four :
    (c0 c1 c2 c3 v0 v1 v2 v3 b0 b1 b2 : ℕ) (s : Text) (bytes : Bytes)
    → value c0 ≡ some v0
    → value c1 ≡ some v1
    → value c2 ≡ some v2
    → value c3 ≡ some v3
    → decode s ≡ some bytes
    → v0 * 4 + v1 / 16 ≡ b0
    → v1 % 16 * 16 + v2 / 4 ≡ b1
    → v2 % 4 * 64 + v3 ≡ b2
    → decode (c0 ∷ c1 ∷ c2 ∷ c3 ∷ s) ≡ some (b0 ∷ b1 ∷ b2 ∷ bytes)
unfolding decode
decode_four c0 c1 c2 c3 v0 v1 v2 v3 b0 b1 b2 s bytes e0 e1 e2 e3 h x0 x1 x2 =
    elim (Option-cases (values s)) [
      | inl n ↦ cc (rw (decode, n) at h)
      | inr (vs, n) ↦ rw (decode, e0, e1, e2, e3, n) (rw (rw (decode, n) at h) (cc (x0, x1, x2)))
    ]

decode_nil : decode [] ≡ some []
unfolding decode
decode_nil = refl

decode_two :
    (c0 c1 v0 v1 b0 : ℕ)
    → value c0 ≡ some v0
    → value c1 ≡ some v1
    → v0 * 4 + v1 / 16 ≡ b0
    → decode (c0 ∷ c1 ∷ []) ≡ some (b0 ∷ [])
unfolding decode
decode_two c0 c1 v0 v1 b0 e0 e1 x0 = rw (decode, e0, e1) (ap (λ b. some (b ∷ [])) x0)

decode_three :
    (c0 c1 c2 v0 v1 v2 b0 b1 : ℕ)
    → value c0 ≡ some v0
    → value c1 ≡ some v1
    → value c2 ≡ some v2
    → v0 * 4 + v1 / 16 ≡ b0
    → v1 % 16 * 16 + v2 / 4 ≡ b1
    → decode (c0 ∷ c1 ∷ c2 ∷ []) ≡ some (b0 ∷ b1 ∷ [])
unfolding decode
decode_three c0 c1 c2 v0 v1 v2 b0 b1 e0 e1 e2 x0 x1 = rw (decode, e0, e1, e2) (cc (x0, x1))

-- Every sequence of bytes is encoded without a panic, and the decoder gives it back.
pub base64url-decode :
    (bytes : Bytes)
    → All (λ b. b < 256) bytes
    → Settles (λ out. decode out ≡ some bytes) (base64url bytes)
unfolding base64url
base64url-decode [] h = settled {a = []} decode_nil
base64url-decode (b0 ∷ []) (h0, h) = bind-Settles _ (symbol-Settles (b0 / 4) (omega arith)) λ c0 e0.
    bind-Settles _ (symbol-Settles (b0 % 4 * 16 + 0 / 16) (omega arith))
      λ c1 e1. settled (decode_two c0 c1 (b0 / 4) (b0 % 4 * 16 + 0 / 16) b0 e0 e1 (omega arith))
base64url-decode (b0 ∷ b1 ∷ []) (h0, (h1, h)) =
    bind-Settles _ (symbol-Settles (b0 / 4) (omega arith)) λ c0 e0.
      bind-Settles _ (symbol-Settles (b0 % 4 * 16 + b1 / 16) (omega arith)) λ c1 e1.
        bind-Settles _ (symbol-Settles (b1 % 16 * 4 + 0 / 64) (omega arith)) λ c2 e2. settled (
          decode_three c0 c1 c2 (b0 / 4) (b0 % 4 * 16 + b1 / 16) (b1 % 16 * 4 + 0 / 64) b0 b1 e0 e1
            e2 (omega arith) (omega arith))
base64url-decode (b0 ∷ b1 ∷ b2 ∷ bytes) (h0, (h1, (h2, h))) =
    bind-Settles _ (symbol-Settles (b0 / 4) (omega arith)) λ c0 e0.
      bind-Settles _ (symbol-Settles (b0 % 4 * 16 + b1 / 16) (omega arith)) λ c1 e1.
        bind-Settles _ (symbol-Settles (b1 % 16 * 4 + b2 / 64) (omega arith)) λ c2 e2.
          bind-Settles _ (symbol-Settles (b2 % 64) (omega arith)) λ c3 e3.
            bind-Settles _ (base64url-decode bytes h) λ rest d. settled (
              decode_four c0 c1 c2 c3 (b0 / 4) (b0 % 4 * 16 + b1 / 16) (b1 % 16 * 4 + b2 / 64)
                (b2 % 64) b0 b1 b2 rest bytes e0 e1 e2 e3 d (omega arith) (omega arith)
                (omega arith))
