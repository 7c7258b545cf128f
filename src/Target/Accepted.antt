-- ===== src/Target/Accepted.antt =====
-- src/target.rs: what holds of every target that is accepted.
use ip_tools.Base.{
  ℕ, ◌+◌, ◌<◌, ◌≡◌, ◌≢◌, sym, refl, ◌⊎◌, inl, inr, Option, some, Option-cases, [], ◌∷◌, ◌++◌, Bool,
  true, false, not, ◌&&◌, Bool-cases, nat_eq, ◌==◌, if◌then◌else◌, arith, Text, text, all, is_digit,
  is_empty, first, matches_count, strip_prefix, rsplit_once, split_once, trim, trim_front,
  parse_u16, done, fail, eq_of_beq,
}
use ip_tools.Base.Decimal.{parse_u16-lt}
use ip_tools.Target.{
  Target, Parsed, InvalidTarget, parse, parse_trimmed, parse_unbracketed, parse_plain,
  parse_host_port, parse_port, parse_bracketed, is_url, is_userinfo, unwrap_or_empty,
}

-- A target with the property, or an error.
pub data Meets (P : Target → Type 0) : Parsed → Type 0 where
  meets : {t : Target} → P t → Meets P (done t)
  refused : {e : InvalidTarget} → Meets P (fail e)

if-Meets :
    {P : Target → Type 0} (b : Bool) (x y : Parsed)
    → (b ≡ true → Meets P x)
    → (b ≡ false → Meets P y)
    → Meets P (if b then x else y)
if-Meets true x y h k = h refl
if-Meets false x y h k = k refl

-- A port of 16 bits, and a host that is not empty and, unless it is in brackets, does not still
-- read as a host and a port.
abbrev pub IsTarget : Target → Type 0
IsTarget t =
    (t.port < 65536)
    × (is_empty t.host ≡ false)
    × ((first t.host ≡ some b'[') ⊎ (matches_count b':' t.host ≢ 1))

parse_port-Meets :
    (host s input : Text)
    → is_empty host ≡ false
    → (first host ≡ some b'[') ⊎ (matches_count b':' host ≢ 1)
    → Meets IsTarget (parse_port host s input)
unfolding parse_port
parse_port-Meets host s input h k = elim (Option-cases (parse_u16 s)) [
  | inl e ↦ rw (e, parse_port) refused
  | inr (p, e) ↦ rw (e, parse_port) (meets (parse_u16-lt s p e, h, k))
]

bracketed-Meets :
    (input rest : Text) (default_port : ℕ)
    → default_port < 65536
    → Meets IsTarget (parse_bracketed input rest default_port)
unfolding parse_bracketed
bracketed-Meets input rest default_port h = elim (Option-cases (split_once b']' rest)) [
  | inl e ↦ rw (e, parse_bracketed) refused
  | inr (p, e) ↦
      rw (e, parse_bracketed)
        (if-Meets (is_empty p.0) _ _ (λ _. refused)
          (λ _.
            if-Meets (is_empty p.1) _ _ (λ _. meets (h, refl, inl refl))
              (λ _.
                parse_port-Meets (b'[' ∷ (p.0 ++ (b']' ∷ [])))
                  (unwrap_or_empty (strip_prefix (b':' ∷ []) p.1)) input refl (inl refl))))
]

rsplit_once-count :
    (c : ℕ) (s : Text) (p : Text × Text)
    → rsplit_once c s ≡ some p
    → matches_count c p.0 + 1 + matches_count c p.1 ≡ matches_count c s
unfolding rsplit_once matches_count
rsplit_once-count c [] p e = cc e
rsplit_once-count c (d ∷ s) p e = elim (Option-cases (rsplit_once c s)) [
  | inr (q, g) ↦
      let k : ◌≡◌ {A = Option (Text × Text)} (some (d ∷ q.0, q.1)) (some p) = rw g at e in
      let same : (d ∷ q.0, q.1) ≡ p = cc k in
      rw (sym same) (omega (arith, rsplit_once-count c s q g))
  | inl g ↦ elim (Bool-cases (c == d)) [
    | inr k ↦ cc (rw (g, k) at e)
    | inl k ↦
        let m : ◌≡◌ {A = Option (Text × Text)} (some ([], s)) (some p) = rw (g, k) at e in
        let same : ([], s) ≡ p = cc m in rw (sym same, k) refl
  ]
]

host_port-Meets :
    (input : Text) → matches_count b':' input ≡ 1 → Meets IsTarget (parse_host_port input)
unfolding parse_host_port
host_port-Meets input one = elim (Option-cases (rsplit_once b':' input)) [
  | inl e ↦ rw (e, parse_host_port) refused
  | inr (p, e) ↦
      rw (e, parse_host_port)
        (if-Meets (not (is_empty p.0) && all is_digit p.1) _ _
          (λ h.
            parse_port-Meets p.0 p.1 input (ground (arith, h))
              (inr (λ m. absurd (omega (arith, m, one, rsplit_once-count b':' input p e)))))
          (λ _. refused))
]

nonempty-trim : (s : Text) → is_empty (trim s) ≡ false → is_empty s ≡ false
unfolding trim trim_front
nonempty-trim [] h = h
nonempty-trim (c ∷ s) h = refl

plain-Meets :
    (input : Text) (default_port : ℕ)
    → default_port < 65536
    → Meets IsTarget (parse_plain input default_port)
unfolding parse_plain
plain-Meets input default_port h =
    if-Meets (matches_count b':' input == 1) _ _
      (λ e. host_port-Meets input (eq_of_beq (matches_count b':' input) 1 e))
      (λ e.
        if-Meets (is_empty (trim input)) _ _ (λ _. refused)
          (λ k. meets (h, nonempty-trim input k, inr (λ m. ground (arith, m, e)))))

unbracketed-Meets :
    (input : Text) (default_port : ℕ)
    → default_port < 65536
    → Meets IsTarget (parse_unbracketed input default_port)
unfolding parse_unbracketed
unbracketed-Meets input default_port h = elim (Option-cases (rsplit_once b'@' input)) [
  | inl e ↦ rw (e, parse_unbracketed) (plain-Meets input default_port h)
  | inr (p, e) ↦
      rw (e, parse_unbracketed)
        (if-Meets (is_empty p.0) _ _ (λ _. plain-Meets input default_port h)
          (λ _. unfold is_userinfo in refused))
]

trimmed-Meets :
    (input : Text) (default_port : ℕ)
    → default_port < 65536
    → Meets IsTarget (parse_trimmed input default_port)
unfolding parse_trimmed is_url
trimmed-Meets input default_port h = elim (Option-cases (strip_prefix (text "http://") input)) [
  | inr (rest, e) ↦ rw (e, parse_trimmed) refused
  | inl e ↦ elim (Option-cases (strip_prefix (text "https://") input)) [
    | inr (rest, f) ↦ rw (e, f, parse_trimmed) refused
    | inl f ↦ elim (Option-cases (strip_prefix (b'[' ∷ []) input)) [
      | inr (rest, g) ↦ rw (e, f, g, parse_trimmed) (bracketed-Meets input rest default_port h)
      | inl g ↦ rw (e, f, g, parse_trimmed) (unbracketed-Meets input default_port h)
    ]
  ]
]

-- With a default port of 16 bits, every accepted target has a port of 16 bits and a host that is
-- not empty; and a host that is not in brackets does not have exactly one colon, so that no port
-- is left in it.
pub parse-Meets :
    (input : Text) (default_port : ℕ)
    → default_port < 65536
    → Meets IsTarget (parse input default_port)
unfolding parse
parse-Meets input default_port h = trimmed-Meets (trim input) default_port h
