-- ===== src/Cli/Headers/Injection.antt =====
-- src/cli/mod.rs: an accepted header cannot end its line.
use ip_tools.Base.{
  ℕ, ◌≡◌, refl, ap, ◌⊎◌, inl, inr, true, false, Bool-cases, nat_eq, ◌==◌, Option-cases, List, [],
  ◌∷◌, ◌++◌, any, all, is_empty, arith, All, All-append, Text, text, trim, split_once,
  matches_count, Result, Result-cases, done, fail, eq_of_beq, length,
}
use ip_tools.Base.Splitting.{matches_count-append, matches_count-all}
use ip_tools.Cli.Headers.{
  is_token_byte, valid_header_name, is_refused_byte, checked_header, parse_header_line, push_lines,
  push_header_lines, lines,
}

-- A token for a name, and a value without a control character but the tab.
abbrev pub IsClean : Text × Text → Type 0
IsClean h =
    (is_empty h.0 ≡ false) × (all is_token_byte h.0 ≡ true) × (any is_refused_byte h.1 ≡ false)

-- A result with the property, or an error.
pub data Gives {A : Type 0} (P : A → Type 0) : Result A Text → Type 0 where
  gives : {a : A} → P a → Gives P (done a)
  refused : {e : Text} → Gives P (fail e)

Gives-done : {A : Type 0} {P : A → Type 0} (a : A) → Gives P (done a) → P a
Gives-done a (gives h) = h

weaken :
    {A : Type 0} {P Q : A → Type 0} {o : Result A Text}
    → ((a : A) → P a → Q a)
    → Gives P o
    → Gives Q o
weaken f (gives {a = a} h) = gives (f a h)
weaken f refused = refused

module _ (debug : Text → Text) where
  checked_header-Gives :
      (line name value : Text) → Gives IsClean (checked_header debug line name value)
  unfolding checked_header valid_header_name
  checked_header-Gives line name value = elim (Bool-cases (valid_header_name name)) [
    | inr h ↦ rw h refused
    | inl h ↦ elim (Bool-cases (any is_refused_byte value)) [
      | inl k ↦ rw (h, k) refused
      | inr k ↦ rw (h, k) (gives (ground (arith, h), ground (arith, h), k))
    ]
  ]

  parse_header_line-Gives : (line : Text) → Gives IsClean (parse_header_line debug line)
  unfolding parse_header_line
  parse_header_line-Gives line = elim (Option-cases (split_once b':' line)) [
    | inl e ↦ rw (e, parse_header_line) refused
    | inr (p, e) ↦ rw (e, parse_header_line) (checked_header-Gives line (trim p.0) (trim p.1))
  ]

  push_lines-Gives :
      (source : Text) (raws : List Text) (headers : List (Text × Text))
      → All IsClean headers
      → Gives (All IsClean) (push_lines debug source raws headers)
  unfolding push_lines
  push_lines-Gives source [] headers h = gives h
  push_lines-Gives source (raw ∷ rest) headers h = elim (Bool-cases (is_empty (trim raw))) [
    | inl e ↦ rw (e, push_lines) (push_lines-Gives source rest headers h)
    | inr e ↦ elim (Result-cases (parse_header_line debug (trim raw))) [
      | inr (m, k) ↦ rw (e, k, push_lines) refused
      | inl (g, k) ↦
          rw (e, k, push_lines)
            (push_lines-Gives source rest (headers ++ (g ∷ [])) (
              All-append IsClean headers (g ∷ []) h
                (Gives-done g (rw k at (parse_header_line-Gives (trim raw))), tt)))
    ]
  ]

-- The lines that a list of headers is sent as.
unfoldable pub wire : List (Text × Text) → Text
unfolding text
wire [] = []
wire (h ∷ hs) = h.0 ++ (text ": " ++ (h.1 ++ (13 ∷ 10 ∷ wire hs)))

count-unrefused :
    (c : ℕ) (s : Text)
    → is_refused_byte c ≡ true
    → any is_refused_byte s ≡ false
    → matches_count c s ≡ 0
unfolding matches_count
count-unrefused c [] h k = refl
count-unrefused c (d ∷ s) h k = elim (Bool-cases (c == d)) [
  | inl e ↦
      let same : c ≡ d = eq_of_beq c d e in absurd (ground (arith, h, k, ap is_refused_byte same))
  | inr e ↦ rw e (omega (arith, count-unrefused c s h (ground (arith, k))))
]

breaks : (c : ℕ) → (c ≡ 13) ⊎ (c ≡ 10) → (is_token_byte c ≡ false) × (is_refused_byte c ≡ true)
unfolding is_token_byte text
breaks c (inl e) = rw e (refl, refl)
breaks c (inr e) = rw e (refl, refl)

-- A carriage return or a line feed of the lines ends one of them.
count-wire :
    (c : ℕ) (hs : List (Text × Text))
    → (c ≡ 13) ⊎ (c ≡ 10)
    → All IsClean hs
    → matches_count c (wire hs) ≡ length hs
unfolding wire matches_count text
count-wire c [] h a = refl
count-wire c (g ∷ hs) h ((named, token, clean), a) = ground (
  arith,
  h,
  matches_count-append c g.0 (b':' ∷ 32 ∷ (g.1 ++ (13 ∷ 10 ∷ wire hs))),
  matches_count-append c g.1 (13 ∷ 10 ∷ wire hs),
  matches_count-all is_token_byte c g.0 (breaks c h).0 token,
  count-unrefused c g.1 (breaks c h).1 clean,
  count-wire c hs h a,
)

-- Whatever a file or the standard input holds, `push_header_lines` fails or gives headers of which
-- each has a token for a name and a value without control characters but tabs; sent as lines, they
-- have just one carriage return and one line feed for each header.
pub push_header_lines-Gives :
    (debug : Text → Text) (s source : Text)
    → Gives
        (λ hs.
          All IsClean hs
          × (matches_count 13 (wire hs) ≡ length hs)
          × (matches_count 10 (wire hs) ≡ length hs))
        (push_header_lines debug [] s source)
unfolding push_header_lines
push_header_lines-Gives debug s source =
    weaken (λ hs a. (a, count-wire 13 hs (inl refl) a, count-wire 10 hs (inr refl) a))
      (push_lines-Gives debug source (lines s) [] tt)
