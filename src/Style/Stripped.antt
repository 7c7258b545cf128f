-- ===== src/Style/Stripped.antt =====
-- src/style.rs: a coloured text is the plain one once its escapes are taken out.
use ip_tools.Base.{
  ℕ, ◌≡◌, refl, ap, ◌∙◌, sym, Bool, true, false, not, ◌&&◌, Bool-cases, inl, inr, nat_eq, ◌==◌,
  if◌then◌else◌, List, [], ◌∷◌, ◌++◌, append_assoc, all, arith, Text, concat, is_digit, append-nil,
  map, join,
}
use ip_tools.Base.Trimmed.{all-append}
use ip_tools.Style.{Style, plain, paint, reset}

-- Takes every escape sequence out, from the escape byte to the next `m`. The flag is set within one.
unfoldable pub strip_escapes : Bool → Text → Text
strip_escapes inside [] = []
strip_escapes inside (c ∷ s) =
    let within = strip_escapes true s in
    let outside = strip_escapes false s in
    if inside
    then if c == b'm' then outside else within
    else if c == 27
    then within
    else c ∷ outside

abbrev pub no_escape : ℕ → Bool
no_escape c = not (c == 27)

-- The text `a` is `b` with escapes in it, if `b` has no escape byte of its own. What follows `a` is
-- stripped as it is.
unfoldable pub Recoloured : Text → Text → Type 0
unfolding strip_escapes
Recoloured a b =
    all no_escape b ≡ true → (t : Text) → strip_escapes false (a ++ t) ≡ b ++ strip_escapes false t

pub same : (s : Text) → Recoloured s s
unfolding Recoloured strip_escapes
same [] h t = refl
same (c ∷ s) h t =
    let other : (c == 27) ≡ false = ground (arith, h) in
    rw (other, same s (ground (arith, h)) t) refl

pub append : (a b c d : Text) → Recoloured a b → Recoloured c d → Recoloured (a ++ c) (b ++ d)
unfolding Recoloured
append a b c d f g h t =
    let both : (all no_escape b && all no_escape d) ≡ true = sym (all-append no_escape b d) ∙ h in
    ap (strip_escapes false) (append_assoc a c t)
    ∙ f (ground (arith, both)) (c ++ t)
    ∙ ap (λ s. b ++ s) (g (ground (arith, both)) t)
    ∙ sym (append_assoc b d (strip_escapes false t))

-- A code is digits, which end no escape.
strip-code :
    (code t : Text)
    → all is_digit code ≡ true
    → strip_escapes true (code ++ (b'm' ∷ t)) ≡ strip_escapes false t
unfolding strip_escapes
strip-code [] t h = refl
strip-code (c ∷ code) t h =
    let other : (c == b'm') ≡ false = ground (arith, h) in
    rw other (strip-code code t (ground (arith, h)))

strip-reset : (t : Text) → strip_escapes false (reset ++ t) ≡ strip_escapes false t
unfolding strip_escapes
strip-reset t = refl

strip-opening :
    (code t : Text)
    → all is_digit code ≡ true
    → strip_escapes false (27 ∷ b'[' ∷ (code ++ (b'm' ∷ t))) ≡ strip_escapes false t
unfolding strip_escapes
strip-opening code t h = strip-code code t h

pub painted :
    (style : Style) (code s : Text)
    → all is_digit code ≡ true
    → Recoloured (paint style code s) (paint plain code s)
unfolding paint Recoloured strip_escapes
painted style code s k h t = elim (Bool-cases style.color) [
  | inl e ↦ rw e (
      ap (λ u. strip_escapes false (27 ∷ b'[' ∷ u))
        (append_assoc code (b'm' ∷ (s ++ reset)) t
          ∙ ap (λ u. code ++ (b'm' ∷ u)) (append_assoc s reset t))
      ∙ strip-opening code (s ++ (reset ++ t)) k
      ∙ same s h (reset ++ t)
      ∙ ap (λ u. s ++ u) (strip-reset t))
  | inr e ↦ rw e (same s h t)
]

pub stripped : (a b : Text) → Recoloured a b → all no_escape b ≡ true → strip_escapes false a ≡ b
unfolding Recoloured strip_escapes
stripped a b f h = ap (strip_escapes false) (sym (append-nil a)) ∙ f h [] ∙ append-nil b

-- Piece by piece, and row by row.
abbrev pub AllRecoloured : List Text → List Text → Type 0
AllRecoloured [] [] = Unit
AllRecoloured (p ∷ ps) (q ∷ qs) = Recoloured p q × AllRecoloured ps qs
AllRecoloured _ _ = ⊥

infixr 3 ◌&◌
abbrev pub ◌&◌ {ℓ κ} : {A : Type ℓ} {B : Type κ} → A → B → A × B
r & rs = (r, rs)

pub pieces : (ps qs : List Text) → AllRecoloured ps qs → Recoloured (concat ps) (concat qs)
unfolding concat
pieces [] [] r = same []
pieces [] (q ∷ qs) r = elim r [ ]
pieces (p ∷ ps) [] r = elim r [ ]
pieces (p ∷ ps) (q ∷ qs) (r, rs) = append p q (concat ps) (concat qs) r (pieces ps qs rs)

pub rows {ℓ} :
    {A : Type ℓ} (f g : A → Text) (xs : List A)
    → ((x : A) → Recoloured (f x) (g x))
    → AllRecoloured (map f xs) (map g xs)
rows f g [] r = tt
rows f g (x ∷ xs) r = (r x, rows f g xs r)

pub kept : (ps qs rs : List Text) → AllRecoloured qs rs → AllRecoloured (ps ++ qs) (ps ++ rs)
kept [] qs rs r = r
kept (p ∷ ps) qs rs r = (same p, kept ps qs rs r)

pub joined :
    (sep : Text) (ps qs : List Text) → AllRecoloured ps qs → Recoloured (join sep ps) (join sep qs)
unfolding join
joined sep [] [] r = same []
joined sep [] (q ∷ qs) r = elim r [ ]
joined sep (p ∷ ps) [] r = elim r [ ]
joined sep (p ∷ []) (q ∷ []) (r, rs) = r
joined sep (p ∷ []) (q ∷ q' ∷ qs) (r, rs) = elim rs [ ]
joined sep (p ∷ p' ∷ ps) (q ∷ []) (r, rs) = elim rs [ ]
joined sep (p ∷ p' ∷ ps) (q ∷ q' ∷ qs) (r, rs) =
    append p q (sep ++ join sep (p' ∷ ps)) (sep ++ join sep (q' ∷ qs)) r (
      append sep sep (join sep (p' ∷ ps)) (join sep (q' ∷ qs)) (same sep)
        (joined sep (p' ∷ ps) (q' ∷ qs) rs))
