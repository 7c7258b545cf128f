-- ===== src/Cli/Csv/RoundTrip.antt =====
-- src/cli/mod.rs, `csv_field`: a reader of RFC 4180 gets the fields of a row back.
use ip_tools.Base.{
  ℕ, ◌≡◌, refl, ap, sym, ◌∙◌, false, Bool-cases, inl, inr, nat_eq, ◌==◌, if◌then◌else◌, Option,
  none, some, List, [], ◌∷◌, ◌++◌, append-nil, append_assoc, map, any, join, arith, Text,
}
use ip_tools.Cli.Csv.{is_special, double_quotes, csv_field}

-- Where the reader stands: before a field, in a plain or a quoted field of which the text is read,
-- or behind a quote in a quoted field.
pub data Mode : Type 0 where
  begin : Mode
  plain quoted closing : Text → Mode

pub data Step : Type 0 where
  next : Mode → Step
  field : Text → Step
  malformed : Step

unfoldable pub step : Mode → ℕ → Step
step begin c =
    if c == 34
    then next (quoted [])
    else if c == b','
    then field []
    else if is_special c
    then malformed
    else next (plain (c ∷ []))
step (plain s) c =
    if c == b',' then field s else if is_special c then malformed else next (plain (s ++ (c ∷ [])))
step (quoted s) c = if c == 34 then next (closing s) else next (quoted (s ++ (c ∷ [])))
step (closing s) c =
    if c == 34 then next (quoted (s ++ (34 ∷ []))) else if c == b',' then field s else malformed

add_field : Text → Option (List Text) → Option (List Text)
add_field f none = none
add_field f (some fs) = some (f ∷ fs)

unfoldable pub at_end : Mode → Option (List Text)
at_end begin = some ([] ∷ [])
at_end (plain s) = some (s ∷ [])
at_end (quoted s) = none
at_end (closing s) = some (s ∷ [])

-- The fields of one record; none for a text that is not one, or not just one.
unfoldable pub read_record : Mode → Text → Option (List Text)
unfolding step add_field at_end
read_record m [] = at_end m
read_record m (c ∷ rest) = elim (step m c) [
  | next n ↦ read_record n rest
  | field f ↦ add_field f (read_record begin rest)
  | malformed ↦ none
]

read-next :
    (m n : Mode) (c : ℕ) (rest : Text)
    → step m c ≡ next n
    → read_record m (c ∷ rest) ≡ read_record n rest
unfolding read_record
read-next m n c rest e = rw (e, read_record) refl

read-field :
    (m : Mode) (c : ℕ) (f rest : Text)
    → step m c ≡ field f
    → read_record m (c ∷ rest) ≡ add_field f (read_record begin rest)
unfolding read_record
read-field m c f rest e = rw (e, read_record) refl

step-quoted :
    (s : Text) (c : ℕ) → (c == 34) ≡ false → step (quoted s) c ≡ next (quoted (s ++ (c ∷ [])))
unfolding step
step-quoted s c h = rw h refl

step-plain :
    (s : Text) (c : ℕ) → is_special c ≡ false → step (plain s) c ≡ next (plain (s ++ (c ∷ [])))
unfolding step
step-plain s c h = ground (arith, h)

step-begin : (c : ℕ) → is_special c ≡ false → step begin c ≡ next (plain (c ∷ []))
unfolding step
step-begin c h = ground (arith, h)

double_quotes-other :
    (c : ℕ) (f : Text) → (c == 34) ≡ false → double_quotes (c ∷ f) ≡ c ∷ double_quotes f
unfolding double_quotes
double_quotes-other c f h = rw h refl

-- What a reader does with a written field, for any reader that follows `step`.
module _ {ℓ} {X : Type ℓ} (read : Mode → Text → X)
    (follows : (m n : Mode) (c : ℕ) (rest : Text)
      → step m c ≡ next n
      → read m (c ∷ rest) ≡ read n rest) where
  read-quoted :
      (f s rest : Text)
      → read (quoted s) (double_quotes f ++ (34 ∷ rest)) ≡ read (closing (s ++ f)) rest
  unfolding step double_quotes
  read-quoted [] s rest =
      follows (quoted s) (closing s) 34 rest refl
      ∙ ap (λ t. read (closing t) rest) (sym (append-nil s))
  read-quoted (c ∷ f) s rest = elim (Bool-cases (c == 34)) [
    | inl h ↦
        let same : c ≡ 34 = ground (arith, h) in
        rw same (
          follows (quoted s) (closing s) 34 _ refl
          ∙ follows (closing s) (quoted (s ++ (34 ∷ []))) 34 _ refl
          ∙ read-quoted f (s ++ (34 ∷ [])) rest
          ∙ ap (λ t. read (closing t) rest) (append_assoc s (34 ∷ []) f))
    | inr h ↦
        ap (λ t. read (quoted s) (t ++ (34 ∷ rest))) (double_quotes-other c f h)
        ∙ follows (quoted s) _ c (double_quotes f ++ (34 ∷ rest)) (step-quoted s c h)
        ∙ read-quoted f (s ++ (c ∷ [])) rest
        ∙ ap (λ t. read (closing t) rest) (append_assoc s (c ∷ []) f)
  ]

  read-plain :
      (f s rest : Text)
      → any is_special f ≡ false
      → read (plain s) (f ++ rest) ≡ read (plain (s ++ f)) rest
  read-plain [] s rest h = ap (λ t. read (plain t) rest) (sym (append-nil s))
  read-plain (c ∷ f) s rest h =
      follows (plain s) _ c (f ++ rest) (step-plain s c (ground (arith, h)))
      ∙ read-plain f (s ++ (c ∷ [])) rest (ground (arith, h))
      ∙ ap (λ t. read (plain t) rest) (append_assoc s (c ∷ []) f)

  -- A text is read up to its end: `m` is where the reader stands then.
  abbrev ReadsAs : Text → Text → Type ℓ
  ReadsAs written f =
      (m : Mode) × ((rest : Text) → read begin (written ++ rest) ≡ read m rest)
      × (at_end m ≡ some (f ∷ []))
      × (step m b',' ≡ field f)
      × (step m 10 ≡ malformed)

  plain_field : (f : Text) → any is_special f ≡ false → ReadsAs f f
  unfolding step at_end
  plain_field [] h = (begin, λ rest. refl, refl, refl, refl)
  plain_field (c ∷ f) h = (
    plain (c ∷ f),
    λ rest.
        follows begin (plain (c ∷ [])) c (f ++ rest) (step-begin c (ground (arith, h)))
        ∙ read-plain f (c ∷ []) rest (ground (arith, h)),
    refl,
    refl,
    refl,
  )

  quoted_field : (f : Text) → ReadsAs (34 ∷ (double_quotes f ++ (34 ∷ []))) f
  unfolding step at_end
  quoted_field f = (
    closing f,
    λ rest.
        follows begin (quoted []) 34 _ refl
        ∙ ap (read (quoted [])) (append_assoc (double_quotes f) (34 ∷ []) rest)
        ∙ read-quoted f [] rest,
    refl,
    refl,
    refl,
  )

  pub read-csv_field : (f : Text) → ReadsAs (csv_field f) f
  unfolding csv_field
  read-csv_field f = elim (Bool-cases (any is_special f)) [
    | inl h ↦ rw h (quoted_field f)
    | inr h ↦ rw h (plain_field f h)
  ]

-- The fields of a row, at least one, joined by commas after `csv_field`: whatever they hold,
-- commas, quotes and line breaks included, a reader of one RFC 4180 record gets them back.
pub read_record-csv_field :
    (f : Text) (fs : List Text)
    → read_record begin (join (b',' ∷ []) (map csv_field (f ∷ fs))) ≡ some (f ∷ fs)
unfolding read_record add_field join
read_record-csv_field f [] =
    let (m, reads, ends, splits, breaks) = read-csv_field read_record read-next f in
    ap (read_record begin) (sym (append-nil (csv_field f))) ∙ reads [] ∙ ends
read_record-csv_field f (g ∷ fs) =
    let (m, reads, ends, splits, breaks) = read-csv_field read_record read-next f in
    reads (b',' ∷ join (b',' ∷ []) (map csv_field (g ∷ fs)))
    ∙ read-field m b',' f (join (b',' ∷ []) (map csv_field (g ∷ fs))) splits
    ∙ ap (add_field f) (read_record-csv_field g fs)
