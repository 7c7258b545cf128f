-- ===== src/Cli/Csv/Table.antt =====
-- src/cli: a reader of RFC 4180 gets the rows of a CSV export back.
use ip_tools.Base.{
  ℕ, ◌≡◌, refl, ap, sym, ◌∙◌, Bool, true, false, nat_eq, ◌==◌, if◌then◌else◌, Option, none, some,
  List, [], ◌∷◌, ◌++◌, append-nil, append_assoc, map, join, concat, is_empty, any, ◌&&◌, Text,
  decimal, is_digit, all, arith,
}
use mathlib.Core.List.{flatten}
use ip_tools.Base.Decimal.{decimal-digits}
use ip_tools.Cli.Csv.{is_special, csv_field, csv_row}
use ip_tools.Cli.Csv.RoundTrip.{Mode, begin, next, field, malformed, step, at_end, read-csv_field}

abbrev is_begin : Mode → Bool
is_begin begin = true
is_begin _ = false

abbrev add_rows : List (List Text) → Option (List (List Text)) → Option (List (List Text))
add_rows rows none = none
add_rows rows (some rest) = some (rows ++ rest)

abbrev end_row :
    List Text → Option (List Text) → Option (List (List Text)) → Option (List (List Text))
end_row row none later = none
end_row row (some fs) later = add_rows ((row ++ fs) ∷ []) later

-- The rows of a text in which every row ends with a line feed; `row` holds the fields of the row
-- that are read.
unfoldable pub read_table : List Text → Mode → Text → Option (List (List Text))
unfolding step at_end
read_table row m [] = if is_empty row && is_begin m then some [] else none
read_table row m (c ∷ rest) =
    let later = read_table [] begin rest in
    elim (step m c) [
      | next n ↦ read_table row n rest
      | field f ↦ read_table (row ++ (f ∷ [])) begin rest
      | malformed ↦ if c == 10 then end_row row (at_end m) later else none
    ]

table-next :
    (row : List Text) (m n : Mode) (c : ℕ) (rest : Text)
    → step m c ≡ next n
    → read_table row m (c ∷ rest) ≡ read_table row n rest
unfolding read_table
table-next row m n c rest e = rw (e, read_table) refl

table-field :
    (row : List Text) (m : Mode) (c : ℕ) (f rest : Text)
    → step m c ≡ field f
    → read_table row m (c ∷ rest) ≡ read_table (row ++ (f ∷ [])) begin rest
unfolding read_table
table-field row m c f rest e = rw (e, read_table) refl

table-break :
    (row : List Text) (m : Mode) (f rest : Text)
    → step m 10 ≡ malformed
    → at_end m ≡ some (f ∷ [])
    → read_table row m (10 ∷ rest) ≡ add_rows ((row ++ (f ∷ [])) ∷ []) (read_table [] begin rest)
unfolding read_table
table-break row m f rest e d = rw (e, d, read_table) refl

-- A text whose rows are read, whatever stands behind it.
abbrev pub Reads : Text → List (List Text) → Type 0
Reads s rows =
    (rest : Text) → read_table [] begin (s ++ rest) ≡ add_rows rows (read_table [] begin rest)

fields-read :
    (row : List Text) (f : Text) (fs : List Text) (rest : Text)
    → read_table row begin (join (b',' ∷ []) (map csv_field (f ∷ fs)) ++ (10 ∷ rest))
      ≡ add_rows ((row ++ (f ∷ fs)) ∷ []) (read_table [] begin rest)
unfolding join
fields-read row f [] rest =
    let (m, reads, ends, splits, breaks) = read-csv_field (read_table row) (table-next row) f in
    reads (10 ∷ rest) ∙ table-break row m f rest breaks ends
fields-read row f (g ∷ fs) rest =
    let (m, reads, ends, splits, breaks) = read-csv_field (read_table row) (table-next row) f in
    let others : Text = join (b',' ∷ []) (map csv_field (g ∷ fs)) in
    ap (read_table row begin) (append_assoc (csv_field f) (b',' ∷ others) (10 ∷ rest))
    ∙ reads (b',' ∷ (others ++ (10 ∷ rest)))
    ∙ table-field row m b',' f (others ++ (10 ∷ rest)) splits
    ∙ fields-read (row ++ (f ∷ [])) g fs rest
    ∙ ap (λ r. add_rows (r ∷ []) (read_table [] begin rest)) (append_assoc row (f ∷ []) (g ∷ fs))

pub row-Reads :
    (f : Text) (fs : List Text) → Reads (csv_row (map csv_field (f ∷ fs))) ((f ∷ fs) ∷ [])
unfolding csv_row
row-Reads f fs rest =
    ap (read_table [] begin)
      (append_assoc (join (b',' ∷ []) (map csv_field (f ∷ fs))) (10 ∷ []) rest)
    ∙ fields-read [] f fs rest

add_rows-append :
    (r s : List (List Text)) (o : Option (List (List Text)))
    → add_rows r (add_rows s o) ≡ add_rows (r ++ s) o
add_rows-append r s none = refl
add_rows-append r s (some t) = ap some (sym (append_assoc r s t))

pub append-Reads :
    (s t : Text) (r q : List (List Text)) → Reads s r → Reads t q → Reads (s ++ t) (r ++ q)
append-Reads s t r q f g rest =
    ap (read_table [] begin) (append_assoc s t rest)
    ∙ f (t ++ rest)
    ∙ ap (add_rows r) (g rest)
    ∙ add_rows-append r q (read_table [] begin rest)

pub empty-Reads : Reads [] []
empty-Reads rest = none_added (read_table [] begin rest)
  where
    none_added : (o : Option (List (List Text))) → o ≡ add_rows [] o
    none_added none = refl
    none_added (some rows) = refl

-- One row for each element, and the rows of a list of lists.
pub rows-Reads {ℓ} :
    {A : Type ℓ} (written : A → Text) (values : A → List (List Text)) (xs : List A)
    → ((x : A) → Reads (written x) (values x))
    → Reads (concat (map written xs)) (flatten (map values xs))
unfolding concat flatten
rows-Reads written values [] f = empty-Reads
rows-Reads written values (x ∷ xs) f = append-Reads _ _ _ _ (f x) (rows-Reads written values xs f)

pub all-Reads :
    (s : Text) (rows : List (List Text)) → Reads s rows → read_table [] begin s ≡ some rows
unfolding read_table
all-Reads s rows f =
    ap (read_table [] begin) (sym (append-nil s)) ∙ f [] ∙ ap some (append-nil rows)

-- A text without a comma, a quote or a line break is a field as it is.
pub csv_field-same : (s : Text) → any is_special s ≡ false → csv_field s ≡ s
unfolding csv_field
csv_field-same s h = rw h refl

special-digits : (s : Text) → all is_digit s ≡ true → any is_special s ≡ false
special-digits [] h = refl
special-digits (c ∷ s) h = ground (arith, h, special-digits s (ground (arith, h)))

pub csv_field-decimal : (n : ℕ) → csv_field (decimal n) ≡ decimal n
csv_field-decimal n = csv_field-same (decimal n) (special-digits (decimal n) (decimal-digits n))
