-- ===== src/Report/Diagnoses/Tallied.antt =====
-- src/report.rs: the last line of the report on verdicts.
use ip_tools.Report.Diagnoses.Numbers.{numbers_from, numbers, numbers_from-decimal}
use ip_tools.Base.{
  any, append-nil, append_assoc, ap, ◌∙◌, none, is_digit, decimal, text, concat, join, map,
  filter_map, ℕ, ◌+◌, ◌≡◌, refl, Bool, true, false, Bool-cases, inl, inr, ◌&&◌, List, [], ◌∷◌, ◌++◌,
  filter, length, ltb, arith, nat_eq, ◌==◌, is_empty, if◌then◌else◌, Text,
}
use ip_tools.Model.{Diagnosis, Severity}
use ip_tools.Report.Columns.{newline}
use ip_tools.Style.{Style, plain, paint}
use ip_tools.Report.Diagnoses.{
  has_severity, is_anomaly, severity_count, anomaly_count, anomaly_line, anomaly_token, is_high,
  severity_part, severities, show_severity,
}

abbrev bit : Bool → ℕ
bit b = if b then 1 else 0

length-filter {ℓ} :
    {A : Type ℓ} (p : A → Bool) (x : A) (xs : List A)
    → length (filter p (x ∷ xs)) ≡ bit (p x) + length (filter p xs)
length-filter p x xs = elim (Bool-cases (p x)) [
  | inl e ↦ rw e (omega arith)
  | inr e ↦ rw e (omega arith)
]

-- One verdict is of exactly one severity.
one_severity :
    (b : Bool) (s : Severity)
    → bit (b && has_severity Severity.high s)
        + bit (b && has_severity Severity.medium s)
        + bit (b && has_severity Severity.low s)
        + bit (b && has_severity Severity.info s)
      ≡ bit b
one_severity false s = refl
one_severity true Severity.info = refl
one_severity true Severity.low = refl
one_severity true Severity.medium = refl
one_severity true Severity.high = refl

severity_count-cons :
    (d : Diagnosis) (ds : List Diagnosis) (s : Severity)
    → severity_count (d ∷ ds) s
      ≡ bit (is_anomaly d && has_severity s d.severity) + severity_count ds s
unfolding severity_count
severity_count-cons d ds s = length-filter (λ x. is_anomaly x && has_severity s x.severity) d ds

severity_count-sum :
    (ds : List Diagnosis)
    → severity_count ds Severity.high
        + severity_count ds Severity.medium
        + severity_count ds Severity.low
        + severity_count ds Severity.info
      ≡ anomaly_count ds
unfolding severity_count anomaly_count
severity_count-sum [] = refl
severity_count-sum (d ∷ ds) = omega (
  arith,
  severity_count-sum ds,
  severity_count-cons d ds Severity.high,
  severity_count-cons d ds Severity.medium,
  severity_count-cons d ds Severity.low,
  severity_count-cons d ds Severity.info,
  length-filter is_anomaly d ds,
  one_severity (is_anomaly d) d.severity,
)

-- A text that holds one number, behind which no digit may stand.
abbrev HoldsNumber : Text → ℕ → Type 0
HoldsNumber p n =
    (c : ℕ) (rest : Text)
    → is_digit c ≡ false
    → numbers_from none (p ++ (c ∷ rest)) ≡ n ∷ numbers_from none rest

part-HoldsNumber :
    (s : Severity) (n : ℕ) → HoldsNumber (concat (show_severity s ∷ text ": " ∷ decimal n ∷ [])) n
unfolding concat text numbers_from
part-HoldsNumber Severity.info n c rest h =
    rw (append-nil (decimal n)) (numbers_from-decimal n c rest h)
part-HoldsNumber Severity.low n c rest h =
    rw (append-nil (decimal n)) (numbers_from-decimal n c rest h)
part-HoldsNumber Severity.medium n c rest h =
    rw (append-nil (decimal n)) (numbers_from-decimal n c rest h)
part-HoldsNumber Severity.high n c rest h =
    rw (append-nil (decimal n)) (numbers_from-decimal n c rest h)

abbrev HoldNumbers : List Text → List ℕ → Type 0
HoldNumbers [] [] = Unit
HoldNumbers (p ∷ ps) (n ∷ ns) = HoldsNumber p n × HoldNumbers ps ns
HoldNumbers _ _ = ⊥

severity_parts-HoldNumbers :
    (ds : List Diagnosis) (ss : List Severity)
    → HoldNumbers (filter_map (severity_part ds) ss) (filter (ltb 0) (map (severity_count ds) ss))
unfolding severity_part
severity_parts-HoldNumbers ds [] = tt
severity_parts-HoldNumbers ds (s ∷ ss) = elim (Bool-cases (ltb 0 (severity_count ds s))) [
  | inl e ↦ rw e (part-HoldsNumber s (severity_count ds s), severity_parts-HoldNumbers ds ss)
  | inr e ↦ rw e (severity_parts-HoldNumbers ds ss)
]

join-HoldNumbers :
    (ps : List Text) (ns : List ℕ) (rest : Text)
    → HoldNumbers ps ns
    → numbers_from none (join (text ", ") ps ++ (b')' ∷ rest)) ≡ ns ++ numbers_from none rest
unfolding join text numbers_from
join-HoldNumbers [] [] rest h = refl
join-HoldNumbers [] (n ∷ ns) rest h = elim h [ ]
join-HoldNumbers (p ∷ ps) [] rest h = elim h [ ]
join-HoldNumbers (p ∷ []) (n ∷ m ∷ ns) rest h = elim h.1 [ ]
join-HoldNumbers (p ∷ q ∷ ps) (n ∷ []) rest h = elim h.1 [ ]
join-HoldNumbers (p ∷ []) (n ∷ []) rest (h, hs) = h b')' rest refl
join-HoldNumbers (p ∷ q ∷ ps) (n ∷ m ∷ ns) rest (h, hs) =
    ap (numbers_from none) (append_assoc p _ (b')' ∷ rest))
    ∙ (h b',' _ refl ∙ ap (λ ms. n ∷ ms) (join-HoldNumbers (q ∷ ps) (m ∷ ns) rest hs))

is_empty-append : (s : Text) (c : ℕ) (t : Text) → is_empty (s ++ (c ∷ t)) ≡ false
is_empty-append [] c t = refl
is_empty-append (d ∷ s) c t = refl

anomaly_line-empty :
    (style : Style) (ds : List Diagnosis)
    → is_empty (anomaly_line style ds) ≡ (anomaly_count ds == 0)
unfolding anomaly_line
anomaly_line-empty style ds = elim (Bool-cases (ltb 0 (anomaly_count ds))) [
  | inl e ↦
      let none_is : (anomaly_count ds == 0) ≡ false = ground (arith, e) in
      rw (e, none_is) (is_empty-append _ 10 [])
  | inr e ↦ let none_is : (anomaly_count ds == 0) ≡ true = ground (arith, e) in rw (e, none_is) refl
]

-- What the line says: the total, and the counts that are not 0.
abbrev pub shown_counts : List Diagnosis → List ℕ
shown_counts ds = filter (ltb 0) (
    severity_count ds Severity.high
    ∷ severity_count ds Severity.medium
    ∷ severity_count ds Severity.low
    ∷ severity_count ds Severity.info
    ∷ [])

token-numbers :
    (ds : List Diagnosis)
    → numbers_from none (anomaly_token ds ++ newline) ≡ anomaly_count ds ∷ shown_counts ds
unfolding anomaly_token concat text numbers_from
token-numbers ds =
    let parts = join (text ", ") (filter_map (severity_part ds) severities) in
    ap (numbers_from none) (append_assoc (decimal (anomaly_count ds)) _ newline)
    ∙ (numbers_from-decimal (anomaly_count ds) 32 _ refl
        ∙ ap (λ ns. anomaly_count ds ∷ ns)
            (ap (numbers_from none) (append_assoc parts (b')' ∷ []) newline)
              ∙ (join-HoldNumbers (filter_map (severity_part ds) severities) (shown_counts ds)
                    newline (severity_parts-HoldNumbers ds severities)
                  ∙ append-nil (shown_counts ds))))

anomaly_line-numbers :
    (ds : List Diagnosis)
    → numbers (anomaly_line plain ds)
      ≡ (if anomaly_count ds == 0 then [] else anomaly_count ds ∷ shown_counts ds)
unfolding anomaly_line numbers numbers_from paint
anomaly_line-numbers ds = elim (Bool-cases (ltb 0 (anomaly_count ds))) [
  | inr e ↦ let none_is : (anomaly_count ds == 0) ≡ true = ground (arith, e) in rw (e, none_is) refl
  | inl e ↦
      let some_is : (anomaly_count ds == 0) ≡ false = ground (arith, e) in
      elim (Bool-cases (any is_high ds)) [
        | inl k ↦ rw (e, some_is, k) (token-numbers ds)
        | inr k ↦ rw (e, some_is, k) (token-numbers ds)
      ]
]

-- The numbers in the plain last line are the number of verdicts that are not of the healthy category
-- and, of those, how many there are of each severity from high to informational, without the zeros;
-- these counts add up to the first number. Without such a verdict the line is left out.
pub anomaly_line-total :
    (ds : List Diagnosis)
    → (numbers (anomaly_line plain ds)
        ≡ (if anomaly_count ds == 0 then [] else anomaly_count ds ∷ shown_counts ds))
      × (severity_count ds Severity.high
            + severity_count ds Severity.medium
            + severity_count ds Severity.low
            + severity_count ds Severity.info
          ≡ anomaly_count ds)
      × (is_empty (anomaly_line plain ds) ≡ (anomaly_count ds == 0))
anomaly_line-total ds =
    (anomaly_line-numbers ds, severity_count-sum ds, anomaly_line-empty plain ds)
