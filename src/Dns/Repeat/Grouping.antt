-- ===== src/Dns/Repeat/Grouping.antt =====
-- src/dns.rs, `resolve_repeat`: each resolver's row aggregates that resolver's answers.
use mathlib.Core.List.{Perm, append_assoc, append-nil}
use ip_tools.Base.{
  ℕ, Option, none, some, keys, ◌≡◌, refl, sym, ◌∙◌, List, [], ◌∷◌, ◌++◌, map, length, filter,
  filter-append, Bool, true, false, inl, inr, Bool-cases, arith, ◌==◌, eq_of_beq, beq_refl,
  if◌then◌else◌, Float, sort_by-perm, All,
}
use ip_tools.Model.{ResolverKind, resolver_eq, DnsRecordType, DnsObservation, FailureKind}
use ip_tools.Dns.Repeat.{
  put_bucket, put_round, put_rounds, aggregate_repeat, resolve_repeat, label_lt,
}

abbrev pub by_resolver : ResolverKind → DnsObservation → Bool
by_resolver r o = o.resolver == r

abbrev pub concat : List (List DnsObservation) → List DnsObservation
concat [] = []
concat (obs ∷ rounds) = obs ++ concat rounds

abbrev pub Bucket : Type 0
Bucket = ResolverKind × List DnsObservation

-- The bucket of a resolver, if the table has one.
unfoldable pub bucket_of : ResolverKind → List Bucket → Option (List DnsObservation)
bucket_of r [] = none
bucket_of r ((j, bucket) ∷ rest) =
    let later = bucket_of r rest in if j == r then some bucket else later

abbrev pub if_any : List DnsObservation → Option (List DnsObservation)
if_any [] = none
if_any (o ∷ obs) = some (o ∷ obs)

abbrev or_empty : Option (List DnsObservation) → List DnsObservation
or_empty none = []
or_empty (some obs) = obs

abbrev pub Distinct : List ResolverKind → Type 0
Distinct [] = Unit
Distinct (r ∷ rs) = All (λ j. (r == j) ≡ false) rs × Distinct rs

clash : (a b c : ResolverKind) → (a == b) ≡ false → (a == c) ≡ true → (b == c) ≡ true → ⊥
clash a b c h g k = ground (arith, h, beq_refl c, eq_of_beq a c g, eq_of_beq b c k)

bucket_of-put_bucket :
    (r : ResolverKind) (o : DnsObservation) (table : List Bucket)
    → bucket_of r (put_bucket o table) ≡ (
        if by_resolver r o
        then some (or_empty (bucket_of r table) ++ (o ∷ []))
        else bucket_of r table)
unfolding bucket_of put_bucket
bucket_of-put_bucket r o [] = refl
bucket_of-put_bucket r o ((j, bucket) ∷ rest) = elim (Bool-cases (j == o.resolver)) [
  | inl h ↦
      rw (h, eq_of_beq j o.resolver h)
        (elim (Bool-cases (by_resolver r o)) [ inl g ↦ rw g refl | inr g ↦ rw g refl ])
  | inr h ↦ elim (Bool-cases (j == r)) [
    | inl g ↦ elim (Bool-cases (by_resolver r o)) [
      | inl k ↦ absurd (clash j o.resolver r h g k)
      | inr k ↦ rw (h, g, k) refl
    ]
    | inr g ↦ rw (h, g, bucket_of-put_bucket r o rest) refl
  ]
]

-- A key that differs from all of the table's and from the new one's differs from all after it.
All-put_bucket :
    (r : ResolverKind) (o : DnsObservation) (table : List Bucket)
    → (r == o.resolver) ≡ false
    → All (λ j. (r == j) ≡ false) (keys table)
    → All (λ j. (r == j) ≡ false) (keys (put_bucket o table))
unfolding put_bucket
All-put_bucket r o [] h k = (h, tt)
All-put_bucket r o ((j, bucket) ∷ rest) h (k, ks) = elim (Bool-cases (j == o.resolver)) [
  | inl e ↦ rw e (k, ks)
  | inr e ↦ rw e (k, All-put_bucket r o rest h ks)
]

put_bucket-Distinct :
    (o : DnsObservation) (table : List Bucket)
    → Distinct (keys table)
    → Distinct (keys (put_bucket o table))
unfolding put_bucket
put_bucket-Distinct o [] d = (tt, tt)
put_bucket-Distinct o ((j, bucket) ∷ rest) (k, ks) = elim (Bool-cases (j == o.resolver)) [
  | inl e ↦ rw e (k, ks)
  | inr e ↦ rw e (All-put_bucket j o rest e k, put_bucket-Distinct o rest ks)
]

append_snoc :
    (xs : List DnsObservation) (o : DnsObservation)
    → if_any (xs ++ (o ∷ [])) ≡ some (xs ++ (o ∷ []))
append_snoc [] o = refl
append_snoc (x ∷ xs) o = refl

or_empty-if_any : (xs : List DnsObservation) → or_empty (if_any xs) ≡ xs
or_empty-if_any [] = refl
or_empty-if_any (x ∷ xs) = refl

-- One more answer among `seen`.
if_any-filter :
    (r : ResolverKind) (o : DnsObservation) (seen : List DnsObservation)
    → if_any (filter (by_resolver r) (seen ++ (o ∷ []))) ≡ (
        if by_resolver r o
        then some (filter (by_resolver r) seen ++ (o ∷ []))
        else if_any (filter (by_resolver r) seen))
if_any-filter r o seen = elim (Bool-cases (by_resolver r o)) [
  | inl h ↦ rw (filter-append (by_resolver r) seen (o ∷ []), h) (append_snoc _ o)
  | inr h ↦
      rw (filter-append (by_resolver r) seen (o ∷ []), h, append-nil (filter (by_resolver r) seen))
        refl
]

Grouped : List DnsObservation → List Bucket → Type 0
Grouped seen table =
    Distinct (keys table)
    × ((r : ResolverKind) → bucket_of r table ≡ if_any (filter (by_resolver r) seen))

put_bucket-Grouped :
    (o : DnsObservation) (seen : List DnsObservation) (table : List Bucket)
    → Grouped seen table
    → Grouped (seen ++ (o ∷ [])) (put_bucket o table)
unfolding Grouped
put_bucket-Grouped o seen table (d, h) = (
  put_bucket-Distinct o table d,
  λ r.
      bucket_of-put_bucket r o table
      ∙ rw (h r, or_empty-if_any (filter (by_resolver r) seen)) (sym (if_any-filter r o seen)),
)

put_round-Grouped :
    (obs seen : List DnsObservation) (table : List Bucket)
    → Grouped seen table
    → Grouped (seen ++ obs) (put_round obs table)
unfolding put_round
put_round-Grouped [] seen table g = rw (append-nil seen) g
put_round-Grouped (o ∷ obs) seen table g = rw (sym (append_assoc seen (o ∷ []) obs)) (
    put_round-Grouped obs (seen ++ (o ∷ [])) (put_bucket o table)
      (put_bucket-Grouped o seen table g))

put_rounds-Grouped :
    (rounds : List (List DnsObservation)) (seen : List DnsObservation) (table : List Bucket)
    → Grouped seen table
    → Grouped (seen ++ concat rounds) (put_rounds rounds table)
unfolding put_rounds
put_rounds-Grouped [] seen table g = rw (append-nil seen) g
put_rounds-Grouped (obs ∷ rounds) seen table g = rw (sym (append_assoc seen obs (concat rounds))) (
    put_rounds-Grouped rounds (seen ++ obs) (put_round obs table)
      (put_round-Grouped obs seen table g))

-- The rows of a repeated query, before they are sorted by their resolvers' labels: no resolver has
-- two, a resolver has one exactly if it answered some attempt, and its row aggregates all of its
-- answers, in the order in which they came, and those of no other resolver.
pub resolve_repeat-rows :
    (fl : Float) (kinds_of : List (FailureKind × ℕ) → List (FailureKind × ℕ))
    (rounds : List (List DnsObservation)) (record_type : DnsRecordType)
    → (table : List Bucket) × Perm
        (resolve_repeat fl kinds_of rounds record_type)
        (map (λ b. aggregate_repeat fl kinds_of b.1 record_type (length rounds)) table)
      × Distinct (keys table)
      × ((r : ResolverKind) → bucket_of r table ≡ if_any (filter (by_resolver r) (concat rounds)))
unfolding resolve_repeat Grouped bucket_of
resolve_repeat-rows fl kinds_of rounds record_type =
    let table = put_rounds rounds [] in
    let rows = map (λ b. aggregate_repeat fl kinds_of b.1 record_type (length rounds)) table in
    let (distinct, buckets) = put_rounds-Grouped rounds [] [] (tt, λ r. refl) in
    (table, sort_by-perm (label_lt fl kinds_of) rows, distinct, buckets)
