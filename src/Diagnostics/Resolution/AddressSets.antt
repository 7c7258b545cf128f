-- ===== src/Diagnostics/Resolution/AddressSets.antt =====
-- The address sets that src/diagnostics/dns.rs compares, from the lookups themselves: what each
-- resolver answered in all, and the different ones among these sets.
use ip_tools.Base.{
  ◌≡◌, refl, sym, ap, ◌∙◌, Bool, true, false, not, ◌&&◌, Bool-cases, inl, inr, List, [], ◌∷◌, ◌++◌,
  append-nil, append_assoc, map, filter, filter_map, contains, contains-append, Distinct, PartialEq,
  ◌==◌, beq_refl, eq_of_beq, is_some, is_empty, set_extend, if◌then◌else◌, values, arith,
}
use ip_tools.Net.{IpAddr, ip_lt, ip_eq}
use ip_tools.Model.{DnsObservation, ResolverKind, resolver_eq, address}
use ip_tools.Diagnostics.Resolution.{
  is_forward, Tally, no_tally, extend_resolver, tally_one, tally, distinct_sets, ip_set_eq,
}

module _ {ℓ} {A : Type ℓ} ⦃e : PartialEq A⦄ where
  -- The elements of a list without repetition, in the order in which they first stand.
  abbrev pub firsts : List A → List A
  firsts [] = []
  firsts (x ∷ xs) = x ∷ filter (λ y. not (x == y)) (firsts xs)

  abbrev append_one : List A → A → List A
  append_one acc x = if contains acc x then acc else acc ++ (x ∷ [])

  append_new : List A → List A → List A
  append_new acc [] = acc
  append_new acc (x ∷ xs) = append_new (append_one acc x) xs

  filter-filter :
      (p q r : A → Bool)
      → ((y : A) → r y ≡ (q y && p y))
      → (xs : List A) → filter p (filter q xs) ≡ filter r xs
  filter-filter p q r h [] = refl
  filter-filter p q r h (x ∷ xs) = ground (arith, h x, filter-filter p q r h xs)

  abbrev absent : List A → A → Bool
  absent acc y = not (contains acc y)

  absent-known :
      (acc : List A) (x : A)
      → contains acc x ≡ true
      → (y : A) → absent acc y ≡ (not (x == y) && absent acc y)
  absent-known acc x h y = elim (Bool-cases (x == y)) [
    | inl k ↦ rw (k, ← (eq_of_beq x y k)) (ground (arith, h))
    | inr k ↦ rw k refl
  ]

  absent-append :
      (acc : List A) (x y : A) → absent (acc ++ (x ∷ [])) y ≡ (not (x == y) && absent acc y)
  unfolding contains
  absent-append acc x y = ground (arith, contains-append acc (x ∷ []) y)

  append_new-firsts : (acc xs : List A) → append_new acc xs ≡ acc ++ filter (absent acc) (firsts xs)
  unfolding append_new
  append_new-firsts acc [] = sym (append-nil acc)
  append_new-firsts acc (x ∷ xs) = elim (Bool-cases (contains acc x)) [
    | inl h ↦ rw h (
        append_new-firsts acc xs
        ∙ ap (λ ys. acc ++ ys)
            (sym (
              filter-filter (absent acc) (λ y. not (x == y)) (absent acc) (absent-known acc x h)
                (firsts xs))))
    | inr h ↦ rw h (
        append_new-firsts (acc ++ (x ∷ [])) xs
        ∙ (append_assoc acc (x ∷ []) _
            ∙ ap (λ ys. acc ++ (x ∷ ys))
                (sym (
                  filter-filter (absent acc) (λ y. not (x == y)) (absent (acc ++ (x ∷ [])))
                    (absent-append acc x) (firsts xs)))))
  ]

  filter-all : (xs : List A) → filter (absent []) xs ≡ xs
  unfolding contains
  filter-all [] = refl
  filter-all (x ∷ xs) = ap (λ ys. x ∷ ys) (filter-all xs)

  Distinct-append :
      (acc : List A) (x : A) → contains acc x ≡ false → Distinct acc → Distinct (acc ++ (x ∷ []))
  unfolding contains
  Distinct-append [] x h d = (refl, tt)
  Distinct-append (y ∷ acc) x h (d, ds) = (
    elim (Bool-cases (x == y)) [
      | inl k ↦ absurd (ground (arith, h, eq_of_beq x y k, beq_refl y))
      | inr k ↦ ground (arith, d, k, contains-append acc (x ∷ []) y)
    ],
    Distinct-append acc x (ground (arith, h)) ds,
  )

  Distinct-append_one : (acc : List A) (x : A) → Distinct acc → Distinct (append_one acc x)
  Distinct-append_one acc x d = elim (Bool-cases (contains acc x)) [
    | inl h ↦ rw h d
    | inr h ↦ rw h (Distinct-append acc x h d)
  ]

  contains-append_one :
      (acc : List A) (x y : A)
      → contains (append_one acc x) y ≡ false
      → (contains acc y ≡ false) × ((y == x) ≡ false)
  unfolding contains
  contains-append_one acc x y h = elim (Bool-cases (y == x)) [
    | inl k ↦ elim (Bool-cases (contains acc x)) [
      | inl l ↦ absurd (ground (arith, h, l, eq_of_beq y x k))
      | inr l ↦
          absurd (ground (arith, h, l, eq_of_beq y x k, beq_refl y, contains-append acc (x ∷ []) y))
    ]
    | inr k ↦ elim (Bool-cases (contains acc x)) [
      | inl l ↦ (ground (arith, h, l), k)
      | inr l ↦ (ground (arith, h, l, contains-append acc (x ∷ []) y), k)
    ]
  ]

distinct_sets-append_new : (acc xs : List (List IpAddr)) → distinct_sets acc xs ≡ append_new acc xs
unfolding distinct_sets append_new
distinct_sets-append_new acc [] = refl
distinct_sets-append_new acc (x ∷ xs) = distinct_sets-append_new (append_one acc x) xs

-- A lookup of type A or AAAA that gave records.
abbrev pub is_heard : DnsObservation → Bool
is_heard o = is_forward o.record_type && not (is_some o.error) && not (is_empty o.records)

-- What a resolver answered in all.
abbrev pub addresses_from : List DnsObservation → ResolverKind → List IpAddr
addresses_from [] r = []
addresses_from (o ∷ os) r =
    (if is_heard o && r == o.resolver then filter_map address o.records else [])
    ++ addresses_from os r

-- The resolvers that gave records, and the different sets among what they gave.
abbrev pub heard_resolvers : List DnsObservation → List ResolverKind
heard_resolvers os = firsts (map (λ (o : DnsObservation). o.resolver) (filter is_heard os))

abbrev pub address_sets : List DnsObservation → List (List IpAddr)
address_sets os = firsts (map (λ r. set_extend ip_lt (addresses_from os r) []) (heard_resolvers os))

set_extend-append :
    (xs ys set : List IpAddr)
    → set_extend ip_lt (xs ++ ys) set ≡ set_extend ip_lt ys (set_extend ip_lt xs set)
unfolding set_extend
set_extend-append [] ys set = refl
set_extend-append (x ∷ xs) ys set = set_extend-append xs ys _

abbrev Sets : Type 0
Sets = ResolverKind → List IpAddr

abbrev table : Sets → List ResolverKind → List (ResolverKind × List IpAddr)
table sets rs = map (λ r. (r, sets r)) rs

abbrev extended : ResolverKind → List IpAddr → Sets → Sets
extended s ips sets r = if r == s then set_extend ip_lt ips (sets r) else sets r

table-unchanged :
    (s : ResolverKind) (ips : List IpAddr) (sets : Sets) (rs : List ResolverKind)
    → contains rs s ≡ false
    → table sets rs ≡ table (extended s ips sets) rs
unfolding contains
table-unchanged s ips sets [] h = refl
table-unchanged s ips sets (r ∷ rs) h =
    let other : (r == s) ≡ false = ground (arith, h) in
    rw other (ap (λ m. (r, sets r) ∷ m) (table-unchanged s ips sets rs (ground (arith, h))))

extend_resolver-table :
    (s : ResolverKind) (ips : List IpAddr) (sets : Sets) (rs : List ResolverKind)
    → Distinct rs
    → (contains rs s ≡ false → sets s ≡ [])
    → extend_resolver s ips (table sets rs) ≡ table (extended s ips sets) (append_one rs s)
unfolding extend_resolver contains
extend_resolver-table s ips sets [] d h = rw (beq_refl s, h refl) refl
extend_resolver-table s ips sets (r ∷ rs) (d, ds) h = elim (Bool-cases (r == s)) [
  | inl k ↦
      rw (k, k)
        (ap (λ m. (r, set_extend ip_lt ips (sets r)) ∷ m)
          (table-unchanged s ips sets rs (rw (eq_of_beq r s k) at d)))
  | inr k ↦
      let later = extend_resolver-table s ips sets rs ds (λ e. h (ground (arith, e, k))) in
      elim (Bool-cases (contains rs s)) [
        | inl l ↦ rw (k, l, k) (ap (λ m. (r, sets r) ∷ m) (rw l at later))
        | inr l ↦ rw (k, l, k) (ap (λ m. (r, sets r) ∷ m) (rw l at later))
      ]
]

tally_one-heard :
    (t : Tally) (o : DnsObservation)
    → (tally_one t o).per_resolver ≡ (
        if is_heard o
        then extend_resolver o.resolver (filter_map address o.records) t.per_resolver
        else t.per_resolver)
unfolding tally_one
tally_one-heard t o = ground arith

table-cong :
    (f g : Sets) (rs : List ResolverKind)
    → ((r : ResolverKind) → f r ≡ g r)
    → table f rs ≡ table g rs
table-cong f g [] h = refl
table-cong f g (r ∷ rs) h =
    ap (λ ips. (r, ips) ∷ table f rs) (h r) ∙ ap (λ m. (r, g r) ∷ m) (table-cong f g rs h)

extended-more :
    (os : List DnsObservation) (ips : List IpAddr) (sets : Sets) (s r : ResolverKind)
    → set_extend ip_lt (addresses_from os r) (extended s ips sets r)
      ≡ set_extend ip_lt ((if r == s then ips else []) ++ addresses_from os r) (sets r)
extended-more os ips sets s r = elim (Bool-cases (r == s)) [
  | inl k ↦ rw k (sym (set_extend-append ips (addresses_from os r) (sets r)))
  | inr k ↦ rw k refl
]

-- Where each set is that of its resolver so far, the lookups that follow extend it by what they gave.
tally-table :
    (t : Tally) (os : List DnsObservation) (rs : List ResolverKind) (sets : Sets)
    → t.per_resolver ≡ table sets rs
    → Distinct rs
    → ((r : ResolverKind) → contains rs r ≡ false → sets r ≡ [])
    → (tally t os).per_resolver
      ≡ table
          (λ r. set_extend ip_lt (addresses_from os r) (sets r))
          (append_new rs (map (λ (o : DnsObservation). o.resolver) (filter is_heard os)))
unfolding tally append_new set_extend
tally-table t [] rs sets e d h = e
tally-table t (o ∷ os) rs sets e d h = elim (Bool-cases (is_heard o)) [
  | inr k ↦ rw k (tally-table (tally_one t o) os rs sets (tally_one-heard t o ∙ rw k e) d h)
  | inl k ↦
      let ips = filter_map address o.records in
      let step = extend_resolver-table o.resolver ips sets rs d (h o.resolver) in
      rw k (
        tally-table (tally_one t o) os (append_one rs o.resolver) (extended o.resolver ips sets)
          (tally_one-heard t o ∙ rw (k, e) step) (Distinct-append_one rs o.resolver d)
          (λ r l. let both = contains-append_one rs o.resolver r l in rw (both.1) (h r both.0))
        ∙ table-cong _ _ _ (extended-more os ips sets o.resolver))
]

values-table : (sets : Sets) (rs : List ResolverKind) → values (table sets rs) ≡ map sets rs
values-table sets [] = refl
values-table sets (r ∷ rs) = ap (λ m. sets r ∷ m) (values-table sets rs)

-- The sets that the rule compares are the different ones among what the resolvers gave.
pub distinct_sets-tally :
    (os : List DnsObservation)
    → distinct_sets [] (values (tally no_tally os).per_resolver) ≡ address_sets os
unfolding contains
distinct_sets-tally os =
    let resolvers = map (λ (o : DnsObservation). o.resolver) (filter is_heard os) in
    let sets = λ (r : ResolverKind). set_extend ip_lt (addresses_from os r) [] in
    let known : append_new [] resolvers ≡ firsts resolvers =
      append_new-firsts [] resolvers ∙ filter-all (firsts resolvers) in
    ap (λ m. distinct_sets [] (values m))
      (tally-table no_tally os [] (λ r. []) refl tt (λ r h. refl))
    ∙ (ap (distinct_sets []) (values-table sets (append_new [] resolvers))
        ∙ (ap (λ rs. distinct_sets [] (map sets rs)) known
            ∙ (distinct_sets-append_new [] (map sets (firsts resolvers))
                ∙ (append_new-firsts [] (map sets (firsts resolvers))
                    ∙ filter-all (firsts (map sets (firsts resolvers)))))))
