-- ===== src/Diagnostics/Resolution/Verdicts.antt =====
-- When the DNS rule speaks, in terms of the observations themselves.
use ip_tools.Base.{
  ◌≡◌, refl, sym, ◌∙◌, ◌⊎◌, inl, inr, Bool, false, not, ◌&&◌, ◌||◌, Bool-cases, List, [], ◌∷◌, ◌++◌,
  append-nil, append_assoc, is_some, any, filter, is_empty, length, values, All, ltb, arith,
  if◌then◌else◌, beq_refl, contains, list_cases, set_extend, filter_map,
}
use ip_tools.Net.{IpAddr, ip_lt}
use ip_tools.Model.{DnsObservation, ResolverKind, resolver_eq, address}
use ip_tools.Diagnostics.Input.{DiagnosticInput}
use ip_tools.Diagnostics.Resolution.AddressSets.{address_sets, distinct_sets-tally}
use ip_tools.Diagnostics.Resolution.{
  is_forward, Tally, no_tally, extend_resolver, tally_one, tally, distinct_sets, resolution_failed,
  resolvers_disagree, dns_rules,
}

-- A forward lookup (A or AAAA) with an error, and one without.
abbrev pub lookup_failed : DnsObservation → Bool
lookup_failed o = is_forward o.record_type && is_some o.error

abbrev pub lookup_answered : DnsObservation → Bool
lookup_answered o = is_forward o.record_type && not (is_some o.error)

tally-any_failure :
    (t : Tally) (os : List DnsObservation)
    → (tally t os).any_failure ≡ (t.any_failure || any lookup_failed os)
unfolding tally
tally-any_failure t [] = ground arith
tally-any_failure t (o ∷ os) = ground (arith, tally-any_failure (tally_one t o) os)

tally-any_success :
    (t : Tally) (os : List DnsObservation)
    → (tally t os).any_success ≡ (t.any_success || any lookup_answered os)
unfolding tally
tally-any_success t [] = ground arith
tally-any_success t (o ∷ os) = ground (arith, tally-any_success (tally_one t o) os)

one_failed :
    (t : Tally) (o : DnsObservation) (later : List DnsObservation)
    → (tally_one t o).failed ++ later ≡ t.failed ++ (if lookup_failed o then o ∷ later else later)
unfolding tally_one
one_failed t o later = elim (Bool-cases (is_forward o.record_type)) [
  | inr e ↦ rw e refl
  | inl e ↦ elim (Bool-cases (is_some o.error)) [
    | inr k ↦ rw (e, k) refl
    | inl k ↦ rw (e, k) (append_assoc t.failed (o ∷ []) later)
  ]
]

tally-failed :
    (t : Tally) (os : List DnsObservation)
    → (tally t os).failed ≡ t.failed ++ filter lookup_failed os
unfolding tally
tally-failed t [] = sym (append-nil t.failed)
tally-failed t (o ∷ os) = tally-failed (tally_one t o) os ∙ one_failed t o (filter lookup_failed os)

not_empty : {A : Type 0} (xs : List A) (y : A) (ys : List A) → xs ≡ y ∷ ys → is_empty xs ≡ false
not_empty xs y ys e = rw e refl

module _ {F : Type 0} (input : DiagnosticInput F) where
  -- The DNS rule gives the failure verdict, over the failed lookups in their order, where some
  -- lookup of A or AAAA failed and none was answered; else the disagreement verdict where the
  -- resolvers that gave records gave more than one set of addresses between them, with the number of
  -- the different sets; else none. It flags a disagreement in that case alone. Lookups of other types
  -- play no part.
  pub dns_rules_exact : dns_rules input ≡ (
    (if any lookup_failed input.dns && not (any lookup_answered input.dns)
        then resolution_failed input.hostname (filter lookup_failed input.dns) ∷ []
        else if ltb 1 (length (address_sets input.dns))
        then resolvers_disagree input.hostname (length (address_sets input.dns)) ∷ []
        else []),
    ltb 1 (length (address_sets input.dns)),
  )
  unfolding dns_rules tally distinct_sets
  dns_rules_exact = elim (list_cases input.dns) [
    | inl e ↦ rw e refl
    | inr (o, os, e) ↦
        rw
          (
            not_empty input.dns o os e,
            tally-any_failure no_tally input.dns,
            tally-any_success no_tally input.dns,
            tally-failed no_tally input.dns,
            distinct_sets-tally input.dns,
          )
          refl
  ]

-- The sets gathered from observations of one resolver.
abbrev OneAtMost : ResolverKind → List (ResolverKind × List IpAddr) → Type 0
OneAtMost r m = (m ≡ []) ⊎ ((set : List IpAddr) × (m ≡ (r, set) ∷ []))

extend_resolver-OneAtMost :
    (r : ResolverKind) (ips : List IpAddr) (m : List (ResolverKind × List IpAddr))
    → OneAtMost r m
    → OneAtMost r (extend_resolver r ips m)
unfolding extend_resolver
extend_resolver-OneAtMost r ips m (inl e) = rw e (inr (set_extend ip_lt ips [], refl))
extend_resolver-OneAtMost r ips m (inr (set, e)) =
    rw e (rw (beq_refl r) (inr (set_extend ip_lt ips set, refl)))

tally_one-OneAtMost :
    (r : ResolverKind) (t : Tally) (o : DnsObservation)
    → o.resolver ≡ r
    → OneAtMost r t.per_resolver
    → OneAtMost r (tally_one t o).per_resolver
unfolding tally_one
tally_one-OneAtMost r t o same h = elim (Bool-cases (is_forward o.record_type)) [
  | inr e ↦ rw e h
  | inl e ↦ elim (Bool-cases (is_some o.error)) [
    | inl k ↦ rw (e, k) h
    | inr k ↦ elim (Bool-cases (is_empty o.records)) [
      | inl l ↦ rw (e, k, l) h
      | inr l ↦
          rw (e, k, l, same)
            (extend_resolver-OneAtMost r (filter_map address o.records) t.per_resolver h)
    ]
  ]
]

tally-OneAtMost :
    (r : ResolverKind) (t : Tally) (os : List DnsObservation)
    → All (λ o. o.resolver ≡ r) os
    → OneAtMost r t.per_resolver
    → OneAtMost r (tally t os).per_resolver
unfolding tally
tally-OneAtMost r t [] h k = k
tally-OneAtMost r t (o ∷ os) (h, hs) k =
    tally-OneAtMost r (tally_one t o) os hs (tally_one-OneAtMost r t o h k)

one_set :
    (r : ResolverKind) (m : List (ResolverKind × List IpAddr))
    → OneAtMost r m
    → ltb 1 (length (distinct_sets [] (values m))) ≡ false
unfolding distinct_sets contains
one_set r m (inl e) = rw e refl
one_set r m (inr (set, e)) = rw e refl

-- Observations of one resolver alone, whatever it answered to A and AAAA, are never read as a
-- disagreement.
pub one_resolver_agrees :
    {F : Type 0} (input : DiagnosticInput F) (r : ResolverKind)
    → All (λ o. o.resolver ≡ r) input.dns
    → (dns_rules input).1 ≡ false
unfolding dns_rules
one_resolver_agrees input r h = elim (list_cases input.dns) [
  | inl e ↦ rw e refl
  | inr (o, os, e) ↦ rw (not_empty input.dns o os e) (
      one_set r (tally no_tally input.dns).per_resolver
        (tally-OneAtMost r no_tally input.dns h (inl refl)))
]
