-- ===== src/Cli/Sweep/Exit/Sequential.antt =====
-- src/cli/mod.rs, `run_probe_flow`: the exit code is that of a loop over the targets in which each
-- destination is probed in turn.
use mathlib.Core.List.{Perm, foldr}
use mathlib.Core.List.Perm
use mathlib.Core.Bool.{Bool-set}
use ip_tools.Base.{
  ℕ, ◌≡◌, refl, sym, ◌∙◌, ap, Bool, true, false, ◌&&◌, not, all, any, filter, if◌then◌else◌, ltb,
  Bool-cases, inl, inr, Option, none, some, List, [], ◌∷◌, map, length, is_empty, leb, done, fail,
  nat_eq, ◌==◌, ◌||◌, Text, Result, arith,
}
use ip_tools.Net.{IpAddr, SocketAddr}
use ip_tools.Target.{Target}
use ip_tools.Cli.Sweep.{
  Scope, Pooled, Item, unresolved, per_target, swept, to_probe, pool_at, range, entry_at,
}
use ip_tools.Cli.Sweep.Reported.{
  Reported, no_target, no_address, probed, swept-Reported, sort_by_idx-order,
}
use ip_tools.Cli.Sweep.Exit.{
  Flags, success, failure, usage, delivered, many_targets, dest_count, body_refused, flow_exit,
  run_exit, is_violated, violated, failed_count, exit_code,
}

module _ {O : Type 0} (ok : O → Bool) where
  all-foldr : (os : List O) → all ok os ≡ foldr (λ o b. ok o && b) true os
  all-foldr [] = refl
  all-foldr (o ∷ os) = ap (λ b. ok o && b) (all-foldr os)

  all-Perm : {xs ys : List O} → Perm xs ys → all ok xs ≡ all ok ys
  all-Perm {xs} {ys} p =
      all-foldr xs
      ∙ Perm.foldr-eq Bool-set (λ o b. ok o && b) (λ a b x. ground arith) p true
      ∙ sym (all-foldr ys)

module _ {O : Type 0} (expect : Option (O → Option Text)) (strict : Bool) (failed : O → Bool) where
  -- An observation that meets the expectations, and has not failed where that counts.
  abbrev pub is_good : O → Bool
  is_good o = not (is_violated expect o) && not (strict && failed o)

  all-is_good :
      (os : List O)
      → all is_good os
        ≡ (not (any (is_violated expect) os) && not (strict && ltb 0 (length (filter failed os))))
  all-is_good [] = ground arith
  all-is_good (o ∷ os) = ground (arith, all-is_good os)

  all_rows :
      (rows : List (Text × List O))
      → all (λ row. all is_good row.1) rows
        ≡ (not (violated expect rows) && not (strict && ltb 0 (failed_count failed rows)))
  unfolding failed_count
  all_rows [] = ground arith
  all_rows (row ∷ rows) = ground (arith, all-is_good row.1, all_rows rows)

  module _ (probe : ℕ → Text → SocketAddr → O) (pool_of : ℕ → Pooled) where
    -- A target that has addresses, each of which gives a good observation.
    abbrev pub pool_is_good : ℕ → Pooled → Bool
    pool_is_good idx none = false
    pool_is_good idx (some (host, dests)) = all is_good (map (probe idx host) dests)

    abbrev pub target_is_good : ℕ → Bool
    target_is_good idx = pool_is_good idx (pool_of idx)

    Reported-target_is_good :
        {sort_key : O → SocketAddr} {is : List ℕ} {rows : List (Text × List O)} {n : ℕ}
        → Reported sort_key probe pool_of is rows n
        → (not (ltb 0 n) && all (λ (row : Text × List O). all is_good row.1) rows)
          ≡ all target_is_good is
    Reported-target_is_good no_target = ground arith
    Reported-target_is_good (no_address {idx} e rest) = rw e (ground arith)
    Reported-target_is_good (probed {idx} host dests results e all_results sorted rest) =
        rw e (ground (arith, all-Perm is_good all_results, Reported-target_is_good rest))

    exit_code-all :
        (out_ok : Bool) {sort_key : O → SocketAddr} {is : List ℕ} {rows : List (Text × List O)}
        {n : ℕ}
        → Reported sort_key probe pool_of is rows n
        → exit_code (some out_ok) n expect strict failed rows
          ≡ (if out_ok && all target_is_good is then success else failure)
    unfolding exit_code
    exit_code-all out_ok {rows = rows} reported =
        ground (arith, Reported-target_is_good reported, all_rows rows)

  -- Some target was given, so no row means that none has addresses.
  no_rows :
      {sort_key : O → SocketAddr} {probe : ℕ → Text → SocketAddr → O} {pool_of : ℕ → Pooled}
      {is : List ℕ} {rows : List (Text × List O)} {n : ℕ}
      → Reported sort_key probe pool_of is rows n
      → is_empty is ≡ false
      → is_empty rows ≡ true
      → ltb 0 n ≡ true
  no_rows no_target h k = ground (arith, h)
  no_rows (no_address e rest) h k = ground arith
  no_rows (probed host dests results e all_results sorted rest) h k = ground (arith, k)

is_empty-range : (targets : List Target) → is_empty (range 0 (length targets)) ≡ is_empty targets
is_empty-range [] = refl
is_empty-range (t ∷ targets) = refl

-- The targets that the arguments give; an argument that does not parse gives none.
abbrev pub targets_of : Result (List Target) Text → List Target
targets_of (fail err) = []
targets_of (done targets) = targets

abbrev pub parses : Result (List SocketAddr) Text → Bool
parses (fail err) = false
parses (done servers) = true

-- The file of `--output-body` has one address to come from at most, and can be created for it.
abbrev pub body_allowed : Option Bool → ℕ → ℕ → Bool
body_allowed none targets addresses = true
body_allowed (some created) targets addresses =
    leb targets 1 && (addresses == 0 || addresses == 1 && created)

body_allowed_lem :
    (body : Option Bool) (targets addresses : ℕ)
    → body_allowed body targets addresses
      ≡ (not (many_targets body targets) && not (body_refused body addresses))
body_allowed_lem none targets addresses = refl
body_allowed_lem (some created) targets addresses = ground arith

guards :
    (conflict many refused tail : Bool)
    → (if conflict
        then usage
        else if many
        then failure
        else if refused
        then failure
        else if tail
        then success
        else failure)
      ≡ (if conflict then usage else if (not many && not refused) && tail then success else failure)
guards conflict many refused tail = ground arith

module _ {O : Type 0} (flags : Flags) (expect : Option (O → Option Text)) (failed : O → Bool)
    (printed : Bool) (scope : Scope) (resolve : Text → Result (List IpAddr) Text)
    (probe : ℕ → Text → SocketAddr → O) (sort_key : O → SocketAddr) where
  -- Targets probed one after the other: there are some, the flags allow them, the report is printed,
  -- and each target is good.
  abbrev pub sweep_succeeds : List Target → Bool
  sweep_succeeds targets =
      let pool_of = pool_at scope resolve targets in
      let indices = range 0 (length targets) in
      not (is_empty targets)
      && (body_allowed flags.output_body (length targets)
            (dest_count (map (entry_at pool_of) indices))
          && ((not flags.csv || flags.has_renderer)
              && (printed
                  && all (target_is_good expect flags.strict failed probe pool_of) indices)))

  exit_code-delivered :
      (single : Bool) (rows : List (Text × List O)) (n : ℕ) (good : Bool)
      → (is_empty rows ≡ true → ltb 0 n ≡ true)
      → (not (ltb 0 n)
          && all (λ (row : Text × List O). all (is_good expect flags.strict failed) row.1) rows)
        ≡ good
      → exit_code (delivered flags single printed rows) n expect flags.strict failed rows
        ≡ (if (not flags.csv || flags.has_renderer) && (printed && good) then success else failure)
  unfolding exit_code delivered
  exit_code-delivered single rows n good h e = elim (Bool-cases (is_empty rows)) [
    | inl k ↦ ground (arith, h k, e, all_rows expect flags.strict failed rows)
    | inr k ↦ ground (arith, k, e, all_rows expect flags.strict failed rows)
  ]

  -- Whatever the order in which the tasks of the two phases end, `run_probe_flow` exits with a usage
  -- error if both `--json` and `--csv` are given, and else with success just if the arguments parse,
  -- some target is given, `--output-body` is absent or allowed (one target, one address at most, a
  -- file that can be created), the report has a renderer and is printed, each target has a pool of
  -- addresses, each observation of an address meets the expectation, and under `--strict` none has
  -- failed.
  pub run_exit-sequential :
      (servers : Result (List SocketAddr) Text) (parsed : Result (List Target) Text)
      (order : List ℕ) (ended : List Item)
      → Perm order (range 0 (length (targets_of parsed)))
      → Perm ended (to_probe scope resolve (targets_of parsed) order)
      → run_exit flags expect failed printed scope resolve probe sort_key servers parsed order ended
        ≡ (if flags.json && flags.csv
            then usage
            else if parses servers && sweep_succeeds (targets_of parsed)
            then success
            else failure)
  unfolding run_exit flow_exit
  run_exit-sequential (fail err) parsed order ended p q = refl
  run_exit-sequential (done servers) (fail err) order ended p q = refl
  run_exit-sequential (done servers) (done targets) order ended p q =
      let pool_of = pool_at scope resolve targets in
      let indexed = swept scope resolve targets sort_key probe order ended in
      let reported = swept-Reported scope resolve targets probe sort_key order ended p q in
      elim (Bool-cases (is_empty targets)) [
        | inl k ↦ rw k refl
        | inr k ↦
            rw
              (
                sort_by_idx-order pool_of (length targets) order p,
                k,
                exit_code-delivered (length targets == 1) (per_target indexed) (unresolved indexed)
                    _ (no_rows expect flags.strict failed reported (is_empty-range targets ∙ k))
                    (Reported-target_is_good expect flags.strict failed probe pool_of reported),
                body_allowed_lem flags.output_body (length targets)
                    (dest_count (map (entry_at pool_of) (range 0 (length targets)))),
              )
              (guards (flags.json && flags.csv) (many_targets flags.output_body (length targets))
                (body_refused flags.output_body
                  (dest_count (map (entry_at pool_of) (range 0 (length targets)))))
                ((not flags.csv || flags.has_renderer)
                  && (printed
                      && all (target_is_good expect flags.strict failed probe pool_of)
                          (range 0 (length targets)))))
      ]
