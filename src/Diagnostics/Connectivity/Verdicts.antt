-- ===== src/Diagnostics/Connectivity/Verdicts.antt =====
-- When the connectivity and family rules speak, in terms of the observations themselves.
use ip_tools.Base.{
  ◌≡◌, refl, inl, inr, Bool, true, false, not, ◌&&◌, List, [], ◌∷◌, ◌++◌, arith, none, some, filter,
  any, all, is_empty, Bool-cases, if◌then◌else◌,
}
use ip_tools.Net.{is_ipv4}
use ip_tools.Model.{TcpObservation}
use ip_tools.Diagnostics.Input.{DiagnosticInput}
use ip_tools.Diagnostics.Connectivity.{
  local_failure, succeeding, failing, all_local_unreachability, connectivity_rules, family_rules,
  total_loss, partial_loss, family_result, both_families, lone_verdict,
}

abbrev pub succeeded : TcpObservation → Bool
succeeded o = o.success

abbrev pub failed : TcpObservation → Bool
failed o = not o.success

-- A failure that says something of the path: any but a verdict of the local stack.
abbrev pub failed_on_path : TcpObservation → Bool
failed_on_path o = failed o && not (local_failure o)

is_empty-filter :
    {A : Type 0} (p : A → Bool) (xs : List A) → is_empty (filter p xs) ≡ not (any p xs)
is_empty-filter p [] = refl
is_empty-filter p (x ∷ xs) = ground (arith, is_empty-filter p xs)

all_local-failing :
    (os : List TcpObservation) → all local_failure (failing os) ≡ not (any failed_on_path os)
all_local-failing [] = refl
all_local-failing (o ∷ os) = ground (arith, all_local-failing os)

any_path_failed : (os : List TcpObservation) → any failed_on_path os ≡ true → any failed os ≡ true
any_path_failed [] h = cc
any_path_failed (o ∷ os) h = ground (arith, any_path_failed os)

is_empty-any :
    (os : List TcpObservation) → is_empty os ≡ not (any succeeded os) && not (any failed os)
is_empty-any [] = refl
is_empty-any (o ∷ os) = ground arith

-- The tests of the rule, as a table over what they compute from.
verdict_table :
    {A : Type 0} (s f path : Bool) (total partial : A)
    → (path ≡ true → f ≡ true)
    → (if not s && not f
        then []
        else if not s && not (not f)
        then (if not path then [] else total ∷ [])
        else if not (not s) && not (not f)
        then (if not path then [] else partial ∷ [])
        else [])
      ≡ (if path then (if s then partial else total) ∷ [] else [])
verdict_table true true true t p h = refl
verdict_table true true false t p h = refl
verdict_table true false true t p h = cc (h refl)
verdict_table true false false t p h = refl
verdict_table false true true t p h = refl
verdict_table false true false t p h = refl
verdict_table false false true t p h = cc (h refl)
verdict_table false false false t p h = refl

module _ {F : Type 0} (input : DiagnosticInput F) where
  -- The connectivity rule gives a partial-loss verdict where some address answered and some failure
  -- is of the path, a total-loss verdict where no address answered and some failure is of the path,
  -- and no verdict where no failure is of the path. A failure is of the path unless the local stack
  -- reported the network or the host as unreachable.
  pub connectivity_exact : connectivity_rules input ≡ (
      if any failed_on_path input.tcp
      then (if any succeeded input.tcp
          then partial_loss input.hostname (succeeding input.tcp) (failing input.tcp)
          else total_loss input.hostname (failing input.tcp))
        ∷ []
      else [])
  unfolding connectivity_rules all_local_unreachability
  connectivity_exact =
      simp
        (
          is_empty-any input.tcp,
          is_empty-filter succeeded input.tcp,
          is_empty-filter failed input.tcp,
          all_local-failing input.tcp,
        )
        (verdict_table _ _ _ _ _ (any_path_failed input.tcp))

abbrev pub of_family : Bool → TcpObservation → Bool
of_family ipv4 o = if ipv4 then is_ipv4 o.destination else not (is_ipv4 o.destination)

any-filter :
    {A : Type 0} (p q : A → Bool) (xs : List A) → any p xs ≡ false → any p (filter q xs) ≡ false
any-filter p q [] h = refl
any-filter p q (x ∷ xs) h = ground (arith, any-filter p q xs)

-- Where no address answered, a family that was probed did not answer.
silent_family :
    (ipv4 : Bool) (os : List TcpObservation)
    → any succeeded os ≡ false
    → family_result ipv4 os ≡ (if any (of_family ipv4) os then some false else none)
unfolding family_result
silent_family ipv4 os h =
    rw (any-filter succeeded (of_family ipv4) os h, is_empty-filter (of_family ipv4) os)
      (ground arith)

-- Where no failure is of the path, all that failed in a family failed locally.
local_family :
    (ipv4 : Bool) (os : List TcpObservation)
    → any failed_on_path os ≡ false
    → all local_failure (failing (filter (of_family ipv4) os)) ≡ true
local_family ipv4 os h =
    rw all_local-failing (rw (any-filter failed_on_path (of_family ipv4) os h) refl)

pub some_observation :
    (os : List TcpObservation) → any (of_family true) os ≡ true → is_empty os ≡ false
some_observation [] h = cc
some_observation (o ∷ os) h = refl

-- Every address is of one of the two families.
some_family :
    (os : List TcpObservation)
    → any (of_family true) os ≡ false
    → any (of_family false) os ≡ false
    → is_empty os ≡ true
some_family [] h k = refl
some_family (o ∷ os) h k = ground arith

module _ {F : Type 0} (input : DiagnosticInput F) where
  -- With every failure local, the family rule speaks unless both families were probed.
  family_rules_local :
      any succeeded input.tcp ≡ false
      → any failed_on_path input.tcp ≡ false
      → is_empty input.tcp ≡ false
      → is_empty (family_rules input)
        ≡ any (of_family true) input.tcp && any (of_family false) input.tcp
  unfolding family_rules both_families lone_verdict all_local_unreachability
  family_rules_local up path some_obs =
      rw (some_obs, silent_family true input.tcp up, silent_family false input.tcp up)
        (ground (
          arith,
          local_family true input.tcp path,
          local_family false input.tcp path,
          some_family input.tcp,
        ))

  -- Where addresses were probed and none answered, the connectivity and the family rule together
  -- are silent exactly if every failure is of the local stack and both families were probed.
  pub silence_exact :
      is_empty input.tcp ≡ false
      → any succeeded input.tcp ≡ false
      → is_empty (connectivity_rules input ++ family_rules input)
        ≡ not (any failed_on_path input.tcp)
          && (any (of_family true) input.tcp && any (of_family false) input.tcp)
  silence_exact some_obs up =
      rw connectivity_exact (elim (Bool-cases (any failed_on_path input.tcp)) [
        | inl path ↦ rw path
        | inr local ↦ rw local (family_rules_local up local some_obs)
      ])
