-- ===== src/Cli/Sweep/Examples.antt =====
-- src/cli/mod.rs, `run_probe_flow`, at two targets, one with two addresses; the tasks end in another
-- order than they started.
use mathlib.Core.List.{Perm}
use mathlib.Core.List.Perm
use ip_tools.Base.{
  ℕ, ◌≡◌, refl, true, false, ◌&&◌, if◌then◌else◌, ◌==◌, nat_eq, none, List, [], ◌∷◌, length, Text,
  text, Result, done, fail, sort_by, insert_by,
}
use ip_tools.Net.{IpAddr, v4, SocketAddr}
use ip_tools.Target.{Target}
use ip_tools.Cli.Sweep.{
  Scope, Item, range, pool_at, unresolved, per_target, probe_items, to_probe, swept, indexed_rows,
  push_all, push_at, take_slot,
}
use ip_tools.Cli.Sweep.Reported.{Reported, swept-Reported}
use ip_tools.Cli.Sweep.Exit.{
  success, failure, exit_code, human_text, failed_count, Flags, usage, run_exit, flow_exit,
  delivered, dest_count,
}
use ip_tools.Cli.Sweep.Exit.Sequential.{sweep_succeeds, run_exit-sequential}

abbrev any_family : Scope
any_family = record { ipv4_only = false; ipv6_only = false }

abbrev two_addresses : Text → Result (List IpAddr) Text
two_addresses [] = fail []
two_addresses (c ∷ rest) = if c == 97 then done (v4 9 ∷ v4 5 ∷ []) else done (v4 7 ∷ [])

abbrev two_targets : List Target
two_targets = record { host = 97 ∷ []; port = 80 } ∷ record { host = 98 ∷ []; port = 81 } ∷ []

abbrev at_port : ℕ → ℕ → SocketAddr
at_port ip port = record { ip = v4 ip; port = port }

abbrev echo : ℕ → Text → SocketAddr → SocketAddr
echo idx host dest = dest

abbrev own_address : SocketAddr → SocketAddr
own_address addr = addr

abbrev last_first : List Item
last_first =
    (0, ((97 ∷ []), at_port 5 80))
    ∷ (0, ((97 ∷ []), at_port 9 80))
    ∷ (1, ((98 ∷ []), at_port 7 81))
    ∷ []

last_first-Perm : Perm last_first (to_probe any_family two_addresses two_targets (1 ∷ 0 ∷ []))
unfolding probe_items sort_by insert_by
last_first-Perm = Perm.swap _ _ _

swept-Reported_example :
    Reported own_address echo
      (pool_at any_family two_addresses two_targets)
      (range 0 (length two_targets))
      (per_target
        (swept any_family two_addresses two_targets own_address echo (1 ∷ 0 ∷ []) last_first))
      (unresolved
        (swept any_family two_addresses two_targets own_address echo (1 ∷ 0 ∷ []) last_first))
swept-Reported_example =
    swept-Reported any_family two_addresses two_targets echo own_address (1 ∷ 0 ∷ []) last_first
      (Perm.swap 0 1 []) last_first-Perm

abbrev strict_run : Flags
strict_run = record {
  json = false;
  csv = false;
  strict = true;
  output_body = none;
  has_renderer = true;
}

run_exit-sequential_example :
    run_exit strict_run none
      (λ addr. false)
      true
      any_family
      two_addresses
      echo
      own_address
      (done [])
      (done two_targets)
      (1 ∷ 0 ∷ [])
      last_first
    ≡ (if false
        then usage
        else if true
            && sweep_succeeds strict_run none
                (λ addr. false)
                true
                any_family
                two_addresses
                echo
                own_address
                two_targets
        then success
        else failure)
run_exit-sequential_example =
    run_exit-sequential strict_run none (λ addr. false) true any_family two_addresses echo
      own_address (done []) (done two_targets) (1 ∷ 0 ∷ []) last_first (Perm.swap 0 1 [])
      last_first-Perm

run_exit_test :
    run_exit strict_run none
      (λ addr. false)
      true
      any_family
      two_addresses
      echo
      own_address
      (done [])
      (done two_targets)
      (1 ∷ 0 ∷ [])
      last_first
    ≡ success
unfolding run_exit flow_exit exit_code delivered dest_count unresolved indexed_rows sort_by
    insert_by push_all push_at take_slot failed_count
run_exit_test = refl

-- An empty list of targets is a failure, not a sweep that probes nothing and passes.
run_exit-no_targets_test :
    run_exit strict_run none
      (λ addr. false)
      true
      any_family
      two_addresses
      echo
      own_address
      (done [])
      (done [])
      []
      []
    ≡ failure
unfolding run_exit flow_exit
run_exit-no_targets_test = refl

human_text_test :
    human_text false
      (λ (results : List SocketAddr). text "-")
      (per_target
        (swept any_family two_addresses two_targets own_address echo (1 ∷ 0 ∷ []) last_first))
    ≡ text "a:\n-b:\n-"
unfolding human_text text indexed_rows sort_by insert_by push_all push_at take_slot
human_text_test = refl
