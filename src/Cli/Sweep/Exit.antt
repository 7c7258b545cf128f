-- ===== src/Cli/Sweep/Exit.antt =====
-- src/cli/mod.rs: the text that `run_probe_flow` prints for people, its guards and its exit code. The
-- flags, what the arguments parse to, and what printing and creating a file return are parameters.
pub mod Sequential
use ip_tools.Base.{
  ℕ, ◌+◌, Bool, true, false, ◌&&◌, not, if◌then◌else◌, ltb, Option, none, some, List, [], ◌∷◌, ◌++◌,
  any, filter, length, is_empty, nat_eq, ◌==◌, ◌||◌, Text, text, Result, done, fail,
}
use ip_tools.Net.{IpAddr, SocketAddr}
use ip_tools.Target.{Target}
use ip_tools.Cli.Sweep.{
  Scope, Indexed, Pooled, Item, unresolved, per_target, resolved_in, pool_at, sort_by_idx, swept,
}

-- `ExitCode::from(2)` is `usage`.
pub data ExitCode : Type 0 where
  success : ExitCode
  failure : ExitCode
  usage : ExitCode

module _ {O : Type 0} where
  -- In a sweep each block has its target's name; `render` has the style.
  unfoldable pub human_text : Bool → (List O → Text) → List (Text × List O) → Text
  human_text single render [] = []
  human_text single render (row ∷ rows) =
      (if not single then row.0 ++ text ":\n" else [])
      ++ render row.1
      ++ human_text single render rows

  -- `check(o)` gives a reason.
  abbrev pub is_violated : Option (O → Option Text) → O → Bool
  is_violated none o = false
  is_violated (some check) o = elim (check o) [ none ↦ false | some reason ↦ true ]

  abbrev pub violated : Option (O → Option Text) → List (Text × List O) → Bool
  violated expect rows = any (λ row. any (is_violated expect) row.1) rows

  unfoldable pub failed_count : (O → Bool) → List (Text × List O) → ℕ
  failed_count failed [] = 0
  failed_count failed (row ∷ rows) = length (filter failed row.1) + failed_count failed rows

  -- `out_ok` is `none` for `--csv` where the command has no renderer for it, and else what
  -- `print_stdout` returned.
  unfoldable pub exit_code :
      Option Bool
      → ℕ
      → Option (O → Option Text)
      → Bool
      → (O → Bool)
      → List (Text × List O)
      → ExitCode
  exit_code none unresolved expect strict failed rows = failure
  exit_code (some out_ok) unresolved expect strict failed rows =
      if not out_ok
      then failure
      else if ltb 0 unresolved
      then failure
      else if violated expect rows
      then failure
      else if strict && ltb 0 (failed_count failed rows)
      then failure
      else success

-- The flags that the exit code depends on. `output_body` tells of the path of `--output-body`, where
-- there is one, whether `File::create` succeeds on it; `has_renderer` is `csv_render.is_some()`.
pub record Flags : Type 0 where
  pub json : Bool
  pub csv : Bool
  pub strict : Bool
  pub output_body : Option Bool
  pub has_renderer : Bool

-- `out_ok`, where `printed` is what `print_stdout` returns; nothing is printed for the JSON of a
-- single target without a row.
unfoldable pub delivered : {O : Type 0} → Flags → Bool → Bool → List (Text × List O) → Option Bool
delivered flags single printed rows =
    if flags.csv
    then (if flags.has_renderer then some printed else none)
    else if flags.json && (single && is_empty rows)
    then some true
    else some printed

-- `--output-body` names one file: more than one target is refused.
abbrev pub many_targets : Option Bool → ℕ → Bool
many_targets none count = false
many_targets (some created) count = ltb 1 count

-- The addresses of all targets.
abbrev pub pool_size : Pooled → ℕ
pool_size none = 0
pool_size (some (host, dests)) = length dests

unfoldable pub dest_count : List (Indexed Pooled) → ℕ
dest_count [] = 0
dest_count (entry ∷ resolved) = pool_size entry.1 + dest_count resolved

-- More than one address is refused, and one whose file cannot be created.
abbrev pub body_refused : Option Bool → ℕ → Bool
body_refused none count = false
body_refused (some created) count = if ltb 1 count then true else count == 1 && not created

module _ {O : Type 0} (flags : Flags) (expect : Option (O → Option Text)) (failed : O → Bool)
    (printed : Bool) where
  -- What follows once the targets are known.
  unfoldable pub flow_exit :
      List Target → List (Indexed Pooled) → List (Indexed (Option (Text × List O))) → ExitCode
  unfolding exit_code delivered dest_count unresolved
  flow_exit targets resolved indexed =
      if is_empty targets
      then failure
      else if many_targets flags.output_body (length targets)
      then failure
      else if body_refused flags.output_body (dest_count resolved)
      then failure
      else exit_code (delivered flags (length targets == 1) printed (per_target indexed))
          (unresolved indexed) expect flags.strict failed (per_target indexed)

module _ {O : Type 0} (flags : Flags) (expect : Option (O → Option Text)) (failed : O → Bool)
    (printed : Bool) (scope : Scope) (resolve : Text → Result (List IpAddr) Text)
    (probe : ℕ → Text → SocketAddr → O) (sort_key : O → SocketAddr) where
  -- The exit code of the whole flow: `servers` and `targets` are what `parse_custom_servers` and
  -- `parse_targets` return, and the tasks of the two phases end in the orders given.
  unfoldable pub run_exit :
      Result (List SocketAddr) Text → Result (List Target) Text → List ℕ → List Item → ExitCode
  unfolding flow_exit
  run_exit (fail err) targets order ended = if flags.json && flags.csv then usage else failure
  run_exit (done servers) (fail err) order ended =
      if flags.json && flags.csv then usage else failure
  run_exit (done servers) (done targets) order ended =
      if flags.json && flags.csv
      then usage
      else flow_exit flags expect failed printed targets
          (sort_by_idx (resolved_in (pool_at scope resolve targets) order))
          (swept scope resolve targets sort_key probe order ended)
