-- ===== src/Probe/Examples.antt =====
-- Repeated probes at small runs.
use mathlib.Core.List.{reverse, reverse_perm}
use mathlib.Core.List.Perm
use ip_tools.Base.Tests.{naturals}
use ip_tools.Base.{ℕ, ◌≡◌, true, false, none, some, List, [], ◌∷◌, length, filter, min}
use ip_tools.Net.{SocketAddr, v4}
use ip_tools.Model.{FailureKind, HttpObservation, timeout, dns, base}
use ip_tools.Probe.{Attempt, repeat_impl}
use ip_tools.Probe.Attempts.{
  classified, failed_with, answered_with, kind_total, kind_rows, status_total, status_rows,
  repeat_impl-counts,
}
use ip_tools.Probe.Deterministic.{repeat_impl-order}

abbrev here : SocketAddr
here = record { ip = v4 1; port = 443 }

abbrev answered_200 : Attempt
answered_200 = record {
  success = true;
  latency_ms = some 12;
  kind = none;
  status = some 200;
  ttfb_ms = some 9;
}

abbrev stalled : Attempt
stalled = record {
  success = false;
  latency_ms = none;
  kind = some timeout;
  status = some 503;
  ttfb_ms = some 11;
}

abbrev unresolved : Attempt
unresolved = record {
  success = false;
  latency_ms = none;
  kind = some dns;
  status = none;
  ttfb_ms = none;
}

abbrev run : List Attempt
run = answered_200 ∷ stalled ∷ unresolved ∷ stalled ∷ []

repeat_impl-order_example :
    repeat_impl naturals (λ m. m) (λ m. m) here run ≡ repeat_impl naturals reverse reverse here run
repeat_impl-order_example =
    repeat_impl-order naturals (λ m. m) reverse (λ m. m) reverse (λ m. Perm.symm (reverse_perm m))
      (λ m. Perm.symm (reverse_perm m)) here run

repeat_impl-counts_example :
    let r = repeat_impl naturals reverse reverse here run in
    (r.successes ≡ length (filter (λ a. a.success) run))
    × (r.latency.count ≡ r.successes)
    × (r.failures ≡ length (filter classified run))
    × ((k : FailureKind)
        → (kind_total k r.failure_counts ≡ length (filter (failed_with k) run))
          × (kind_rows k r.failure_counts ≡ min 1 (length (filter (failed_with k) run))))
    × ((s : ℕ)
        → (status_total s r.status_counts ≡ length (filter (answered_with s) run))
          × (status_rows s r.status_counts ≡ min 1 (length (filter (answered_with s) run))))
repeat_impl-counts_example =
    repeat_impl-counts naturals reverse reverse (λ m. reverse_perm m) (λ m. reverse_perm m) here run

-- Its body never ended.
abbrev half : HttpObservation
unfolding base
half = record (base here [] [] []) { status = some 200; ttfb_ms = some 3 }

abbrev whole_body : HttpObservation
unfolding base
whole_body = record half { body_bytes = some 10; latency_ms = some 8 }
