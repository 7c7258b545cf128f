-- ===== src/Probe.antt =====
-- src/probe.rs: repeated probes. An attempt is an asynchronous probe, whose outcome is given here;
-- the attempts run one after the other, so a run is the list of their outcomes.
-- The iteration order of a `HashMap` is random for each process: `kinds_of` and `statuses_of` are
-- the entries of the two maps in the order in which `into_iter` visits them.
pub mod Attempts
pub mod Distribution
pub mod Deterministic
mod Examples
use ip_tools.Base.{
  ℕ, ◌+◌, Bool, true, false, Option, none, some, List, [], ◌∷◌, map, length, is_none, nat_eq, ◌==◌,
  if◌then◌else◌, Float, count_up, values, sort_by, frequent_first,
}
use ip_tools.Net.{SocketAddr}
use ip_tools.Model.{
  FailureKind, kind_index, kind_eq, ProbeError, LatencyStats, empty_stats, push, summarize, sum,
  TcpObservation, TlsObservation, HttpObservation, FailureCount, StatusCount, ProbeResult,
}

-- The tuple that an attempt gives.
pub record Attempt : Type 0 where
  pub success : Bool
  pub latency_ms : Option ℕ
  pub kind : Option FailureKind
  pub status : Option ℕ
  pub ttfb_ms : Option ℕ

abbrev kind_of : Option ProbeError → Option FailureKind
kind_of none = none
kind_of (some e) = some e.kind

-- The closures of `tcp_repeat` and of `tls_repeat_with_version`.
abbrev plain_outcome : Bool → Option ℕ → Option ProbeError → Attempt
plain_outcome true latency failure = record {
  success = true;
  latency_ms = latency;
  kind = none;
  status = none;
  ttfb_ms = none;
}
plain_outcome false latency failure = record {
  success = false;
  latency_ms = none;
  kind = kind_of failure;
  status = none;
  ttfb_ms = none;
}

unfoldable pub tcp_outcome : TcpObservation → Attempt
tcp_outcome obs = plain_outcome obs.success obs.latency_ms obs.failure

unfoldable pub tls_outcome : TlsObservation → Attempt
tls_outcome obs = plain_outcome obs.success obs.latency_ms obs.failure

unfoldable pub http_outcome : HttpObservation → Attempt
http_outcome obs =
    if is_none obs.failure
    then if is_none obs.body_bytes
      then record {
        success = false;
        latency_ms = none;
        kind = some FailureKind.timeout;
        status = obs.status;
        ttfb_ms = obs.ttfb_ms;
      }
      else record {
        success = true;
        latency_ms = obs.latency_ms;
        kind = none;
        status = obs.status;
        ttfb_ms = obs.ttfb_ms;
      }
    else record {
      success = false;
      latency_ms = none;
      kind = kind_of obs.failure;
      status = none;
      ttfb_ms = none;
    }

-- The local variables of the loop in `repeat_impl`.
pub record Tally : Type 0 where
  pub latency : LatencyStats
  pub ttfb : LatencyStats
  pub failures : List (FailureKind × ℕ)
  pub statuses : List (ℕ × ℕ)
  pub successes : ℕ

abbrev pub fresh : Tally
fresh = record {
  latency = empty_stats;
  ttfb = empty_stats;
  failures = [];
  statuses = [];
  successes = 0;
}

abbrev unwrap_or : Option ℕ → ℕ → ℕ
unwrap_or none d = d
unwrap_or (some n) d = n

abbrev pub count_some {ℓ} :
    {K : Type ℓ} → (K → List (K × ℕ) → List (K × ℕ)) → Option K → List (K × ℕ) → List (K × ℕ)
count_some up none m = m
count_some up (some k) m = up k m

abbrev pub push_some_ms : LatencyStats → Option ℕ → LatencyStats
push_some_ms s none = s
push_some_ms s (some ms) = push s ms

-- The loop's body, for one attempt.
unfoldable pub note : Tally → Attempt → Tally
unfolding count_up
note t a = record {
  statuses = count_some count_up a.status t.statuses;
  ttfb = push_some_ms t.ttfb a.ttfb_ms;
  successes = if a.success then t.successes + 1 else t.successes;
  latency = if a.success then push t.latency (unwrap_or a.latency_ms 0) else t.latency;
  failures = if a.success then t.failures else count_some count_up a.kind t.failures;
}

unfoldable pub note_all : Tally → List Attempt → Tally
unfolding note
note_all t [] = t
note_all t (a ∷ rest) = note_all (note t a) rest

abbrev pub failure_count : FailureKind × ℕ → FailureCount
failure_count e = record { kind = e.0; count = e.1 }

abbrev pub status_count : ℕ × ℕ → StatusCount
status_count e = record { status = e.0; count = e.1 }

-- The keys of the two `sort_by_key` calls.
abbrev pub failure_lt : FailureCount → FailureCount → Bool
failure_lt = frequent_first (λ f. f.count) (λ f. kind_index f.kind)

abbrev pub status_lt : StatusCount → StatusCount → Bool
status_lt = frequent_first (λ s. s.count) (λ s. s.status)

module _ (fl : Float) (kinds_of : List (FailureKind × ℕ) → List (FailureKind × ℕ))
    (statuses_of : List (ℕ × ℕ) → List (ℕ × ℕ)) where
  open fl use {F, zero_f, of_ℕ, div_f}

  -- What follows the loop.
  unfoldable pub report : SocketAddr → ℕ → Tally → ProbeResult F
  unfolding sort_by summarize sum
  report destination attempts t = record {
    destination = destination;
    attempts = attempts;
    successes = t.successes;
    failures = sum (values (kinds_of t.failures));
    success_rate = if attempts == 0 then zero_f else div_f (of_ℕ t.successes) (of_ℕ attempts);
    latency = summarize fl t.latency;
    ttfb = summarize fl t.ttfb;
    failure_counts = sort_by failure_lt (map failure_count (kinds_of t.failures));
    status_counts = sort_by status_lt (map status_count (statuses_of t.statuses));
  }

  unfoldable pub repeat_impl : SocketAddr → List Attempt → ProbeResult F
  unfolding report note_all
  repeat_impl destination outcomes = report destination (length outcomes) (note_all fresh outcomes)

  -- `tcp_repeat`, `tls_repeat_with_version` and `http_repeat` with its variants, for what the
  -- probes observe.
  unfoldable pub tcp_repeat : SocketAddr → List TcpObservation → ProbeResult F
  unfolding repeat_impl tcp_outcome
  tcp_repeat destination obs = repeat_impl destination (map tcp_outcome obs)

  unfoldable pub tls_repeat : SocketAddr → List TlsObservation → ProbeResult F
  unfolding repeat_impl tls_outcome
  tls_repeat destination obs = repeat_impl destination (map tls_outcome obs)

  unfoldable pub http_repeat : SocketAddr → List HttpObservation → ProbeResult F
  unfolding repeat_impl http_outcome
  http_repeat destination obs = repeat_impl destination (map http_outcome obs)
