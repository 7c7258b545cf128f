-- ===== src/Report/Samples.antt =====
-- Sample observations for the examples.
use ip_tools.Base.{ℕ, true, false, none, some, [], ◌∷◌, nat_eq, Text}
use ip_tools.Net.{SocketAddr, v4}
use ip_tools.Model.{
  DnsObservation, DnsRecord, DnsRecordType, system, TcpObservation, TlsObservation, HttpObservation,
  FailureKind, ProbeResult, Diagnosis, Severity, Confidence, DiagnosticCategory, LatencySummary,
}
use ip_tools.Dns.Repeat.{DnsRepeatResult}
use ip_tools.Route.{RouteHop, RouteHopStats, RouteRepeat}
use ip_tools.Style.{Style}

abbrev pub dest : SocketAddr
dest = record { ip = v4 16909060; port = 443 }

abbrev pub connected : TcpObservation
connected = record { destination = dest; success = true; latency_ms = some 12; failure = none }

abbrev pub refused : TcpObservation
refused = record {
  destination = dest;
  success = false;
  latency_ms = none;
  failure = some (record { kind = FailureKind.connection_refused; message = [] });
}

abbrev pub coloured : Style
coloured = record { color = true }

abbrev pub host : Text
host = b'a' ∷ b'.' ∷ b'b' ∷ []

abbrev pub looked_up : DnsObservation
looked_up = record {
  hostname = host;
  resolver = system;
  record_type = DnsRecordType.a;
  records = DnsRecord.a 16909060 ∷ [];
  ttl = some 60;
  latency_ms = some 3;
  error = none;
}

abbrev pub shaken : TlsObservation
shaken = record {
  destination = dest;
  sni = host;
  success = false;
  version = none;
  cipher = none;
  alpn = none;
  certificate = none;
  latency_ms = none;
  failure = some (record { kind = FailureKind.timeout; message = host });
}

abbrev pub answered : HttpObservation
answered = record {
  destination = dest;
  host = host;
  method = [];
  path = b'/' ∷ [];
  tls = none;
  protocol = none;
  status = some 404;
  location = none;
  headers = [];
  body_bytes = some 2;
  body_capped = true;
  body_snippet = some (27 ∷ 10 ∷ []);
  latency_ms = some 30;
  ttfb_ms = some 20;
  failure = none;
}

-- In place of the `{:?}` of Rust.
abbrev pub shown : Text → Text
shown s = s

abbrev pub no_latency : LatencySummary
no_latency = record {
  count = 0;
  min = none;
  p50 = none;
  p90 = none;
  p95 = none;
  p99 = none;
  max = none;
  mean = none;
  jitter = none;
  samples = [];
}

abbrev pub repeated : DnsRepeatResult ℕ
repeated = record {
  resolver = system;
  record_type = DnsRecordType.a;
  attempts = 1;
  successes = 0;
  failures = 1;
  success_rate = 0;
  latency = no_latency;
  failure_counts = record { kind = FailureKind.dns; count = 1 } ∷ [];
  ttl = none;
}

abbrev pub probed : ProbeResult ℕ
probed = record {
  destination = dest;
  attempts = 1;
  successes = 0;
  failures = 1;
  success_rate = 0;
  latency = no_latency;
  ttfb = no_latency;
  failure_counts = record { kind = FailureKind.timeout; count = 1 } ∷ [];
  status_counts = record { status = 301; count = 1 } ∷ [];
}

abbrev pub lost_hop : RouteHop
lost_hop = record { ttl = 1; addr = none; hostname = none; rtt_ms = none; lost = true }

abbrev pub traced : RouteHop
traced = record {
  ttl = 12;
  addr = some (v4 16909060);
  hostname = some host;
  rtt_ms = some 4;
  lost = false;
}

abbrev pub never_seen : RouteHopStats
never_seen = record {
  ttl = 1;
  answered = 0;
  addrs = [];
  hostname = none;
  rtt = no_latency;
  path_changed = false;
}

abbrev pub traces : RouteRepeat
traces = record { runs = 2; hops = never_seen ∷ [] }

abbrev pub verdict : Diagnosis
verdict = record {
  severity = Severity.high;
  category = DiagnosticCategory.dns;
  confidence = Confidence.high;
  summary = host;
  evidence = record { detail = host } ∷ [];
  possible_causes = [];
}
