-- ===== src/Model/Observation.antt =====
-- src/model/{tcp,tls,http,probe}.rs: what one probe, or a repeated one, observed.
use ip_tools.Base.{ℕ, Bool, false, Option, none, some, List, [], Text}
use ip_tools.Net.{SocketAddr}
use ip_tools.Model.Failure.{FailureKind, ProbeError}
use ip_tools.Model.Latency.{LatencySummary}

pub record TcpObservation : Type 0 where
  pub destination : SocketAddr
  pub success : Bool
  pub latency_ms : Option ℕ
  pub failure : Option ProbeError

pub record CertificateSummary : Type 0 where
  pub subject : Text
  pub issuer : Text
  pub not_before_utc : Option Text
  pub not_after_utc : Option Text
  pub sans : List Text

pub record TlsObservation : Type 0 where
  pub destination : SocketAddr
  pub sni : Text
  pub success : Bool
  pub version : Option Text
  pub cipher : Option Text
  pub alpn : Option Text
  pub certificate : Option CertificateSummary
  pub latency_ms : Option ℕ
  pub failure : Option ProbeError

pub record HttpObservation : Type 0 where
  pub destination : SocketAddr
  pub host : Text
  pub method : Text
  pub path : Text
  pub tls : Option TlsObservation
  pub protocol : Option Text
  pub status : Option ℕ
  pub location : Option Text
  pub headers : List (Text × Text)
  pub body_bytes : Option ℕ
  pub body_capped : Bool
  pub body_snippet : Option Text
  pub latency_ms : Option ℕ
  pub ttfb_ms : Option ℕ
  pub failure : Option ProbeError

-- `HttpObservation::base` and `HttpObservation::with_failure`.
unfoldable pub base : SocketAddr → Text → Text → Text → HttpObservation
base destination host method path = record {
  destination = destination;
  host = host;
  method = method;
  path = path;
  tls = none;
  protocol = none;
  status = none;
  location = none;
  headers = [];
  body_bytes = none;
  body_capped = false;
  body_snippet = none;
  latency_ms = none;
  ttfb_ms = none;
  failure = none;
}

unfoldable pub with_failure : HttpObservation → ProbeError → HttpObservation
with_failure o e = record o { failure = some e }

pub record FailureCount : Type 0 where
  pub kind : FailureKind
  pub count : ℕ

pub record StatusCount : Type 0 where
  pub status : ℕ
  pub count : ℕ

-- `F` is the type of the success rate.
pub record ProbeResult (F : Type 0) : Type 0 where
  pub destination : SocketAddr
  pub attempts : ℕ
  pub successes : ℕ
  pub failures : ℕ
  pub success_rate : F
  pub latency : LatencySummary
  pub ttfb : LatencySummary
  pub failure_counts : List FailureCount
  pub status_counts : List StatusCount
