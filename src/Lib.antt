-- ===== src/Lib.antt =====
-- A model of ip-tools, a network diagnostics tool, and of what its pure parts guarantee.
--
-- The program probes a host (DNS, TCP, TLS, HTTP, repeated attempts), collects the observations in
-- plain structs, and hands them to a deterministic engine of rules, whose verdicts it prints. The
-- probes are asynchronous network I/O. The engine, the statistics and the codecs are pure, and they
-- are what is modelled.
--
-- Base: Boolean tests, lists, texts, integers and maps as Rust's standard library has them. A text
--   is its UTF-8 bytes, and `from_utf8_lossy` is written out. `f64` is the parameter `Float`, for
--   the jitter and the success rate.
-- Net: `IpAddr` and `SocketAddr` of the standard library, with their order, display and parsing.
-- Model: src/model. FailureKind and ProbeError (Failure), verdicts (Verdict), observations
--   (Observation), resolvers and records (Dns), latency summaries (Latency).
-- Style: src/style.rs, the ANSI colours of the reports.
-- Report: src/report.rs. `days_from_civil`, `days_until_from_rfc3339`, `rfc3339_is_in_past`
--   (Lifetime) and `cert_covers_hostname` (Coverage), which the engine calls too; `esc_present`, the
--   display of DNS records and `sanitize_snippet` (Escapes); and the human reports: `render_dns`
--   (Observations), `render_tcp` and `render_tls` (Handshakes), `render_cert` (Certificates),
--   `render_http` (Http), `render_dns_repeat` and `render_probe` (Repeats), `render_route` and
--   `render_route_repeat` (Routes), `render_diagnoses` (Diagnoses), with what they share (Columns).
--   The system clock is the argument `now`. A `format!` is the list of its pieces under `concat`.
-- Diagnostics: src/diagnostics. `connectivity_rules` and `family_rules` (Connectivity), `dns_rules`
--   (Resolution), the rules of layer.rs (Layer), `filtering_rules` (Filtering), `diagnose` (Engine).
--   The source pushes to one vector `out`; a rule here is the list of what it pushes, and `findings`
--   appends these lists in the order of the calls.
-- Dns: the wire format of src/dns.rs. `read_name`, `skip_name`, `validate_name` (Name),
--   `parse_dns_response`, `read_txt` (Message), `build_query` (Query), `base64url` (Base64), and
--   the endpoints of encrypted resolvers, `parse_doh_url` and `parse_dot_endpoint` (Endpoint). An
--   `Outcome` is a value, an error, a panic, or fuel that ran out. The walk over labels has one more
--   unit of fuel than the message has bytes, and each label takes a byte; a pointer starts a new walk
--   and uses up one of nine hops, so the fuel is always enough.
--
-- Dns also has the repeated queries of src/dns.rs (Repeat): `aggregate_repeat`, and the grouping of
--   `resolve_repeat` over the rounds of answers.
--
-- Probe: src/probe.rs, `http_outcome` and `repeat_impl` over the outcomes of its attempts. The
--   iteration orders of its two hash maps are the parameters `kinds_of` and `statuses_of`, of which
--   the theorems ask only that they are permutations of the maps' entries.
-- Route: src/route.rs, `aggregate_runs` (Hops) and the parser of quoted ICMP packets (Reply).
-- Target: src/target.rs, `Target::parse` with its error messages.
-- Cli: src/cli. `csv_field` of src/cli/mod.rs (Csv), the CSV exports of the commands (Tables, and
--   Tables/Runs for repeated probes, traces, lookups and verdicts), the full report of
--   src/cli/diagnose.rs (Diagnose), the parsers of `--header`, `--method` and `--path` (Headers), and
--   `StatusSpec` and `Expectation` (Status). `parallel_map` is a step relation (Parallel): a step
--   spawns a task under a permit of the semaphore or ends one, and a run is a sequence of steps, so
--   that the runtime chooses the order; a task that panics has no value. `run_probe_flow` (Sweep, and
--   Sweep/Exit for its exit code) is a function of the orders in which the tasks of its two phases
--   ended; resolution, probes and printing are parameters. Rust's `{:?}` of a text, which messages
--   quote with, is the parameter `debug`; the names that serde gives the engine's enums are
--   parameters too.
-- Tls: `format_utc` of src/tls.rs, which writes the dates of a certificate for the report to read.
--   Its numbers are at least 0 once the time stamp is.
-- Http: the bounded response body of src/http_common.rs, `push_body_snippet` and `push_bounded_body`,
--   and the loop of src/http.rs over data frames (Body); `wire_host`, `uri_authority`,
--   `wire_authority`, `uri_authority_at` and `collect_response_headers` (Authority).
--
-- Not modelled: sockets, resolvers, TLS, HTTP and QUIC sessions, the rest of the command line (the
-- argument definitions, the flows of the commands dns, diagnose and route, the printing), and JSON.
-- Text in error messages of the wire format is a constructor of `WireError`.
pub mod Base
pub mod Net
pub mod Model
pub mod Report
pub mod Diagnostics
pub mod Dns
pub mod Http
pub mod Probe
pub mod Route
pub mod Target
pub mod Cli
pub mod Tls
pub mod Style
