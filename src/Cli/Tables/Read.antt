-- ===== src/Cli/Tables/Read.antt =====
-- src/cli/{tcp,tls,http}.rs: the rows of an export are read back.
use ip_tools.Base.{
  ℕ, ◌≡◌, refl, Bool, true, false, Option, none, some, List, [], ◌∷◌, ◌++◌, map, concat, Text, text,
  split, trim_end_matches, Bool-cases, inl, inr,
}
use mathlib.Core.List.{flatten}
use ip_tools.Net.{show_addr}
use ip_tools.Model.{TcpObservation, TlsObservation, HttpObservation, CertificateSummary}
use ip_tools.Report.Coverage.{cert_covers_hostname}
use ip_tools.Cli.Csv.{csv_field, csv_row}
use ip_tools.Cli.Csv.RoundTrip.{begin}
use ip_tools.Cli.Csv.Table.{
  read_table, Reads, row-Reads, append-Reads, rows-Reads, all-Reads, csv_field-decimal,
}
use ip_tools.Cli.Tables.{
  opt, unwrap_or_empty, failure_kind, flag, subject_of, issuer_of, not_after_of, sans_of, covers_of,
  tcp_header, tls_header, http_header, tcp_cells, render_tcp_csv, tls_cells, render_tls_csv,
  curated_headers_csv, sni_of, version_of, cipher_of, alpn_of, cert_of, http_cells, render_http_csv,
}

pub csv_field-opt : (o : Option ℕ) → csv_field (opt o) ≡ opt o
unfolding csv_field
csv_field-opt none = refl
csv_field-opt (some n) = csv_field-decimal n

pub csv_field-flag : (b : Bool) → csv_field (flag b) ≡ flag b
unfolding csv_field
csv_field-flag true = refl
csv_field-flag false = refl

csv_field-covers :
    (sni : Text) (cert : Option CertificateSummary)
    → csv_field (covers_of sni cert) ≡ covers_of sni cert
unfolding csv_field covers_of text
csv_field-covers sni none = refl
csv_field-covers sni (some c) = elim (Bool-cases (cert_covers_hostname sni c.sans)) [
  | inl e ↦ rw e refl
  | inr e ↦ rw e refl
]

-- A row whose cells are written fields.
pub cells-Reads :
    (cells : List Text) (f : Text) (fs : List Text)
    → cells ≡ map csv_field (f ∷ fs)
    → Reads (csv_row cells) ((f ∷ fs) ∷ [])
cells-Reads cells f fs e = rw e (row-Reads f fs)

-- The names in a header line, and the table of an export.
abbrev pub names : Text → List Text
names head = split b',' (trim_end_matches 10 head)

abbrev pub table {ℓ} :
    {A : Type ℓ} → Text → (Text → A → List Text) → List (Text × List A) → List (List Text)
table {A = A} head values per_target =
    names head
    ∷ flatten (map (λ (t : Text × List A). flatten (map (λ o. values t.0 o ∷ []) t.1)) per_target)

pub export-read {ℓ} :
    {A : Type ℓ} (head : Text) (cells values : Text → A → List Text)
    (per_target : List (Text × List A))
    → Reads head (names head ∷ [])
    → ((host : Text) (o : A) → Reads (csv_row (cells host o)) (values host o ∷ []))
    → read_table [] begin (
        head
        ++ concat
            (map (λ (t : Text × List A). concat (map (λ o. csv_row (cells t.0 o)) t.1)) per_target))
      ≡ some (table head values per_target)
export-read head cells values per_target h k = all-Reads _ _ (
    append-Reads head _ (names head ∷ []) _ h
      (rows-Reads _ _ per_target (λ t. rows-Reads _ _ t.1 (k t.0))))

-- The values of a row.
abbrev pub tcp_values : Text → TcpObservation → List Text
tcp_values host o =
    host ∷ show_addr o.destination ∷ flag o.success ∷ opt o.latency_ms ∷ failure_kind o.failure ∷ []

abbrev pub tls_values : Text → TlsObservation → List Text
tls_values host o =
    host
    ∷ show_addr o.destination
    ∷ o.sni
    ∷ flag o.success
    ∷ unwrap_or_empty o.version
    ∷ unwrap_or_empty o.cipher
    ∷ unwrap_or_empty o.alpn
    ∷ subject_of o.certificate
    ∷ issuer_of o.certificate
    ∷ not_after_of o.certificate
    ∷ sans_of o.certificate
    ∷ covers_of o.sni o.certificate
    ∷ opt o.latency_ms
    ∷ failure_kind o.failure
    ∷ []

abbrev pub http_values : Text → HttpObservation → List Text
http_values host o =
    host
    ∷ show_addr o.destination
    ∷ unwrap_or_empty o.protocol
    ∷ opt o.status
    ∷ unwrap_or_empty o.location
    ∷ opt o.body_bytes
    ∷ opt o.ttfb_ms
    ∷ opt o.latency_ms
    ∷ sni_of o.tls
    ∷ version_of o.tls
    ∷ cipher_of o.tls
    ∷ alpn_of o.tls
    ∷ subject_of (cert_of o.tls)
    ∷ issuer_of (cert_of o.tls)
    ∷ not_after_of (cert_of o.tls)
    ∷ sans_of (cert_of o.tls)
    ∷ covers_of (sni_of o.tls) (cert_of o.tls)
    ∷ curated_headers_csv o.headers
    ∷ unwrap_or_empty o.body_snippet
    ∷ failure_kind o.failure
    ∷ []

tcp_header-Reads : Reads tcp_header (names tcp_header ∷ [])
unfolding text read_table split trim_end_matches
tcp_header-Reads rest = refl

tls_header-Reads : Reads tls_header (names tls_header ∷ [])
unfolding text read_table split trim_end_matches
tls_header-Reads rest = refl

http_header-Reads : Reads http_header (names http_header ∷ [])
unfolding text read_table split trim_end_matches
http_header-Reads rest = refl

tcp_row-Reads :
    (host : Text) (o : TcpObservation) → Reads (csv_row (tcp_cells host o)) (tcp_values host o ∷ [])
unfolding tcp_cells
tcp_row-Reads host o = cells-Reads _ host _ (rw (csv_field-flag o.success) refl)

tls_row-Reads :
    (host : Text) (o : TlsObservation) → Reads (csv_row (tls_cells host o)) (tls_values host o ∷ [])
unfolding tls_cells
tls_row-Reads host o =
    cells-Reads _ host _ (rw (csv_field-flag o.success, csv_field-covers o.sni o.certificate) refl)

http_row-Reads :
    (host : Text) (o : HttpObservation)
    → Reads (csv_row (http_cells host o)) (http_values host o ∷ [])
unfolding http_cells
http_row-Reads host o =
    cells-Reads _ host _ (rw (csv_field-covers (sni_of o.tls) (cert_of o.tls)) refl)

-- A reader of RFC 4180 gets back the header and the values of every row from the exports of
-- connections, handshakes and HTTP observations, whatever the servers sent.
pub observation_exports-read :
    (tcp : List (Text × List TcpObservation)) (tls : List (Text × List TlsObservation))
    (http : List (Text × List HttpObservation))
    → (read_table [] begin (render_tcp_csv tcp) ≡ some (table tcp_header tcp_values tcp))
      × (read_table [] begin (render_tls_csv tls) ≡ some (table tls_header tls_values tls))
      × (read_table [] begin (render_http_csv http) ≡ some (table http_header http_values http))
unfolding render_tcp_csv render_tls_csv render_http_csv
observation_exports-read tcp tls http = (
  export-read tcp_header tcp_cells tcp_values tcp tcp_header-Reads tcp_row-Reads,
  export-read tls_header tls_cells tls_values tls tls_header-Reads tls_row-Reads,
  export-read http_header http_cells http_values http http_header-Reads http_row-Reads,
)
