-- ===== src/Report/Stripped/Handshakes.antt =====
-- src/report.rs: the reports of connections and handshakes, and the summary of a certificate, differ
-- by colours alone.
use ip_tools.Base.{
  ℕ, refl, Bool, Bool-cases, inl, inr, ◌&&◌, ◌||◌, Option, none, some, List, [], Text, ℤ, pos,
  ltb_ℤ, leb_ℤ,
}
use ip_tools.Model.{TcpObservation, TlsObservation, CertificateSummary}
use ip_tools.Style.{Style, plain}
use ip_tools.Style.Stripped.{Recoloured, same, painted, rows, pieces, ◌&◌}
use ip_tools.Report.Lifetime.{
  days_until_from_rfc3339, rfc3339_is_in_past, render_cert_expiry_window_days,
}
use ip_tools.Report.Coverage.{cert_covers_hostname}
use ip_tools.Report.Certificates.{days_left, is_today, lifetime, render_cert, covers}
use ip_tools.Report.Handshakes.{
  tcp_status, tcp_row, render_tcp, dest_w, cert_rows, tls_details, tls_block, render_tls,
}

tcp_status-Recoloured :
    (style : Style) (obs : TcpObservation)
    → Recoloured (tcp_status style obs) (tcp_status plain obs)
unfolding tcp_status
tcp_status-Recoloured style obs = elim (Bool-cases obs.success) [
  | inl e ↦ rw e (painted style _ _ refl)
  | inr e ↦ rw e (painted style _ _ refl)
]

tcp_row-Recoloured :
    (style : Style) (w : ℕ) (obs : TcpObservation)
    → Recoloured (tcp_row style w obs) (tcp_row plain w obs)
unfolding tcp_row
tcp_row-Recoloured style w obs =
    pieces _ _ (same _ & same _ & same _ & tcp_status-Recoloured style obs & same _ & tt)

pub render_tcp-Recoloured :
    (style : Style) (obs : List TcpObservation)
    → Recoloured (render_tcp style obs) (render_tcp plain obs)
unfolding render_tcp
render_tcp-Recoloured style obs =
    pieces _ _ (same _ & rows _ _ obs (tcp_row-Recoloured style (dest_w obs)))

days_left-Recoloured :
    (style : Style) (passed : Bool) (days : ℤ)
    → Recoloured (days_left style passed days) (days_left plain passed days)
unfolding days_left
days_left-Recoloured style passed days =
    elim (Bool-cases (ltb_ℤ days (pos 0) || (is_today days && passed))) [
      | inl e ↦ rw e (painted style _ _ refl)
      | inr e ↦ rw e (elim (Bool-cases (is_today days)) [
        | inl f ↦ rw f (painted style _ _ refl)
        | inr f ↦ rw f (elim (Bool-cases (leb_ℤ days (pos render_cert_expiry_window_days))) [
          | inl g ↦ rw g (painted style _ _ refl)
          | inr g ↦ rw g (same [])
        ])
      ])
    ]

pub covers-Recoloured :
    (style : Style) (sni : Text) (sans : List Text)
    → Recoloured (covers style sni sans) (covers plain sni sans)
unfolding covers
covers-Recoloured style sni sans = elim (Bool-cases (cert_covers_hostname sni sans)) [
  | inl e ↦ rw e (painted style _ _ refl)
  | inr e ↦ rw e (painted style _ _ refl)
]

module _ (now : Option ℕ) (style : Style) where
  days-Recoloured :
      (passed : Bool) (days : Option ℤ)
      → Recoloured
          (elim days [ none ↦ [] | some d ↦ days_left style passed d ])
          (elim days [ none ↦ [] | some d ↦ days_left plain passed d ])
  days-Recoloured passed none = same []
  days-Recoloured passed (some d) = days_left-Recoloured style passed d

  lifetime-Recoloured :
      (after : Option Text) → Recoloured (lifetime now style after) (lifetime now plain after)
  unfolding lifetime
  lifetime-Recoloured none = same []
  lifetime-Recoloured (some after) =
      days-Recoloured (rfc3339_is_in_past now after) (days_until_from_rfc3339 now after)

  render_cert-Recoloured :
      (cert : CertificateSummary)
      → Recoloured (render_cert now style cert) (render_cert now plain cert)
  unfolding render_cert
  render_cert-Recoloured cert =
      pieces _ _
        (same _ & same _ & same _ & same _ & lifetime-Recoloured cert.not_after_utc & same _ & tt)

  pub cert_rows-Recoloured :
      (sni : Text) (cert : Option CertificateSummary)
      → Recoloured (cert_rows now style sni cert) (cert_rows now plain sni cert)
  unfolding cert_rows
  cert_rows-Recoloured sni none = same []
  cert_rows-Recoloured sni (some cert) = pieces _ _ (
      same _
      & render_cert-Recoloured cert
      & same _
      & same _
      & same _
      & same _
      & covers-Recoloured style sni cert.sans
      & same _
      & tt)

  tls_details-Recoloured :
      (obs : TlsObservation) → Recoloured (tls_details now style obs) (tls_details now plain obs)
  unfolding tls_details
  tls_details-Recoloured obs = elim (Bool-cases obs.success) [
    | inl e ↦ rw e (
        pieces _ _ (
          same _
          & same _
          & same _
          & same _
          & same _
          & cert_rows-Recoloured obs.sni obs.certificate
          & same _
          & same _
          & same _
          & tt))
    | inr e ↦ rw e (pieces _ _ (same _ & painted style _ _ refl & same _ & tt))
  ]

  tls_block-Recoloured :
      (obs : TlsObservation) → Recoloured (tls_block now style obs) (tls_block now plain obs)
  unfolding tls_block
  tls_block-Recoloured obs =
      pieces _ _ (same _ & same _ & same _ & same _ & tls_details-Recoloured obs & tt)

  pub render_tls-Recoloured :
      (obs : List TlsObservation) → Recoloured (render_tls now style obs) (render_tls now plain obs)
  unfolding render_tls
  render_tls-Recoloured obs = pieces _ _ (same _ & rows _ _ obs tls_block-Recoloured)
