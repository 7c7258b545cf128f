-- ===== src/Cli/Diagnose/Stripped.antt =====
-- src/cli/diagnose.rs and src/style.rs: colours are all that a style adds to the full report.
use ip_tools.Base.{ℕ, ◌≡◌, Bool, true, false, Option, List, all, Text, Float, if◌then◌else◌}
use ip_tools.Style.{Style, plain}
use ip_tools.Style.Stripped.{strip_escapes, no_escape, stripped, Recoloured, pieces, ◌&◌}
use ip_tools.Report.Http.{render_http, render_http_plain}
use ip_tools.Report.Stripped.Handshakes.{render_tcp-Recoloured, render_tls-Recoloured}
use ip_tools.Report.Stripped.Http.{render_http_impl-Recoloured, render_dns-Recoloured}
use ip_tools.Report.Stripped.Repeats.{render_probe-Recoloured, render_diagnoses-Recoloured}
use ip_tools.Model.{HttpObservation}
use ip_tools.Cli.Diagnose.{DiagnoseReport, render_human}

http-Recoloured :
    (now : Option ℕ) (style : Style) (cleartext : Bool) (http : List HttpObservation)
    → Recoloured
        (if cleartext then render_http_plain now style http else render_http now style http)
        (if cleartext then render_http_plain now plain http else render_http now plain http)
unfolding render_http render_http_plain
http-Recoloured now style true http = render_http_impl-Recoloured now style true http
http-Recoloured now style false http = render_http_impl-Recoloured now style false http

-- Without its escape sequences the full report of a diagnosis, in any style, is the plain report, if
-- the plain one has no escape byte.
pub render_human-strip :
    (fl : Float) (debug : Text → Text) (now : Option ℕ) (report : DiagnoseReport fl.F)
    (style : Style) (cleartext : Bool)
    → all no_escape (render_human fl debug now report plain cleartext) ≡ true
    → strip_escapes false (render_human fl debug now report style cleartext)
      ≡ render_human fl debug now report plain cleartext
unfolding render_human
render_human-strip fl debug now report style cleartext h =
    let recoloured : Recoloured (render_human fl debug now report style cleartext)
        (render_human fl debug now report plain cleartext) =
      pieces _ _ (
        render_dns-Recoloured debug style report.target report.dns
        & render_tcp-Recoloured style report.tcp
        & render_tls-Recoloured now style report.tls
        & http-Recoloured now style cleartext report.http
        & render_probe-Recoloured style fl report.probes
        & render_diagnoses-Recoloured style report.diagnoses
        & tt) in
    stripped _ _ recoloured h
