-- ===== src/Cli/Diagnose/Examples.antt =====
-- The full report of a sample diagnosis.
use ip_tools.Base.{ℕ, ◌≡◌, refl, true, false, none, [], ◌∷◌, concat, text_beq}
use ip_tools.Base.Tests.{naturals}
use ip_tools.Style.{plain, paint}
use ip_tools.Style.Stripped.{strip_escapes}
use ip_tools.Report.Samples.{
  host, shown, coloured, connected, refused, shaken, answered, looked_up, probed, verdict,
}
use ip_tools.Report.Observations.{render_dns}
use ip_tools.Report.Handshakes.{render_tcp, render_tls}
use ip_tools.Report.Http.{render_http_plain}
use ip_tools.Report.Repeats.{render_probe}
use ip_tools.Report.Diagnoses.{render_diagnoses}
use ip_tools.Cli.Diagnose.{DiagnoseReport, render_human}
use ip_tools.Cli.Diagnose.Stripped.{render_human-strip}

abbrev sample : DiagnoseReport ℕ
sample = record {
  target = host;
  diagnoses = verdict ∷ [];
  dns = looked_up ∷ [];
  tcp = connected ∷ refused ∷ [];
  tls = shaken ∷ [];
  http = answered ∷ [];
  probes = probed ∷ [];
}

render_human-strip_example :
    strip_escapes false (render_human naturals shown none sample coloured true)
    ≡ render_human naturals shown none sample plain true
unfolding render_human concat text_beq paint render_dns render_tcp render_tls render_http_plain
    render_probe render_diagnoses
render_human-strip_example = render_human-strip naturals shown none sample coloured true refl
