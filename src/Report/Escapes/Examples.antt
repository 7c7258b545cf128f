-- ===== src/Report/Escapes/Examples.antt =====
-- Escapes of the terminal in what a server sends.
use ip_tools.Base.{◌≡◌, refl, true, false, any, [], ◌∷◌, Text, is_control_byte}
use ip_tools.Model.{DnsRecord}
use ip_tools.Report.Escapes.{esc_present, show_record}
use ip_tools.Report.Escapes.Printable.{
  has_control, esc_present-printable, show_record-printable, show_record-caa_tag,
}

-- `ESC [ 3 1 m`, and the control sequence introducer, U+009B.
abbrev hostile : Text
hostile = 27 ∷ b'[' ∷ b'3' ∷ b'1' ∷ b'm' ∷ 0xC2 ∷ 0x9B ∷ []

abbrev issue : Text
issue = b'i' ∷ b's' ∷ b's' ∷ b'u' ∷ b'e' ∷ []

-- In place of the `{:?}` of Rust.
abbrev shown : Text → Text
shown s = []

esc_present-printable_example : has_control (esc_present hostile) ≡ false
esc_present-printable_example = esc_present-printable hostile

show_record-printable_example :
    has_control (show_record esc_present (DnsRecord.caa 0 issue hostile)) ≡ false
unfolding has_control
show_record-printable_example =
    show_record-printable esc_present (DnsRecord.caa 0 issue hostile) esc_present-printable refl

txt_test : has_control (show_record esc_present (DnsRecord.txt hostile)) ≡ false
txt_test = show_record-printable esc_present (DnsRecord.txt hostile) esc_present-printable tt

aaaa_test : has_control (show_record esc_present (DnsRecord.aaaa 1)) ≡ false
aaaa_test = show_record-printable esc_present (DnsRecord.aaaa 1) esc_present-printable tt

show_record-caa_tag_example :
    any is_control_byte (show_record shown (DnsRecord.caa 0 hostile issue)) ≡ true
show_record-caa_tag_example = show_record-caa_tag shown 0 hostile issue refl
