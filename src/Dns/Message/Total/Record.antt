-- ===== src/Dns/Message/Total/Record.antt =====
-- One record of a response on arbitrary bytes.
use ip_tools.Base.{
  ℕ, zero, suc, ◌+◌, ◌≤◌, ◌<◌, ◌≡◌, refl, true, ◌&&◌, [], ◌++◌, Option, none, some, ltb, leb, ◌==◌,
  nat_eq, arith, Bytes, Text, length, from_utf8_lossy,
}
use ip_tools.Model.{DnsRecordType, DnsRecord}
use ip_tools.Dns.Outcome.{
  ◌>>=◌, Settles, settled, Anything, bind-Settles, if-Settles, reject-Settles, index-Settles,
  slice-Settles, ok, truncated_soa, truncated_caa, truncated_txt,
}
use ip_tools.Dns.Name.{read_name}
use ip_tools.Dns.Name.Total.{read_name-Settles}
use ip_tools.Dns.Message.{
  be16, be32, expect_array, is_wanted, read_txt_from, read_txt, soa_field, read_soa, read_caa,
  decode_record,
}

-- The type that a record is of.
abbrev pub record_type : DnsRecord → DnsRecordType
record_type (DnsRecord.a ip) = DnsRecordType.a
record_type (DnsRecord.aaaa ip) = DnsRecordType.aaaa
record_type (DnsRecord.cname name) = DnsRecordType.cname
record_type (DnsRecord.mx preference exchange) = DnsRecordType.mx
record_type (DnsRecord.txt content) = DnsRecordType.txt
record_type (DnsRecord.ns name) = DnsRecordType.ns
record_type (DnsRecord.soa content) = DnsRecordType.soa
record_type (DnsRecord.caa flags tag value) = DnsRecordType.caa
record_type (DnsRecord.srv priority weight port target) = DnsRecordType.srv
record_type (DnsRecord.ptr name) = DnsRecordType.ptr

-- A record comes from an answer of the wanted type, and is of that type.
abbrev pub Decoded : DnsRecordType → ℕ → Option DnsRecord → Type 0
Decoded want rtype none = Unit
Decoded want rtype (some rec) = (record_type rec ≡ want) × (is_wanted want rtype ≡ true)

pub be16-Settles :
    (bytes : Bytes) (pos : ℕ) → pos + 2 ≤ length bytes → Settles Anything (be16 bytes pos)
unfolding be16
be16-Settles bytes pos h =
    bind-Settles _ (index-Settles bytes pos (omega arith))
      λ high _. bind-Settles _ (index-Settles bytes (pos + 1) (omega arith)) λ low _. settled tt

pub be32-Settles :
    (bytes : Bytes) (pos : ℕ) → pos + 4 ≤ length bytes → Settles Anything (be32 bytes pos)
unfolding be32
be32-Settles bytes pos h =
    bind-Settles _ (be16-Settles bytes pos (omega arith))
      λ high _. bind-Settles _ (be16-Settles bytes (pos + 2) (omega arith)) λ low _. settled tt

expect_array-Settles :
    (n : ℕ) (bytes : Bytes) → length bytes ≡ n → Settles Anything (expect_array n bytes)
unfolding expect_array
expect_array-Settles n bytes h =
    if-Settles (length bytes == n) _ _ (λ e. settled tt) (λ e. absurd (ground (arith, e, h)))

read_txt_from-Settles :
    (fuel : ℕ) (rdata : Bytes) (off : ℕ) (out : Text)
    → 0 < fuel
    → length rdata < fuel + off
    → Settles Anything (read_txt_from fuel rdata off out)
unfolding read_txt_from
read_txt_from-Settles zero rdata off out h k = absurd (omega arith)
read_txt_from-Settles (suc fuel) rdata off out h k =
    if-Settles (ltb off (length rdata)) _ _
      (λ lt. bind-Settles _ (index-Settles rdata off (ground (arith, lt))) λ len _.
        bind-Settles _ (reject-Settles (ltb (length rdata) (off + 1 + len)) truncated_txt) λ _ fits.
          bind-Settles _
            (slice-Settles rdata (off + 1) (off + 1 + len) (omega arith) (ground (arith, fits)))
            λ part l.
              read_txt_from-Settles fuel rdata (off + 1 + len) (out ++ from_utf8_lossy part)
                (ground (arith, fits)) (omega arith))
      (λ e. settled tt)

-- `read_txt` gives a text or an error on any bytes.
pub read_txt-Settles : (rdata : Bytes) → Settles Anything (read_txt rdata)
unfolding read_txt
read_txt-Settles rdata =
    read_txt_from-Settles (suc (length rdata)) rdata 0 [] (omega arith) (omega arith)

soa_field-Settles :
    (bytes : Bytes) (at : ℕ) → at + 4 ≤ length bytes → Settles Anything (soa_field bytes at)
unfolding soa_field
soa_field-Settles bytes at h =
    bind-Settles _ (slice-Settles bytes at (at + 4) (omega arith) h)
      λ four l. expect_array-Settles 4 four (omega arith)

read_soa-Settles :
    (bytes : Bytes) (start : ℕ)
    → Settles (λ rec. record_type rec ≡ DnsRecordType.soa) (read_soa bytes start)
unfolding read_soa
read_soa-Settles bytes start = bind-Settles _ (read_name-Settles bytes start) λ m _.
    bind-Settles _ (read_name-Settles bytes m.1) λ r _.
      bind-Settles _ (reject-Settles (ltb (length bytes) (r.1 + 20)) truncated_soa) λ _ fits.
        bind-Settles _ (soa_field-Settles bytes r.1 (ground (arith, fits))) λ serial _.
          bind-Settles _ (soa_field-Settles bytes (r.1 + 4) (ground (arith, fits))) λ refresh _.
            bind-Settles _ (soa_field-Settles bytes (r.1 + 8) (ground (arith, fits))) λ retry _.
              bind-Settles _ (soa_field-Settles bytes (r.1 + 12) (ground (arith, fits))) λ expire _.
                bind-Settles _ (soa_field-Settles bytes (r.1 + 16) (ground (arith, fits)))
                  λ minimum _. settled refl

read_caa-Settles :
    (rdata : Bytes)
    → 2 ≤ length rdata
    → Settles (λ rec. record_type rec ≡ DnsRecordType.caa) (read_caa rdata)
unfolding read_caa
read_caa-Settles rdata h = bind-Settles _ (index-Settles rdata 0 (omega arith)) λ flags _.
    bind-Settles _ (index-Settles rdata 1 (omega arith)) λ n _.
      bind-Settles _ (reject-Settles (ltb (length rdata) (2 + n)) truncated_caa) λ _ fits.
        bind-Settles _ (slice-Settles rdata 2 (2 + n) (omega arith) (ground (arith, fits))) λ tag _.
          bind-Settles _
            (slice-Settles rdata (2 + n) (length rdata) (ground (arith, fits)) (omega arith))
            λ value _. settled refl

module _ (bytes : Bytes) where
  -- The arms that hold a name only.
  named-Settles :
      (want : DnsRecordType) (rtype start : ℕ) (mk : Text → DnsRecord)
      → is_wanted want rtype ≡ true
      → ((t : Text) → record_type (mk t) ≡ want)
      → Settles (Decoded want rtype) (do (name, p) ← read_name bytes start; ok (some (mk name)))
  named-Settles want rtype start mk w h =
      bind-Settles _ (read_name-Settles bytes start) λ r _. settled (h r.0, w)

  pub decode_record-Settles :
      (want : DnsRecordType) (rtype rdlen : ℕ) (rdata : Bytes) (start : ℕ)
      → length rdata ≡ rdlen
      → Settles (Decoded want rtype) (decode_record bytes want rtype rdlen rdata start)
  unfolding decode_record is_wanted
  decode_record-Settles DnsRecordType.a rtype rdlen rdata start l =
      if-Settles (rtype == 1 && rdlen == 4) _ _
        (λ e. bind-Settles _ (index-Settles rdata 0 (ground (arith, e))) λ _ _.
          bind-Settles _ (index-Settles rdata 1 (ground (arith, e))) λ _ _.
            bind-Settles _ (index-Settles rdata 2 (ground (arith, e))) λ _ _.
              bind-Settles _ (index-Settles rdata 3 (ground (arith, e)))
                λ _ _. settled (refl, ground (arith, e)))
        (λ e. settled tt)
  decode_record-Settles DnsRecordType.aaaa rtype rdlen rdata start l =
      if-Settles (rtype == 28 && rdlen == 16) _ _
        (λ e.
          bind-Settles _ (expect_array-Settles 16 rdata (ground (arith, e)))
            λ _ _. settled (refl, ground (arith, e)))
        (λ e. settled tt)
  decode_record-Settles DnsRecordType.cname rtype rdlen rdata start l =
      if-Settles (rtype == 5) _ _
        (λ e. named-Settles DnsRecordType.cname rtype start DnsRecord.cname e (λ t. refl))
        (λ e. settled tt)
  decode_record-Settles DnsRecordType.ns rtype rdlen rdata start l =
      if-Settles (rtype == 2) _ _
        (λ e. named-Settles DnsRecordType.ns rtype start DnsRecord.ns e (λ t. refl))
        (λ e. settled tt)
  decode_record-Settles DnsRecordType.ptr rtype rdlen rdata start l =
      if-Settles (rtype == 12) _ _
        (λ e. named-Settles DnsRecordType.ptr rtype start DnsRecord.ptr e (λ t. refl))
        (λ e. settled tt)
  decode_record-Settles DnsRecordType.mx rtype rdlen rdata start l =
      if-Settles (rtype == 15 && leb 3 rdlen) _ _
        (λ e. bind-Settles _ (be16-Settles rdata 0 (ground (arith, e))) λ preference _.
          named-Settles DnsRecordType.mx rtype (start + 2) (DnsRecord.mx preference)
            (ground (arith, e)) (λ t. refl))
        (λ e. settled tt)
  decode_record-Settles DnsRecordType.txt rtype rdlen rdata start l =
      if-Settles (rtype == 16) _ _
        (λ e. bind-Settles _ (read_txt-Settles rdata) λ content _. settled (refl, e))
        (λ e. settled tt)
  decode_record-Settles DnsRecordType.soa rtype rdlen rdata start l =
      if-Settles (rtype == 6) _ _
        (λ e. bind-Settles _ (read_soa-Settles bytes start) λ rec h. settled (h, e))
        (λ e. settled tt)
  decode_record-Settles DnsRecordType.caa rtype rdlen rdata start l =
      if-Settles (rtype == 257 && leb 2 rdlen) _ _
        (λ e.
          bind-Settles _ (read_caa-Settles rdata (ground (arith, e)))
            λ rec h. settled (h, ground (arith, e)))
        (λ e. settled tt)
  decode_record-Settles DnsRecordType.srv rtype rdlen rdata start l =
      if-Settles (rtype == 33 && leb 6 rdlen) _ _
        (λ e. bind-Settles _ (be16-Settles rdata 0 (ground (arith, e))) λ priority _.
          bind-Settles _ (be16-Settles rdata 2 (ground (arith, e))) λ weight _.
            bind-Settles _ (be16-Settles rdata 4 (ground (arith, e))) λ port _.
              named-Settles DnsRecordType.srv rtype (start + 6) (DnsRecord.srv priority weight port)
                (ground (arith, e)) (λ t. refl))
        (λ e. settled tt)
