-- ===== src/Dns/Message.antt =====
-- src/dns.rs: `parse_dns_response`, `read_txt` and `rcode_name`. Every index and slice of the source
-- is one that can panic here too.
pub mod Total
use ip_tools.Base.{
  ℕ, zero, suc, ◌+◌, ◌*◌, ◌%◌, ◌≡◌, refl, Bool, true, false, ◌&&◌, ◌||◌, List, [], ◌∷◌, ◌++◌,
  Option, none, some, ◌==◌, nat_eq, ltb, leb, if◌then◌else◌, is_none, Bytes, Text, text, decimal,
  length, drop, from_utf8_lossy,
}
use ip_tools.Model.{DnsRecordType, DnsRecord}
use ip_tools.Dns.Outcome.{
  Outcome, ok, err, panic, diverged, ◌>>=◌, index, slice, reject, short_header, truncated_answer,
  truncated_rdata, truncated_soa, truncated_caa, truncated_txt,
}
use ip_tools.Dns.Name.{skip_name, read_name}

unfoldable pub rcode_name : ℕ → Text
rcode_name zero = text "NoError"
rcode_name (suc zero) = text "FormErr"
rcode_name (suc (suc zero)) = text "ServFail"
rcode_name (suc (suc (suc zero))) = text "NXDomain"
rcode_name (suc (suc (suc (suc zero)))) = text "NotImp"
rcode_name (suc (suc (suc (suc (suc zero))))) = text "Refused"
rcode_name (suc (suc (suc (suc (suc (suc (suc (suc (suc zero))))))))) = text "NotAuth"
rcode_name _ = text "UnknownError"

pub record ParsedDnsResponse : Type 0 where
  pub rcode : ℕ
  pub ttl : Option ℕ
  pub records : List DnsRecord
  pub saw_cname : Bool

-- A number of bytes, the highest first.
unfoldable pub from_be : ℕ → Bytes → ℕ
from_be n [] = n
from_be n (b ∷ bytes) = from_be (n * 256 + b) bytes

-- `u16::from_be_bytes([bytes[pos], bytes[pos + 1]])`.
unfoldable pub be16 : Bytes → ℕ → Outcome ℕ
be16 bytes pos = do high ← index bytes pos; low ← index bytes (pos + 1); ok (high * 256 + low)

-- `u32::from_be_bytes` of four bytes that are indexed one by one.
unfoldable pub be32 : Bytes → ℕ → Outcome ℕ
unfolding be16
be32 bytes pos = do high ← be16 bytes pos; low ← be16 bytes (pos + 2); ok (high * 65536 + low)

-- `try_into` an array of `n` bytes, and `expect`.
unfoldable pub expect_array : ℕ → Bytes → Outcome ℕ
unfolding from_be
expect_array n bytes = if length bytes == n then ok (from_be 0 bytes) else panic

unfoldable pub is_wanted : DnsRecordType → ℕ → Bool
is_wanted DnsRecordType.a rtype = rtype == 1
is_wanted DnsRecordType.aaaa rtype = rtype == 28
is_wanted DnsRecordType.cname rtype = rtype == 5
is_wanted DnsRecordType.ns rtype = rtype == 2
is_wanted DnsRecordType.ptr rtype = rtype == 12
is_wanted DnsRecordType.mx rtype = rtype == 15
is_wanted DnsRecordType.txt rtype = rtype == 16
is_wanted DnsRecordType.soa rtype = rtype == 6
is_wanted DnsRecordType.caa rtype = rtype == 257
is_wanted DnsRecordType.srv rtype = rtype == 33

-- The loop of `read_txt`; `fuel` is more than the bytes left.
unfoldable pub read_txt_from :
    (fuel : ℕ) → (rdata : Bytes) → (off : ℕ) → (out : Text) → Outcome Text
read_txt_from zero rdata off out = diverged
read_txt_from (suc fuel) rdata off out =
    let one : Outcome Text = (do
      len ← index rdata off
      checked ← reject (ltb (length rdata) (off + 1 + len)) truncated_txt
      part ← slice rdata (off + 1) (off + 1 + len)
      read_txt_from fuel rdata (off + 1 + len) (out ++ from_utf8_lossy part)) in
    if ltb off (length rdata) then one else ok out

unfoldable pub read_txt : Bytes → Outcome Text
unfolding read_txt_from
read_txt rdata = read_txt_from (suc (length rdata)) rdata 0 []

unfoldable pub soa_text : Text → Text → (serial refresh retry expire minimum : ℕ) → Text
soa_text mname rname serial refresh retry expire minimum =
    mname
    ++ text " "
    ++ rname
    ++ text " serial "
    ++ decimal serial
    ++ text " refresh "
    ++ decimal refresh
    ++ text " retry "
    ++ decimal retry
    ++ text " expire "
    ++ decimal expire
    ++ text " minimum "
    ++ decimal minimum

-- `field(i)`: the four bytes at `p2 + 4 i`.
unfoldable pub soa_field : Bytes → ℕ → Outcome ℕ
unfolding expect_array
soa_field bytes at = do four ← slice bytes at (at + 4); expect_array 4 four

unfoldable pub read_soa : Bytes → ℕ → Outcome DnsRecord
unfolding soa_field
read_soa bytes start = do
  (mname, p1) ← read_name bytes start
  (rname, p2) ← read_name bytes p1
  checked ← reject (ltb (length bytes) (p2 + 20)) truncated_soa
  serial ← soa_field bytes p2
  refresh ← soa_field bytes (p2 + 4)
  retry ← soa_field bytes (p2 + 8)
  expire ← soa_field bytes (p2 + 12)
  minimum ← soa_field bytes (p2 + 16)
  ok (DnsRecord.soa (soa_text mname rname serial refresh retry expire minimum))

unfoldable pub read_caa : Bytes → Outcome DnsRecord
read_caa rdata = do
  flags ← index rdata 0
  tag_len ← index rdata 1
  checked ← reject (ltb (length rdata) (2 + tag_len)) truncated_caa
  tag ← slice rdata 2 (2 + tag_len)
  value ← slice rdata (2 + tag_len) (length rdata)
  ok (DnsRecord.caa flags (from_utf8_lossy tag) (from_utf8_lossy value))

-- The record of one answer. The source matches on `rtype` and guards each arm by `want`, so an
-- answer of another type than the wanted one gives none.
unfoldable pub decode_record :
    (bytes : Bytes)
    → (want : DnsRecordType) → (rtype rdlen : ℕ) → (rdata : Bytes) → (rdata_start : ℕ)
    → Outcome (Option DnsRecord)
unfolding read_txt read_soa read_caa be16 expect_array
decode_record bytes DnsRecordType.a rtype rdlen rdata start =
    if rtype == 1 && rdlen == 4
    then (do
      b0 ← index rdata 0
      b1 ← index rdata 1
      b2 ← index rdata 2
      b3 ← index rdata 3
      ok (some (DnsRecord.a (from_be 0 (b0 ∷ b1 ∷ b2 ∷ b3 ∷ [])))))
    else ok none
decode_record bytes DnsRecordType.aaaa rtype rdlen rdata start =
    if rtype == 28 && rdlen == 16
    then (do ip ← expect_array 16 rdata; ok (some (DnsRecord.aaaa ip)))
    else ok none
decode_record bytes DnsRecordType.cname rtype rdlen rdata start =
    if rtype == 5
    then (do (name, p) ← read_name bytes start; ok (some (DnsRecord.cname name)))
    else ok none
decode_record bytes DnsRecordType.ns rtype rdlen rdata start =
    if rtype == 2
    then (do (name, p) ← read_name bytes start; ok (some (DnsRecord.ns name)))
    else ok none
decode_record bytes DnsRecordType.ptr rtype rdlen rdata start =
    if rtype == 12
    then (do (name, p) ← read_name bytes start; ok (some (DnsRecord.ptr name)))
    else ok none
decode_record bytes DnsRecordType.mx rtype rdlen rdata start =
    if rtype == 15 && leb 3 rdlen
    then (do
      preference ← be16 rdata 0
      (exchange, p) ← read_name bytes (start + 2)
      ok (some (DnsRecord.mx preference exchange)))
    else ok none
decode_record bytes DnsRecordType.txt rtype rdlen rdata start =
    if rtype == 16
    then (do content ← read_txt rdata; ok (some (DnsRecord.txt content)))
    else ok none
decode_record bytes DnsRecordType.soa rtype rdlen rdata start =
    if rtype == 6 then (do rec ← read_soa bytes start; ok (some rec)) else ok none
decode_record bytes DnsRecordType.caa rtype rdlen rdata start =
    if rtype == 257 && leb 2 rdlen then (do rec ← read_caa rdata; ok (some rec)) else ok none
decode_record bytes DnsRecordType.srv rtype rdlen rdata start =
    if rtype == 33 && leb 6 rdlen
    then (do
      priority ← be16 rdata 0
      weight ← be16 rdata 2
      port ← be16 rdata 4
      (target, p) ← read_name bytes (start + 6)
      ok (some (DnsRecord.srv priority weight port target)))
    else ok none

-- What the loop over the answers carries: `recs`, `first_ttl` and `saw_cname`.
pub record Answers : Type 0 where
  pub recs : List DnsRecord
  pub first_ttl : Option ℕ
  pub saw_cname : Bool

abbrev pub no_answers : Answers
no_answers = record { recs = []; first_ttl = none; saw_cname = false }

unfoldable pub push : List DnsRecord → Option DnsRecord → List DnsRecord
push recs none = recs
push recs (some rec) = recs ++ (rec ∷ [])

module _ (bytes : Bytes) where
  unfoldable pub skip_questions : (qdcount pos : ℕ) → Outcome ℕ
  skip_questions zero pos = ok pos
  skip_questions (suc n) pos = do end ← skip_name bytes pos; skip_questions n (end + 4)

  module _ (want : DnsRecordType) where
    -- `first_ttl` after an answer whose fixed fields start at `pos`.
    unfoldable pub note_ttl : ℕ → Option ℕ → (pos : ℕ) → Outcome (Option ℕ)
    unfolding be32 is_wanted
    note_ttl rtype ttl pos =
        if is_wanted want rtype && is_none ttl
        then (do t ← be32 bytes (pos + 4); ok (some t))
        else ok ttl

    -- One answer, and the position behind it.
    unfoldable pub read_answer : Answers → ℕ → Outcome (Answers × ℕ)
    unfolding note_ttl be16 decode_record push
    read_answer acc start = do
      pos ← skip_name bytes start
      checked ← reject (ltb (length bytes) (pos + 10)) truncated_answer
      rtype ← be16 bytes pos
      ttl ← note_ttl rtype acc.first_ttl pos
      rdlen ← be16 bytes (pos + 8)
      room ← reject (ltb (length bytes) (pos + 10 + rdlen)) truncated_rdata
      rdata ← slice bytes (pos + 10) (pos + 10 + rdlen)
      rec ← decode_record bytes want rtype rdlen rdata (pos + 10)
      let acc' : Answers = record {
        recs = push acc.recs rec;
        first_ttl = ttl;
        saw_cname = rtype == 5 || acc.saw_cname;
      }
      ok (acc', pos + 10 + rdlen)

    unfoldable pub read_answers : (ancount : ℕ) → Answers → (pos : ℕ) → Outcome Answers
    unfolding read_answer
    read_answers zero acc pos = ok acc
    read_answers (suc n) acc pos = do (next, end) ← read_answer acc pos; read_answers n next end

    unfoldable pub parse_dns_response : Outcome ParsedDnsResponse
    unfolding be16 skip_questions read_answers
    parse_dns_response = (do
      checked ← reject (ltb (length bytes) 12) short_header
      flags ← index bytes 3
      qdcount ← be16 bytes 4
      ancount ← be16 bytes 6
      pos ← skip_questions qdcount 12
      acc ← read_answers ancount no_answers pos
      ok (record {
        rcode = flags % 16;
        ttl = acc.first_ttl;
        records = acc.recs;
        saw_cname = acc.saw_cname;
      }))
