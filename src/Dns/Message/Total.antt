-- ===== src/Dns/Message/Total.antt =====
-- `parse_dns_response` on arbitrary bytes.
pub mod Record
use ip_tools.Base.{
  ℕ, zero, suc, ◌+◌, ◌*◌, ◌-◌, ◌≤◌, ◌<◌, ◌≡◌, refl, sym, Bool, true, false, ◌&&◌, ◌||◌, List, [],
  ◌∷◌, ◌++◌, Option, none, some, All, All-append, is_none, is_some, is_empty, ltb, leb, ◌==◌,
  nat_eq, if◌then◌else◌, arith, Bytes, length, ◌%◌,
}
use ip_tools.Model.{DnsRecordType, DnsRecord}
use ip_tools.Dns.Outcome.{
  Settles, settled, failed, Anything, bind-Settles, if-Settles, reject-Settles, index-Settles,
  slice-Settles, weaken, ok, short_header, truncated_answer, truncated_rdata,
}
use ip_tools.Dns.Name.Total.{skip_name-Settles}
use ip_tools.Dns.Message.{
  ParsedDnsResponse, Answers, no_answers, push, is_wanted, note_ttl, read_answer, read_answers,
  skip_questions, parse_dns_response,
}
use Record.{record_type, Decoded, be16-Settles, be32-Settles, decode_record-Settles}

-- What holds of the answers read so far: each record is of the wanted type, and a record found
-- has set the time to live.
abbrev Sound : DnsRecordType → List DnsRecord → Option ℕ → Type 0
Sound want recs ttl =
    All (λ rec. record_type rec ≡ want) recs × (is_empty recs || is_some ttl ≡ true)

not_none-is_some : (ttl : Option ℕ) → is_none ttl ≡ false → is_some ttl ≡ true
not_none-is_some none e = sym e
not_none-is_some (some t) e = refl

push-Sound :
    (want : DnsRecordType) (rtype : ℕ) (recs : List DnsRecord) (ttl ttl' : Option ℕ)
    (rec : Option DnsRecord)
    → Sound want recs ttl
    → Decoded want rtype rec
    → (is_wanted want rtype ≡ true → is_some ttl' ≡ true)
    → (is_some ttl ≡ true → is_some ttl' ≡ true)
    → Sound want (push recs rec) ttl'
unfolding push
push-Sound want rtype recs ttl ttl' none (h, i) d set kept = (h, ground (arith, kept))
push-Sound want rtype recs ttl ttl' (some rec) (h, i) (d, w) set kept =
    (All-append _ recs (rec ∷ []) h (d, tt), ground (arith, set w))

module _ (bytes : Bytes) where
  skip_questions-Settles : (n pos : ℕ) → Settles Anything (skip_questions bytes n pos)
  unfolding skip_questions
  skip_questions-Settles zero pos = settled tt
  skip_questions-Settles (suc n) pos =
      bind-Settles _ (skip_name-Settles bytes pos) λ end h. skip_questions-Settles n (end + 4)

  module _ (want : DnsRecordType) where
    note_ttl-Settles :
        (rtype : ℕ) (ttl : Option ℕ) (pos : ℕ)
        → pos + 10 ≤ length bytes
        → Settles
            (λ t.
              (is_wanted want rtype ≡ true → is_some t ≡ true)
              × (is_some ttl ≡ true → is_some t ≡ true))
            (note_ttl bytes want rtype ttl pos)
    unfolding note_ttl
    note_ttl-Settles rtype ttl pos h =
        if-Settles (is_wanted want rtype && is_none ttl) _ _
          (λ e.
            bind-Settles _ (be32-Settles bytes (pos + 4) (omega arith))
              λ t _. settled ((λ _. refl), (λ _. refl)))
          (λ e. settled ((λ w. not_none-is_some ttl (ground (arith, e, w))), (λ k. k)))

    read_answer-Settles :
        (acc : Answers) (start : ℕ)
        → Sound want acc.recs acc.first_ttl
        → Settles (λ r. Sound want r.0.recs r.0.first_ttl) (read_answer bytes want acc start)
    unfolding read_answer
    read_answer-Settles acc start h = bind-Settles _ (skip_name-Settles bytes start) λ pos _.
        bind-Settles _ (reject-Settles (ltb (length bytes) (pos + 10)) truncated_answer) λ _ fits.
          bind-Settles _ (be16-Settles bytes pos (ground (arith, fits))) λ rtype _.
            bind-Settles _ (note_ttl-Settles rtype acc.first_ttl pos (ground (arith, fits)))
              λ ttl t.
                bind-Settles _ (be16-Settles bytes (pos + 8) (ground (arith, fits))) λ rdlen _.
                  bind-Settles _
                    (reject-Settles (ltb (length bytes) (pos + 10 + rdlen)) truncated_rdata)
                    λ _ room.
                      bind-Settles _
                        (slice-Settles bytes (pos + 10) (pos + 10 + rdlen) (omega arith)
                          (ground (arith, room)))
                        λ rdata l.
                          bind-Settles _
                            (decode_record-Settles bytes want rtype rdlen rdata (pos + 10)
                              (omega arith))
                            λ rec d.
                              settled
                                (push-Sound want rtype acc.recs acc.first_ttl ttl rec h d t.0 t.1)

    read_answers-Settles :
        (n : ℕ) (acc : Answers) (pos : ℕ)
        → Sound want acc.recs acc.first_ttl
        → Settles (λ a. Sound want a.recs a.first_ttl) (read_answers bytes want n acc pos)
    unfolding read_answers
    read_answers-Settles zero acc pos h = settled h
    read_answers-Settles (suc n) acc pos h =
        bind-Settles _ (read_answer-Settles acc pos h) λ r k. read_answers-Settles n r.0 r.1 k

-- On any bytes whatever, `parse_dns_response` gives a response or an error: it never panics, and
-- its walk over names always ends. In a response every record is of the type that was asked for, a
-- response with a record has a time to live, and the code is a number of four bits.
pub parse_dns_response-Settles :
    (bytes : Bytes) (want : DnsRecordType)
    → Settles
        (λ r.
          All (λ rec. record_type rec ≡ want) r.records
          × (is_empty r.records || is_some r.ttl ≡ true)
          × (r.rcode < 16))
        (parse_dns_response bytes want)
unfolding parse_dns_response
parse_dns_response-Settles bytes want =
    bind-Settles _ (reject-Settles (ltb (length bytes) 12) short_header) λ _ h.
      bind-Settles _ (index-Settles bytes 3 (ground (arith, h))) λ flags _.
        bind-Settles _ (be16-Settles bytes 4 (ground (arith, h))) λ qdcount _.
          bind-Settles _ (be16-Settles bytes 6 (ground (arith, h))) λ ancount _.
            bind-Settles _ (skip_questions-Settles bytes qdcount 12) λ pos _.
              bind-Settles _ (read_answers-Settles bytes want ancount no_answers pos (tt, refl))
                λ acc s. settled (s.0, s.1, omega arith)
