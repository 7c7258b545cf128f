-- ===== src/Model/Dns.antt =====
-- src/model/dns.rs: resolvers, record types, records and observations.
use ip_tools.Base.{
  ℕ, Option, none, some, List, Text, Bool, true, false, ◌==◌, PartialEq, ◌≡◌, ◌↔◌, arith, text_eq,
  text_beq_iff, text, ◌++◌, zero, suc, refl, sym, ap, ◌∙◌, nat_eq, eq_of_beq, beq_refl,
}
use ip_tools.Net.{IpAddr, v4, v6, SocketAddr, show_addr, addr_eq, addr_beq_iff}
use ip_tools.Model.Failure.{ProbeError}

pub data ResolverKind : Type 0 where
  system : ResolverKind
  custom : SocketAddr → ResolverKind
  doh : Text → ResolverKind
  dot : Text → ResolverKind

abbrev pub resolver_beq : ResolverKind → ResolverKind → Bool
resolver_beq system system = true
resolver_beq (custom a) (custom b) = a == b
resolver_beq (doh a) (doh b) = a == b
resolver_beq (dot a) (dot b) = a == b
resolver_beq _ _ = false

pub resolver_beq_iff : (a b : ResolverKind) → (resolver_beq a b ≡ true) ↔ (a ≡ b)
resolver_beq_iff (custom a) (custom b) = ground (arith, addr_beq_iff a b)
resolver_beq_iff (doh a) (doh b) = ground (arith, text_beq_iff a b)
resolver_beq_iff (dot a) (dot b) = ground (arith, text_beq_iff a b)
resolver_beq_iff _ _ = ground arith

instance abbrev pub resolver_eq : PartialEq ResolverKind
resolver_eq = record { beq = resolver_beq; beq_iff = resolver_beq_iff }

pub data DnsRecordType : Type 0 where
  a aaaa cname mx txt ns soa caa srv ptr : DnsRecordType

abbrev pub type_index : DnsRecordType → ℕ
type_index DnsRecordType.a = 0
type_index DnsRecordType.aaaa = 1
type_index DnsRecordType.cname = 2
type_index DnsRecordType.mx = 3
type_index DnsRecordType.txt = 4
type_index DnsRecordType.ns = 5
type_index DnsRecordType.soa = 6
type_index DnsRecordType.caa = 7
type_index DnsRecordType.srv = 8
type_index DnsRecordType.ptr = 9

unfoldable type_at : ℕ → DnsRecordType
type_at zero = DnsRecordType.a
type_at (suc zero) = DnsRecordType.aaaa
type_at (suc (suc zero)) = DnsRecordType.cname
type_at (suc (suc (suc zero))) = DnsRecordType.mx
type_at (suc (suc (suc (suc zero)))) = DnsRecordType.txt
type_at (suc (suc (suc (suc (suc zero))))) = DnsRecordType.ns
type_at (suc (suc (suc (suc (suc (suc zero)))))) = DnsRecordType.soa
type_at (suc (suc (suc (suc (suc (suc (suc zero))))))) = DnsRecordType.caa
type_at (suc (suc (suc (suc (suc (suc (suc (suc zero)))))))) = DnsRecordType.srv
type_at _ = DnsRecordType.ptr

type_at-type_index : (t : DnsRecordType) → type_at (type_index t) ≡ t
unfolding type_at
type_at-type_index DnsRecordType.a = refl
type_at-type_index _ = refl

pub type_index-injective : (s t : DnsRecordType) → type_index s ≡ type_index t → s ≡ t
type_index-injective s t e = sym (type_at-type_index s) ∙ ap type_at e ∙ type_at-type_index t

abbrev pub type_beq : DnsRecordType → DnsRecordType → Bool
type_beq s t = type_index s == type_index t

pub type_beq_iff : (s t : DnsRecordType) → (type_beq s t ≡ true) ↔ (s ≡ t)
type_beq_iff s t =
    (λ h. type_index-injective s t (eq_of_beq _ _ h), λ e. rw e (beq_refl (type_index t)))

instance abbrev pub type_eq : PartialEq DnsRecordType
type_eq = record { beq = type_beq; beq_iff = type_beq_iff }

pub data DnsRecord : Type 0 where
  a : ℕ → DnsRecord
  aaaa : ℕ → DnsRecord
  cname : Text → DnsRecord
  mx : (preference : ℕ) → (exchange : Text) → DnsRecord
  txt : Text → DnsRecord
  ns : Text → DnsRecord
  soa : Text → DnsRecord
  caa : (flags : ℕ) → (tag value : Text) → DnsRecord
  srv : (priority weight port : ℕ) → (target : Text) → DnsRecord
  ptr : Text → DnsRecord

-- `DnsRecord::address`.
unfoldable pub address : DnsRecord → Option IpAddr
address (DnsRecord.a ip) = some (v4 ip)
address (DnsRecord.aaaa ip) = some (v6 ip)
address _ = none

pub record DnsObservation : Type 0 where
  pub hostname : Text
  pub resolver : ResolverKind
  pub record_type : DnsRecordType
  pub records : List DnsRecord
  pub ttl : Option ℕ
  pub latency_ms : Option ℕ
  pub error : Option ProbeError

-- `ResolverKind::label`.
unfoldable pub label : ResolverKind → Text
unfolding show_addr text
label system = text "system"
label (custom addr) = show_addr addr
label (doh endpoint) = endpoint
label (dot endpoint) = endpoint ++ text " (DoT)"

-- `Display` of a record type.
unfoldable pub show_type : DnsRecordType → Text
unfolding text
show_type DnsRecordType.a = text "A"
show_type DnsRecordType.aaaa = text "AAAA"
show_type DnsRecordType.cname = text "CNAME"
show_type DnsRecordType.mx = text "MX"
show_type DnsRecordType.txt = text "TXT"
show_type DnsRecordType.ns = text "NS"
show_type DnsRecordType.soa = text "SOA"
show_type DnsRecordType.caa = text "CAA"
show_type DnsRecordType.srv = text "SRV"
show_type DnsRecordType.ptr = text "PTR"
