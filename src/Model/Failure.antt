-- ===== src/Model/Failure.antt =====
-- `FailureKind` and `ProbeError` of src/model/mod.rs.
use ip_tools.Base.{
  ℕ, ◌≡◌, refl, ap, sym, ◌∙◌, ◌↔◌, Bool, true, PartialEq, ◌==◌, nat_eq, Text, text, eq_of_beq,
  beq_refl, zero, suc,
}

pub data FailureKind : Type 0 where
  timeout connection_refused connection_reset network_unreachable host_unreachable : FailureKind
  dns tls_handshake certificate protocol http quic other unknown : FailureKind

-- `kind as u8`: the declaration order.
unfoldable pub kind_index : FailureKind → ℕ
kind_index timeout = 0
kind_index connection_refused = 1
kind_index connection_reset = 2
kind_index network_unreachable = 3
kind_index host_unreachable = 4
kind_index dns = 5
kind_index tls_handshake = 6
kind_index certificate = 7
kind_index protocol = 8
kind_index http = 9
kind_index quic = 10
kind_index other = 11
kind_index unknown = 12

kind_at : ℕ → FailureKind
kind_at zero = timeout
kind_at (suc zero) = connection_refused
kind_at (suc (suc zero)) = connection_reset
kind_at (suc (suc (suc zero))) = network_unreachable
kind_at (suc (suc (suc (suc zero)))) = host_unreachable
kind_at (suc (suc (suc (suc (suc zero))))) = dns
kind_at (suc (suc (suc (suc (suc (suc zero)))))) = tls_handshake
kind_at (suc (suc (suc (suc (suc (suc (suc zero))))))) = certificate
kind_at (suc (suc (suc (suc (suc (suc (suc (suc zero)))))))) = protocol
kind_at (suc (suc (suc (suc (suc (suc (suc (suc (suc zero))))))))) = http
kind_at (suc (suc (suc (suc (suc (suc (suc (suc (suc (suc zero)))))))))) = quic
kind_at (suc (suc (suc (suc (suc (suc (suc (suc (suc (suc (suc zero))))))))))) = other
kind_at _ = unknown

kind_at-kind_index : (k : FailureKind) → kind_at (kind_index k) ≡ k
unfolding kind_at kind_index
kind_at-kind_index timeout = refl
kind_at-kind_index _ = refl

pub kind_index-injective : (j k : FailureKind) → kind_index j ≡ kind_index k → j ≡ k
kind_index-injective j k e = sym (kind_at-kind_index j) ∙ ap kind_at e ∙ kind_at-kind_index k

unfoldable pub kind_beq : FailureKind → FailureKind → Bool
unfolding kind_index
kind_beq j k = kind_index j == kind_index k

pub kind_beq_iff : (j k : FailureKind) → (kind_beq j k ≡ true) ↔ (j ≡ k)
kind_beq_iff j k = (
  λ h. kind_index-injective j k (unfold kind_beq in eq_of_beq _ _ h),
  λ e. rw e (unfold kind_beq in beq_refl (kind_index k)),
)

instance abbrev pub kind_eq : PartialEq FailureKind
kind_eq = record { beq = kind_beq; beq_iff = kind_beq_iff }

-- `Display`.
unfoldable pub show_kind : FailureKind → Text
show_kind timeout = text "timeout"
show_kind connection_refused = text "connection refused"
show_kind connection_reset = text "connection reset"
show_kind network_unreachable = text "network unreachable"
show_kind host_unreachable = text "host unreachable"
show_kind dns = text "dns"
show_kind tls_handshake = text "tls handshake"
show_kind certificate = text "certificate"
show_kind protocol = text "protocol"
show_kind http = text "http"
show_kind quic = text "quic"
show_kind other = text "other"
show_kind unknown = text "unknown"

pub record ProbeError : Type 0 where
  pub kind : FailureKind
  pub message : Text
