-- ===== src/Diagnostics/Layer/Consistency.antt =====
-- src/diagnostics/layer.rs, `http_consistency_rules`: the same host answering differently over two
-- protocols, two address families or two addresses.
use ip_tools.Base.{
  ℕ, Bool, true, false, not, ◌&&◌, ◌||◌, List, [], ◌∷◌, ◌++◌, map, Option, none, some, ◌==◌, Text,
  text, join, decimal, if◌then◌else◌, filter, filter_map, any, is_empty, is_none, is_some, length,
  ltb, leb, entry, set_extend, text_lt, text_eq, values,
}
use ip_tools.Net.{SocketAddr, show_addr, addr_lt, is_ipv4}
use ip_tools.Model.{HttpObservation, Severity, Confidence, DiagnosticCategory, Diagnosis}
use ip_tools.Diagnostics.Input.{DiagnosticInput, evidence_of}

-- The closure `content`: a 2xx status.
abbrev pub content : ℕ → Bool
content s = leb 200 s && ltb s 300

abbrev status_of : HttpObservation → ℕ
status_of h = elim h.status [ none ↦ 0 | some s ↦ s ]

abbrev protocol_of : HttpObservation → Text
protocol_of h = elim h.protocol [ none ↦ text "?" | some p ↦ p ]

-- A response with a status over a known protocol, and no failure.
abbrev pub is_completed : HttpObservation → Bool
is_completed h = is_none h.failure && is_some h.status && is_some h.protocol

abbrev push_obs : HttpObservation → Option (List HttpObservation) → List HttpObservation
push_obs h none = h ∷ []
push_obs h (some hs) = hs ++ (h ∷ [])

-- `per_dest`.
unfoldable pub per_dest :
    List HttpObservation
    → List (SocketAddr × List HttpObservation)
    → List (SocketAddr × List HttpObservation)
per_dest [] m = m
per_dest (h ∷ rest) m =
    per_dest rest (if is_completed h then entry addr_lt h.destination (push_obs h) m else m)

-- Some statuses are 2xx and some are not.
abbrev pub diverges : List ℕ → Bool
diverges ss = any content ss && any (λ s. not (content s)) ss

unfoldable pub protocol_divergence : SocketAddr × List HttpObservation → Option Text
protocol_divergence (dest, obs) =
    let protocols = set_extend text_lt (map protocol_of obs) [] in
    let joined =
      join (text ", ") (map (λ h. protocol_of h ++ (text " -> " ++ decimal (status_of h))) obs) in
    if ltb (length protocols) 2
    then none
    else if diverges (map status_of obs)
    then some (show_addr dest ++ (text ": " ++ joined))
    else none

-- The closure `family_status`.
unfoldable pub family_status : Bool → List HttpObservation → List ℕ
family_status ipv4 http =
    filter_map (λ h. h.status)
      (filter
        (λ h.
          is_none h.failure
          && (if ipv4 then is_ipv4 h.destination else not (is_ipv4 h.destination)))
        http)

abbrev differ : Bool → Bool → Bool
differ a b = if a then not b else b

abbrev render_family : Text → List ℕ → Text
render_family name raw = name ++ (text "(" ++ (join (text ",") (map decimal raw) ++ text ")"))

unfoldable pub family_divergence : List ℕ → List ℕ → Option Text
family_divergence a b =
    if not (is_empty a) && not (is_empty b) && differ (any content a) (any content b)
    then some (render_family (text "IPv4") a ++ (text " vs " ++ render_family (text "IPv6") b))
    else none

-- The keys (protocol, family) of `per_proto_family`, in the order of a pair.
abbrev pub proto_lt : Text × Bool → Text × Bool → Bool
proto_lt (p, b) (q, c) = text_lt p q || (p == q && (not b && c))

abbrev put_status : HttpObservation → Option (List (SocketAddr × ℕ)) → List (SocketAddr × ℕ)
put_status h none = entry addr_lt h.destination (λ old. status_of h) []
put_status h (some m) = entry addr_lt h.destination (λ old. status_of h) m

unfoldable pub per_proto_family :
    List HttpObservation
    → List ((Text × Bool) × List (SocketAddr × ℕ))
    → List ((Text × Bool) × List (SocketAddr × ℕ))
per_proto_family [] m = m
per_proto_family (h ∷ rest) m = per_proto_family rest (
    if is_completed h
    then entry proto_lt (protocol_of h, is_ipv4 h.destination) (put_status h) m
    else m)

unfoldable pub address_divergence : (Text × Bool) × List (SocketAddr × ℕ) → Option Text
address_divergence ((proto, ipv4), by_addr) =
    let joined =
      join (text ", ") (map (λ e. show_addr e.0 ++ (text " -> " ++ decimal e.1)) by_addr) in
    if ltb (length by_addr) 2
    then none
    else if diverges (values by_addr)
    then some (proto ++ (text ": " ++ joined))
    else none

unfoldable pub protocols_differ : Text → List Text → Diagnosis
protocols_differ hostname ds = record {
  severity = Severity.low;
  category = DiagnosticCategory.http;
  confidence = Confidence.medium;
  summary = text "HTTP status differs across protocols for " ++ hostname;
  evidence = map (λ d. evidence_of (text "cross-protocol: " ++ d)) ds;
  possible_causes =
      text "CDN edge / WAF applying different rules to different protocols"
      ∷ text "A/B or partial deployment across edges or servers"
      ∷ text "rate-limiting or auth gating one protocol but not another"
      ∷ [];
}

unfoldable pub families_differ : Text → Text → Diagnosis
families_differ hostname detail = record {
  severity = Severity.low;
  category = DiagnosticCategory.http;
  confidence = Confidence.medium;
  summary = text "HTTP behavior differs between IPv4 and IPv6 for " ++ hostname;
  evidence = evidence_of (text "cross-address-family: " ++ detail) ∷ [];
  possible_causes =
      text "per-family cloud edge with a different origin state"
      ∷ text "IPv6-specific WAF / ACL rules"
      ∷ text "A/B or partial deployment across families"
      ∷ [];
}

unfoldable pub addresses_differ : Text → List Text → Diagnosis
addresses_differ hostname ds = record {
  severity = Severity.low;
  category = DiagnosticCategory.http;
  confidence = Confidence.medium;
  summary = text "HTTP status differs across " ++ (hostname ++ text "'s addresses");
  evidence = map (λ d. evidence_of (text "cross-address: " ++ d)) ds;
  possible_causes =
      text "partial deployment across edges or backends"
      ∷ text "per-node WAF / routing differences"
      ∷ text "load-balancer health-check / draining member"
      ∷ text "one CDN edge / origin failing"
      ∷ [];
}

module _ {F : Type 0} where
  unfoldable pub http_consistency_rules : DiagnosticInput F → List Diagnosis
  unfolding per_dest protocol_divergence family_status family_divergence per_proto_family
      address_divergence
  http_consistency_rules input =
      let protocols = filter_map protocol_divergence (per_dest input.http []) in
      let families =
        family_divergence (family_status true input.http) (family_status false input.http) in
      let addresses = filter_map address_divergence (per_proto_family input.http []) in
      (if is_empty protocols then [] else protocols_differ input.hostname protocols ∷ [])
      ++ (elim families [ none ↦ [] | some detail ↦ families_differ input.hostname detail ∷ [] ]
          ++ (if is_empty addresses then [] else addresses_differ input.hostname addresses ∷ []))
