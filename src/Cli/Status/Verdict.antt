-- ===== src/Cli/Status/Verdict.antt =====
-- src/cli/mod.rs, `Expectation::violation`: when a response meets what is asserted.
use ip_tools.Base.{
  ℕ, ◌≡◌, refl, ◌↔◌, inl, inr, Bool, true, false, not, ◌&&◌, Bool-cases, if◌then◌else◌, Option,
  none, some, is_some_and, List, [], ◌∷◌, ◌++◌, is_empty, arith, Text,
}
use ip_tools.Net.{SocketAddr}
use ip_tools.Cli.Status.{
  StatusSpec, Expectation, matches, contains_text, status_reasons, body_reasons, violation,
}

-- The probe completed, its status is one that is asserted, and its body has the asserted text.
abbrev pub status_met : Option StatusSpec → Option ℕ → Bool
unfolding matches
status_met none status = true
status_met (some spec) status = is_some_and status (matches spec)

abbrev pub body_met : Option Text → Option Text → Bool
unfolding contains_text
body_met none body = true
body_met (some needle) body = is_some_and body (contains_text needle)

status_reasons-empty :
    (spec : Option StatusSpec) (status : Option ℕ)
    → is_empty (status_reasons spec status) ≡ status_met spec status
unfolding status_reasons
status_reasons-empty none status = refl
status_reasons-empty (some spec) none = refl
status_reasons-empty (some spec) (some code) = elim (Bool-cases (matches spec code)) [
  | inl h ↦ rw h refl
  | inr h ↦ rw h refl
]

is_empty-append : (xs ys : List Text) → is_empty (xs ++ ys) ≡ (is_empty xs && is_empty ys)
is_empty-append [] ys = refl
is_empty-append (x ∷ xs) ys = refl

module _ (debug : Text → Text) where
  body_reasons-empty :
      (needle body : Option Text) (bytes : Option ℕ)
      → is_empty (body_reasons debug needle body bytes) ≡ body_met needle body
  unfolding body_reasons
  body_reasons-empty none body bytes = refl
  body_reasons-empty (some needle) body bytes =
      elim (Bool-cases (is_some_and body (contains_text needle))) [
        | inl h ↦ rw h refl
        | inr h ↦ rw h refl
      ]

none_if :
    (b : Bool) (t : Text) → (◌≡◌ {A = Option Text} (if b then none else some t) none) ↔ (b ≡ true)
none_if true t = (λ h. refl, λ h. refl)
none_if false t = (λ h. cc h, λ h. cc h)

-- There is no violation exactly if the probe completed, an asserted status spec matches an observed
-- status, and an asserted text stands in an observed body.
pub violation-none :
    (debug : Text → Text) (e : Expectation) (destination : SocketAddr) (status : Option ℕ)
    (body : Option Text) (body_bytes : Option ℕ) (failed : Bool)
    → (violation debug e destination status body body_bytes failed ≡ none)
      ↔ ((not failed && status_met e.status status && body_met e.contains body) ≡ true)
unfolding violation
violation-none debug e destination status body body_bytes true =
    (λ h. cc h, λ h. absurd (ground (arith, h)))
violation-none debug e destination status body body_bytes false =
    let both =
      is_empty-append (status_reasons e.status status)
        (body_reasons debug e.contains body body_bytes) in
    rw
      (
        both,
        status_reasons-empty e.status status,
        body_reasons-empty debug e.contains body body_bytes,
      )
      (none_if (status_met e.status status && body_met e.contains body) _)
