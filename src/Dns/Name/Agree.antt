-- ===== src/Dns/Name/Agree.antt =====
-- `skip_name` and `read_name` on the same bytes.
use ip_tools.Base.{
  ℕ, zero, suc, ◌+◌, ◌≡◌, refl, sym, ap, ◌∙◌, List, [], ◌∷◌, ◌++◌, none, some, ◌==◌, nat_eq, leb,
  inl, inr, Bytes, Text, length, from_utf8_lossy,
}
use ip_tools.Dns.Outcome.{
  Outcome, ok, ok-bind, get_or_err, slice, name_overruns_at, if_cases, bind-ok, if_true, if_false,
}
use ip_tools.Dns.Name.{
  pointer_target, label_end, validate_from, validate_name, skip_from, skip_name, read_from,
  read_name, name_of,
}

snd_eq :
    (n : Text) (p : ℕ) (r : Text × ℕ) → ◌≡◌ {A = Outcome (Text × ℕ)} (ok (n, p)) (ok r) → r.1 ≡ p
snd_eq n p r h = cc h

module _ (bytes : Bytes) where
  -- A name that is read with fewer hops to spare is valid, and its end stays what it was.
  read_from-validate_from :
      (room fuel pos : ℕ) (labels : List Text) (e : ℕ) (r : Text × ℕ)
      → read_from bytes room fuel pos labels (some e) ≡ ok r
      → (validate_from bytes (suc room) fuel pos ≡ ok tt) × (r.1 ≡ e)
  unfolding read_from validate_from
  read_from-validate_from zero fuel pos labels e r h = cc h
  read_from-validate_from (suc room) zero pos labels e r h = cc h
  read_from-validate_from (suc room) (suc fuel) pos labels e r h =
      let (b, get, h1) = ok-bind (get_or_err bytes pos (name_overruns_at pos)) _ r h in
      elim (if_cases (b == 0) _ _ (ok r) h1) [
        | inl (t, h2) ↦
            (bind-ok _ _ _ get (if_true (b == 0) _ _ _ t refl), snd_eq (name_of labels) e r h2)
        | inr (t, h2) ↦ elim (if_cases (leb 0xC0 b) _ _ (ok r) h2) [
          | inl (u, h3) ↦
              let (target, p, h4) = ok-bind (pointer_target bytes pos b) _ r h3 in
              let (v, w) = read_from-validate_from room (suc (length bytes)) target labels e r h4 in
              (
                bind-ok _ _ _ get
                    (if_false (b == 0) _ _ _ t (if_true (leb 0xC0 b) _ _ _ u (bind-ok _ _ _ p v))),
                w,
              )
          | inr (u, h3) ↦
              let (next, p, h4) = ok-bind (label_end bytes pos b) _ r h3 in
              let (label, s, h5) = ok-bind (slice bytes (pos + 1) next) _ r h4 in
              let (v, w) =
                read_from-validate_from (suc room) fuel next
                  (labels ++ (from_utf8_lossy label ∷ [])) e r h5 in
              (
                bind-ok _ _ _ get
                    (if_false (b == 0) _ _ _ t (if_false (leb 0xC0 b) _ _ _ u (bind-ok _ _ _ p v))),
                w,
              )
        ]
      ]

  -- `room` is that of `validate_name` less one hop.
  read_from-skip_from :
      (room fuel pos : ℕ) (labels : List Text) (r : Text × ℕ)
      → ((t : ℕ)
          → validate_from bytes (suc room) (suc (length bytes)) t ≡ ok tt
          → validate_name bytes t ≡ ok tt)
      → read_from bytes (suc room) fuel pos labels none ≡ ok r
      → skip_from bytes fuel pos ≡ ok r.1
  unfolding read_from skip_from
  read_from-skip_from room zero pos labels r k h = cc h
  read_from-skip_from room (suc fuel) pos labels r k h =
      let (b, get, h1) = ok-bind (get_or_err bytes pos (name_overruns_at pos)) _ r h in
      elim (if_cases (b == 0) _ _ (ok r) h1) [
        | inl (t, h2) ↦
            bind-ok _ _ _ get
              (if_true (b == 0) _ _ _ t (sym (ap ok (snd_eq (name_of labels) (pos + 1) r h2))))
        | inr (t, h2) ↦ elim (if_cases (leb 0xC0 b) _ _ (ok r) h2) [
          | inl (u, h3) ↦
              let (target, p, h4) = ok-bind (pointer_target bytes pos b) _ r h3 in
              let (v, w) =
                read_from-validate_from room (suc (length bytes)) target labels (pos + 2) r h4 in
              bind-ok _ _ _ get (
                if_false (b == 0) _ _ _ t (
                  if_true (leb 0xC0 b) _ _ _ u (
                    bind-ok _ _ _ p
                      (bind-ok (validate_name bytes target) _ _ (k target v) (sym (ap ok w))))))
          | inr (u, h3) ↦
              let (next, p, h4) = ok-bind (label_end bytes pos b) _ r h3 in
              let (label, s, h5) = ok-bind (slice bytes (pos + 1) next) _ r h4 in
              let v =
                read_from-skip_from room fuel next (labels ++ (from_utf8_lossy label ∷ [])) r k
                  h5 in
              bind-ok _ _ _ get
                (if_false (b == 0) _ _ _ t (if_false (leb 0xC0 b) _ _ _ u (bind-ok _ _ _ p v)))
        ]
      ]

validate_name_lem :
    (bytes : Bytes) (p : ℕ) → validate_name bytes p ≡ validate_from bytes 9 (suc (length bytes)) p
unfolding validate_name
validate_name_lem bytes p = refl

pub read_name_lem :
    (bytes : Bytes) (p : ℕ) → read_name bytes p ≡ read_from bytes 9 (suc (length bytes)) p [] none
unfolding read_name
read_name_lem bytes p = refl

pub skip_name_lem :
    (bytes : Bytes) (p : ℕ) → skip_name bytes p ≡ skip_from bytes (suc (length bytes)) p
unfolding skip_name
skip_name_lem bytes p = refl

-- A name that `read_name` decodes, `skip_name` passes over, and both end at the same position. (The
-- converse fails by one hop: `skip_name` counts the hops behind the first pointer.)
pub read_name-skip_name :
    (bytes : Bytes) (start : ℕ) (name : Text) (end : ℕ)
    → read_name bytes start ≡ ok (name, end)
    → skip_name bytes start ≡ ok end
read_name-skip_name bytes start name end h =
    skip_name_lem bytes start
    ∙ read_from-skip_from bytes 8 (suc (length bytes)) start [] (name, end)
        (λ t v. validate_name_lem bytes t ∙ v) (sym (read_name_lem bytes start) ∙ h)
