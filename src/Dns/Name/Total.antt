-- ===== src/Dns/Name/Total.antt =====
-- The decoders of a name end on every message, and stay inside it.
use ip_tools.Base.{
  ℕ, zero, suc, ◌+◌, ◌*◌, ◌%◌, ◌≤◌, ◌<◌, ◌||◌, List, [], ◌∷◌, ◌++◌, Option, none, some, ◌==◌,
  nat_eq, ltb, leb, Bytes, Text, length, arith, from_utf8_lossy,
}
use ip_tools.Dns.Outcome.{
  Settles, settled, failed, Anything, bind-Settles, if-Settles, weaken, get_or_err-Settles,
  slice-Settles, truncated_pointer, name_overruns_at,
}
use ip_tools.Dns.Name.{
  pointer_target, label_end, validate_from, validate_name, skip_from, skip_name, read_from,
  read_name, or_set,
}

abbrev Within : Bytes → Option ℕ → Type 0
Within bytes none = Unit
Within bytes (some e) = e ≤ length bytes

module _ (bytes : Bytes) where
  -- A pointer has both its bytes in the message, and so has what it points at.
  pub pointer_target-Settles :
      (pos b : ℕ)
      → Settles (λ t. (pos + 1 < length bytes) × (t < length bytes)) (pointer_target bytes pos b)
  unfolding pointer_target
  pointer_target-Settles pos b =
      bind-Settles _ (get_or_err-Settles bytes (pos + 1) truncated_pointer) λ low h.
        if-Settles (leb (length bytes) (b % 64 * 256 + low)) _ _ (λ e. failed)
          (λ e. settled (h, ground arith))

  pub label_end-Settles :
      (pos b : ℕ) → Settles (λ e. (pos + 2 ≤ e) × (e ≤ length bytes)) (label_end bytes pos b)
  unfolding label_end
  label_end-Settles pos b =
      if-Settles (b == 0 || ltb 63 b) _ _ (λ e. failed)
        (λ e.
          if-Settles (ltb (length bytes) (pos + 1 + b)) _ _ (λ e'. failed)
            (λ e'. settled (ground arith)))

  validate_from-Settles :
      (room fuel pos : ℕ)
      → 0 < fuel
      → length bytes < fuel + pos
      → Settles Anything (validate_from bytes room fuel pos)
  unfolding validate_from
  validate_from-Settles zero fuel pos h k = failed
  validate_from-Settles (suc room) zero pos h k = absurd (omega arith)
  validate_from-Settles (suc room) (suc fuel) pos h k =
      bind-Settles _ (get_or_err-Settles bytes pos (name_overruns_at pos)) λ b lt.
        if-Settles (b == 0) _ _ (λ e. settled tt)
          λ e.
            if-Settles (leb 0xC0 b) _ _
              (λ e'. bind-Settles _ (pointer_target-Settles pos b) λ t i.
                validate_from-Settles room (suc (length bytes)) t (omega arith) (omega arith))
              (λ e'.
                bind-Settles _ (label_end-Settles pos b)
                  λ next i. validate_from-Settles (suc room) fuel next (omega arith) (omega arith))

  validate_name-Settles : (start : ℕ) → Settles Anything (validate_name bytes start)
  unfolding validate_name
  validate_name-Settles start =
      validate_from-Settles 9 (suc (length bytes)) start (omega arith) (omega arith)

  skip_from-Settles :
      (fuel pos : ℕ)
      → 0 < fuel
      → length bytes < fuel + pos
      → Settles (λ e. (pos < e) × (e ≤ length bytes)) (skip_from bytes fuel pos)
  unfolding skip_from
  skip_from-Settles zero pos h k = absurd (omega arith)
  skip_from-Settles (suc fuel) pos h k =
      bind-Settles _ (get_or_err-Settles bytes pos (name_overruns_at pos)) λ b lt.
        if-Settles (b == 0) _ _ (λ e. settled (omega arith, omega arith))
          λ e.
            if-Settles (leb 0xC0 b) _ _
              (λ e'. bind-Settles _ (pointer_target-Settles pos b) λ t i.
                bind-Settles _ (validate_name-Settles t) λ _ _. settled (omega arith, omega arith))
              (λ e'. bind-Settles _ (label_end-Settles pos b) λ next i.
                weaken (λ a j. (omega arith, j.1))
                  (skip_from-Settles fuel next (omega arith) (omega arith)))

  or_set-le :
      (end : Option ℕ) (p : ℕ) → Within bytes end → p ≤ length bytes → or_set end p ≤ length bytes
  or_set-le none p h k = k
  or_set-le (some e) p h k = h

  read_from-Settles :
      (room fuel pos : ℕ) (labels : List Text) (end : Option ℕ)
      → Within bytes end
      → 0 < fuel
      → length bytes < fuel + pos
      → Settles (λ r. r.1 ≤ length bytes) (read_from bytes room fuel pos labels end)
  unfolding read_from
  read_from-Settles zero fuel pos labels end le h k = failed
  read_from-Settles (suc room) zero pos labels end le h k = absurd (omega arith)
  read_from-Settles (suc room) (suc fuel) pos labels end le h k =
      bind-Settles _ (get_or_err-Settles bytes pos (name_overruns_at pos)) λ b lt.
        if-Settles (b == 0) _ _ (λ e. settled (or_set-le end (pos + 1) le (omega arith)))
          λ e.
            if-Settles (leb 0xC0 b) _ _
              (λ e'. bind-Settles _ (pointer_target-Settles pos b) λ t i.
                read_from-Settles room (suc (length bytes)) t labels (some (or_set end (pos + 2)))
                  (or_set-le end (pos + 2) le (omega arith)) (omega arith) (omega arith))
              (λ e'. bind-Settles _ (label_end-Settles pos b) λ next i.
                bind-Settles _ (slice-Settles bytes (pos + 1) next (omega arith) i.1) λ label l.
                  read_from-Settles (suc room) fuel next (labels ++ (from_utf8_lossy label ∷ []))
                    end le (omega arith) (omega arith))

-- On every message and position, `skip_name` gives a position behind the start and within the
-- message, or an error: it does not panic, and the walk over labels and pointers ends.
pub skip_name-Settles :
    (bytes : Bytes) (start : ℕ)
    → Settles (λ end. (start < end) × (end ≤ length bytes)) (skip_name bytes start)
unfolding skip_name
skip_name-Settles bytes start =
    skip_from-Settles bytes (suc (length bytes)) start (omega arith) (omega arith)

-- On every message and position, `read_name` gives a name and a position within the message, or an
-- error: no slice is out of range, and the walk over labels and pointers ends.
pub read_name-Settles :
    (bytes : Bytes) (start : ℕ) → Settles (λ r. r.1 ≤ length bytes) (read_name bytes start)
unfolding read_name
read_name-Settles bytes start =
    read_from-Settles bytes 9 (suc (length bytes)) start [] none tt (omega arith) (omega arith)
