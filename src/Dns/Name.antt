-- ===== src/Dns/Name.antt =====
-- src/dns.rs: `skip_name`, `validate_name` and `read_name`, on the bytes of a message.
-- A byte is below 256, so `b & 0xC0 == 0xC0` is `0xC0 ≤ b`, and `b & 0x3F` is `b % 64`.
-- `fuel` bounds the labels read at one stretch, and starts above the length of the message.
pub mod Total
pub mod Agree
use ip_tools.Base.{
  ℕ, zero, suc, ◌+◌, ◌-◌, ◌*◌, ◌%◌, ◌≡◌, refl, Bool, true, false, ◌||◌, List, [], ◌∷◌, ◌++◌, Option,
  none, some, ◌==◌, nat_eq, ltb, leb, if◌then◌else◌, Bytes, Text, text, join, length, get_elem?,
  take, drop, from_utf8_lossy,
}
use ip_tools.Dns.Outcome.{
  Outcome, ok, err, panic, diverged, ◌>>=◌, get_or_err, index, slice, truncated_pointer,
  pointer_out_of_range, too_many_hops, bad_label_length, name_overruns, name_overruns_at,
}

-- Where a compression pointer at `pos`, whose first byte is `b`, leads.
unfoldable pub pointer_target : Bytes → ℕ → ℕ → Outcome ℕ
pointer_target bytes pos b = do
  low ← get_or_err bytes (pos + 1) truncated_pointer
  let target = b % 64 * 256 + low
  if leb (length bytes) target then err pointer_out_of_range else ok target

-- The end of the label at `pos`, whose length byte is `b`.
unfoldable pub label_end : Bytes → ℕ → ℕ → Outcome ℕ
label_end bytes pos b =
    if b == 0 || ltb 63 b
    then err bad_label_length
    else if ltb (length bytes) (pos + 1 + b)
    then err name_overruns
    else ok (pos + 1 + b)

abbrev pub or_set : Option ℕ → ℕ → ℕ
or_set none p = p
or_set (some e) p = e

abbrev pub name_of : List Text → Text
name_of [] = b'.' ∷ []
name_of (l ∷ ls) = join (b'.' ∷ []) (l ∷ ls)

module _ (bytes : Bytes) where
  -- `validate_name`; `room` is 9 - depth.
  unfoldable pub validate_from : (room fuel pos : ℕ) → Outcome (Unit {0})
  unfolding pointer_target label_end
  validate_from zero fuel pos = err too_many_hops
  validate_from (suc room) zero pos = diverged
  validate_from (suc room) (suc fuel) pos =
      let at_pointer : ℕ → Outcome (Unit {0}) = λ b. (do
        target ← pointer_target bytes pos b
        validate_from room (suc (length bytes)) target) in
      let at_label : ℕ → Outcome (Unit {0}) =
        λ b. (do next ← label_end bytes pos b; validate_from (suc room) fuel next) in
      get_or_err bytes pos (name_overruns_at pos) >>= λ b.
      if b == 0 then ok tt else if leb 0xC0 b then at_pointer b else at_label b

  unfoldable pub validate_name : ℕ → Outcome (Unit {0})
  unfolding validate_from
  validate_name start = validate_from 9 (suc (length bytes)) start

  -- `skip_name`.
  unfoldable pub skip_from : (fuel pos : ℕ) → Outcome ℕ
  unfolding pointer_target label_end validate_name
  skip_from zero pos = diverged
  skip_from (suc fuel) pos =
      let at_pointer : ℕ → Outcome ℕ = λ b. (do
        target ← pointer_target bytes pos b
        checked ← validate_name target
        ok (pos + 2)) in
      let at_label : ℕ → Outcome ℕ = λ b. (do next ← label_end bytes pos b; skip_from fuel next) in
      get_or_err bytes pos (name_overruns_at pos) >>= λ b.
      if b == 0 then ok (pos + 1) else if leb 0xC0 b then at_pointer b else at_label b

  unfoldable pub skip_name : ℕ → Outcome ℕ
  unfolding skip_from
  skip_name start = skip_from (suc (length bytes)) start

  -- `read_name`; `room` is 9 - hops, `end` is where the name ends in the stream, once known.
  unfoldable pub read_from :
      (room fuel pos : ℕ) → (labels : List Text) → (end : Option ℕ) → Outcome (Text × ℕ)
  unfolding pointer_target label_end
  read_from zero fuel pos labels end = err too_many_hops
  read_from (suc room) zero pos labels end = diverged
  read_from (suc room) (suc fuel) pos labels end =
      let at_pointer : ℕ → Outcome (Text × ℕ) = λ b. (do
        target ← pointer_target bytes pos b
        read_from room (suc (length bytes)) target labels (some (or_set end (pos + 2)))) in
      let at_label : ℕ → Outcome (Text × ℕ) = λ b. (do
        next ← label_end bytes pos b
        label ← slice bytes (pos + 1) next
        read_from (suc room) fuel next (labels ++ (from_utf8_lossy label ∷ [])) end) in
      get_or_err bytes pos (name_overruns_at pos) >>= λ b.
      if b == 0
      then ok (name_of labels, or_set end (pos + 1))
      else if leb 0xC0 b
      then at_pointer b
      else at_label b

  unfoldable pub read_name : ℕ → Outcome (Text × ℕ)
  unfolding read_from
  read_name start = read_from 9 (suc (length bytes)) start [] none
