-- ===== src/Dns/Query/RoundTrip.antt =====
-- What `build_query` writes, the decoders of a response read back.
use ip_tools.Base.{
  ℕ, zero, suc, ◌+◌, ◌-◌, ◌%◌, ◌≤◌, ◌<◌, ◌≡◌, refl, ap, ◌∙◌, true, false, ◌||◌, List, [], ◌∷◌, ◌++◌,
  none, some, ltb, leb, ◌==◌, nat_eq, Bytes, Text, is_empty, length, length-append, get_elem?, take,
  drop, append-nil, append_assoc, split, join, All, IsAscii, from_utf8_lossy-IsAscii, arith,
  list_cases, eq_of_beq, ◌≢◌, Bool-cases, inl, inr,
}
use ip_tools.Dns.Outcome.{ok, ok-bind, ok-reject, get_or_err, slice}
use ip_tools.Dns.Name.{read_from, read_name, skip_from, skip_name, name_of}
use ip_tools.Dns.Name.Agree.{read_name_lem, skip_name_lem}
use ip_tools.Dns.Query.{write_labels, queried_name, query_header, to_be16, qtype, build_query}
use ip_tools.Model.{DnsRecordType}

join-push :
    (sep : Text) (d : ℕ) (p : Text) (ps : List Text)
    → join sep ((d ∷ p) ∷ ps) ≡ d ∷ join sep (p ∷ ps)
unfolding join
join-push sep d p [] = refl
join-push sep d p (q ∷ ps) = refl

split-nonempty : (c : ℕ) (s : Text) → split c s ≢ []
unfolding split
split-nonempty c [] h = cc h
split-nonempty c (d ∷ s) h = elim (list_cases (split c s)) [
  | inl e ↦ split-nonempty c s e
  | inr (p, ps, e) ↦ elim (Bool-cases (c == d)) [
    | inl t ↦ cc (rw (e, t) at h)
    | inr t ↦ cc (rw (e, t) at h)
  ]
]

pub join-split : (c : ℕ) (s : Text) → join (c ∷ []) (split c s) ≡ s
unfolding join split
join-split c [] = refl
join-split c (d ∷ s) = elim (list_cases (split c s)) [
  | inl e ↦ absurd (split-nonempty c s e)
  | inr (p, ps, e) ↦ elim (Bool-cases (c == d)) [
    | inl t ↦ rw (e, t) (cc (rw e at (join-split c s), eq_of_beq c d t))
    | inr t ↦ rw (e, t) (join-push (c ∷ []) d p ps ∙ ap (λ r. d ∷ r) (rw e at (join-split c s)))
  ]
]

get_middle :
    (pre : Bytes) (b : ℕ) (post : Bytes) → get_elem? (pre ++ (b ∷ post)) (length pre) ≡ some b
get_middle [] b post = refl
get_middle (x ∷ pre) b post = get_middle pre b post

drop_prefix : (pre post : Bytes) → drop (length pre) (pre ++ post) ≡ post
drop_prefix [] post = refl
drop_prefix (x ∷ pre) post = drop_prefix pre post

take_prefix : (pre post : Bytes) → take (length pre) (pre ++ post) ≡ pre
take_prefix [] post = refl
take_prefix (x ∷ pre) post = ap (λ t. x ∷ t) (take_prefix pre post)

slice_middle :
    (pre label post : Bytes) (a b : ℕ)
    → a ≡ length pre
    → b ≡ length pre + length label
    → slice (pre ++ (label ++ post)) a b ≡ ok label
slice_middle pre label post a b ha hb =
    let n : b - a ≡ length label = omega (arith, ha, hb) in
    let t : leb a b ≡ true = ground (arith, ha, hb) in
    let len : length (pre ++ (label ++ post)) ≡ length pre + (length label + length post) =
      length-append pre (label ++ post) ∙ ap (λ k. length pre + k) (length-append label post) in
    let u : leb b (length (pre ++ (label ++ post))) ≡ true = rw len (ground (arith, ha, hb)) in
    rw (slice, t, u, n, ha, drop_prefix pre (label ++ post), take_prefix label post) refl

-- The labels of a name, as they stand in a message.
abbrev wire : List Text → Bytes
wire [] = []
wire (label ∷ labels) = length label ∷ (label ++ wire labels)

abbrev IsLabel : Text → Type 0
IsLabel label = (0 < length label) × (length label < 64)

accepted-IsLabel :
    (label : Text) → (is_empty label || ltb 63 (length label)) ≡ false → IsLabel label
accepted-IsLabel [] h = cc h
accepted-IsLabel (c ∷ label) h = ground (arith, h)

mod_small : (n : ℕ) → n < 64 → n % 256 ≡ n
mod_small n h = omega arith

write_labels-wire :
    (host : Text) (labels : List Text) (out : Bytes)
    → write_labels host labels ≡ ok out
    → (out ≡ wire labels) × All IsLabel labels
unfolding write_labels
write_labels-wire host [] out h = (cc h, tt)
write_labels-wire host (label ∷ labels) out h =
    let (t, r, h1) = ok-bind _ _ out h in
    let (rest, w, h2) = ok-bind _ _ out h1 in
    let (e, ls) = write_labels-wire host labels rest w in
    let lt : IsLabel label = accepted-IsLabel label (ok-reject _ _ t r) in
    (cc (h2, e, mod_small (length label) lt.1), (lt, ls))

zero_test : (b : ℕ) → 0 < b → (b == 0) ≡ false
zero_test b h = ground arith

high_test : (b : ℕ) → b < 64 → leb 0xC0 b ≡ false
high_test b h = ground arith

small_test : (b : ℕ) → b < 64 → ltb 63 b ≡ false
small_test b h = ground arith

fit_test : (n m : ℕ) → m ≤ n → ltb n m ≡ false
fit_test n m h = ground arith

module _ (bytes : Bytes) where
  read_step :
      (room fuel pos b : ℕ) (labels : List Text) (label : Text)
      → get_elem? bytes pos ≡ some b
      → 0 < b
      → b < 64
      → pos + 1 + b ≤ length bytes
      → slice bytes (pos + 1) (pos + 1 + b) ≡ ok label
      → IsAscii label
      → read_from bytes (suc room) (suc fuel) pos labels none
        ≡ read_from bytes (suc room) fuel (pos + 1 + b) (labels ++ (label ∷ [])) none
  unfolding read_from
  read_step room fuel pos b labels label get b>0 b<64 fits sl ascii =
      rw (get, get_or_err)
        (rw (zero_test b b>0, high_test b b<64)
          (rw (small_test b b<64, fit_test (length bytes) (pos + 1 + b) fits)
            (rw (sl, from_utf8_lossy-IsAscii label ascii) refl)))

  read_end :
      (room fuel pos : ℕ) (labels : List Text)
      → get_elem? bytes pos ≡ some 0
      → read_from bytes (suc room) (suc fuel) pos labels none ≡ ok (name_of labels, pos + 1)
  unfolding read_from
  read_end room fuel pos labels get = rw (get, get_or_err) refl

  skip_end :
      (fuel pos : ℕ) → get_elem? bytes pos ≡ some 0 → skip_from bytes (suc fuel) pos ≡ ok (pos + 1)
  unfolding skip_from
  skip_end fuel pos get = rw (get, get_or_err) refl

  skip_step :
      (fuel pos b : ℕ)
      → get_elem? bytes pos ≡ some b
      → 0 < b
      → b < 64
      → pos + 1 + b ≤ length bytes
      → skip_from bytes (suc fuel) pos ≡ skip_from bytes fuel (pos + 1 + b)
  unfolding skip_from
  skip_step fuel pos b get b>0 b<64 fits =
      rw (get, get_or_err)
        (rw (zero_test b b>0, high_test b b<64)
          (rw (small_test b b<64, fit_test (length bytes) (pos + 1 + b) fits) refl))

-- The walk over the labels of a name that stands in a message behind `pre`.
module _ (post : Bytes) where
  length_pre :
      (pre label : Bytes) → length (pre ++ (length label ∷ label)) ≡ length pre + 1 + length label
  length_pre pre label = omega (arith, length-append pre (length label ∷ label))

  fits_lem :
      (pre label more : Bytes)
      → length pre + 1 + length label ≤ length (pre ++ (length label ∷ (label ++ more)))
  fits_lem pre label more =
      omega (arith, length-append pre (length label ∷ (label ++ more)), length-append label more)

  step_bytes :
      (pre label : Bytes) (labels : List Text)
      → pre ++ (wire (label ∷ labels) ++ (0 ∷ post))
        ≡ (pre ++ (length label ∷ label)) ++ (wire labels ++ (0 ∷ post))
  step_bytes pre label labels = simp (append_assoc) refl

  slice_label :
      (pre label more : Bytes)
      → slice
          (pre ++ (length label ∷ (label ++ more)))
          (length pre + 1)
          (length pre + 1 + length label)
        ≡ ok label
  slice_label pre label more =
      let at : length pre + 1 ≡ length (pre ++ (length label ∷ [])) =
        omega (arith, length-append pre (length label ∷ [])) in
      let assoc : (pre ++ (length label ∷ [])) ++ (label ++ more)
          ≡ pre ++ (length label ∷ (label ++ more)) =
        append_assoc pre (length label ∷ []) (label ++ more) in
      rw assoc at (
        slice_middle (pre ++ (length label ∷ [])) label more (length pre + 1)
          (length pre + 1 + length label) at (ap (λ n. n + length label) at))

  read_labels :
      (pre : Bytes) (labels acc : List Text) (fuel : ℕ)
      → All IsLabel labels
      → All IsAscii labels
      → length labels < fuel
      → read_from (pre ++ (wire labels ++ (0 ∷ post))) 9 fuel (length pre) acc none
        ≡ ok (name_of (acc ++ labels), length pre + length (wire labels) + 1)
  read_labels pre labels acc zero ls ascii lt = absurd (omega arith)
  read_labels pre [] acc (suc fuel) ls ascii lt =
      read_end (pre ++ (0 ∷ post)) 8 fuel (length pre) acc (get_middle pre 0 post)
      ∙ rw (append-nil acc) (ap (λ n. ok (name_of acc, n)) (omega arith))
  read_labels pre (label ∷ labels) acc (suc fuel) (l, ls) (a, ascii) lt =
      let b = length label in
      let more = wire labels ++ (0 ∷ post) in
      let whole = pre ++ (b ∷ (label ++ more)) in
      let fit = fits_lem pre label more in
      let one =
        read_step whole 8 fuel (length pre) b acc label (get_middle pre b (label ++ more)) l.0 l.1
          fit (slice_label pre label more) a in
      let rest =
        read_labels (pre ++ (b ∷ label)) labels (acc ++ (label ∷ [])) fuel ls ascii (omega arith) in
      let rest' =
        rw
          (
            ← step_bytes pre label labels,
            length_pre pre label,
            append_assoc acc (label ∷ []) labels,
          )
          at rest in
      let one' = rw (← append_assoc label (wire labels) (0 ∷ post)) at one in
      one'
      ∙ rest'
      ∙ ap (λ n. ok (name_of (acc ++ (label ∷ labels)), n))
          (omega (arith, length-append label (wire labels)))

  skip_labels :
      (pre : Bytes) (labels : List Text) (fuel : ℕ)
      → All IsLabel labels
      → length labels < fuel
      → skip_from (pre ++ (wire labels ++ (0 ∷ post))) fuel (length pre)
        ≡ ok (length pre + length (wire labels) + 1)
  skip_labels pre labels zero ls lt = absurd (omega arith)
  skip_labels pre [] (suc fuel) ls lt =
      skip_end (pre ++ (0 ∷ post)) fuel (length pre) (get_middle pre 0 post) ∙ ap ok (omega arith)
  skip_labels pre (label ∷ labels) (suc fuel) (l, ls) lt =
      let b = length label in
      let more = wire labels ++ (0 ∷ post) in
      let whole = pre ++ (b ∷ (label ++ more)) in
      let one =
        skip_step whole fuel (length pre) b (get_middle pre b (label ++ more)) l.0 l.1
          (fits_lem pre label more) in
      let rest = skip_labels (pre ++ (b ∷ label)) labels fuel ls (omega arith) in
      let rest' = rw (← step_bytes pre label labels, length_pre pre label) at rest in
      let one' = rw (← append_assoc label (wire labels) (0 ∷ post)) at one in
      one' ∙ rest' ∙ ap ok (omega (arith, length-append label (wire labels)))

-- Each label takes a byte at least, so a message has fuel for its labels.
length-wire : (labels : List Text) → length labels ≤ length (wire labels)
length-wire [] = omega arith
length-wire (label ∷ labels) = omega (arith, length-append label (wire labels), length-wire labels)

IsAscii-split : (c : ℕ) (s : Text) → IsAscii s → All IsAscii (split c s)
unfolding split
IsAscii-split c [] h = (tt, tt)
IsAscii-split c (d ∷ s) (h, hs) = elim (list_cases (split c s)) [
  | inl e ↦ absurd (split-nonempty c s e)
  | inr (p, ps, e) ↦
      let ih = rw e at (IsAscii-split c s hs) in
      elim (Bool-cases (c == d)) [
        | inl t ↦ rw (e, t) (tt, ih)
        | inr t ↦ rw (e, t) ((h, ih.0), ih.1)
      ]
]

name_of-split : (s : Text) → name_of (split b'.' s) ≡ s
name_of-split s = elim (list_cases (split b'.' s)) [
  | inl e ↦ absurd (split-nonempty b'.' s e)
  | inr (p, ps, e) ↦ rw e (rw e at (join-split b'.' s))
]

-- The three facts for a header, labels and four bytes.
query_reads :
    (labels : List Text) (post query : Bytes)
    → All IsLabel labels
    → All IsAscii labels
    → length post ≡ 4
    → query_header ++ (wire labels ++ (0 ∷ post)) ≡ query
    → (read_name query 12 ≡ ok (name_of labels, length query - 4))
      × (skip_name query 12 ≡ ok (length query - 4))
      × (drop (length query - 4) query ≡ post)
query_reads labels post query ls ascii four e =
    let whole = query_header ++ (wire labels ++ (0 ∷ post)) in
    let front = query_header ++ (wire labels ++ (0 ∷ [])) in
    let len : length whole ≡ 12 + length (wire labels) + 1 + 4 =
      omega (arith, length-append (wire labels) (0 ∷ post), four) in
    let cut : length whole - 4 ≡ length front =
      omega (arith, len, length-append (wire labels) (0 ∷ [])) in
    let enough : length labels < suc (length whole) = omega (arith, len, length-wire labels) in
    let read = read_labels post query_header labels [] (suc (length whole)) ls ascii enough in
    let skipped = skip_labels post query_header labels (suc (length whole)) ls enough in
    let back : drop (length front) (front ++ post) ≡ post = drop_prefix front post in
    rw (← e) (
      read_name_lem whole 12 ∙ read ∙ ap (λ n. ok (name_of labels, n)) (omega (arith, len)),
      skip_name_lem whole 12 ∙ skipped ∙ ap ok (omega (arith, len)),
      rw cut (rw (append_assoc (wire labels) (0 ∷ []) post) at back),
    )

-- A query that `build_query` accepts, for a name in ASCII, reads back: the name at byte 12 is the
-- host without its one trailing dot, `skip_name` agrees on where it ends, and four bytes follow, the
-- wanted type and the class.
pub build_query-read_name :
    (host : Text) (record_type : DnsRecordType) (query : Bytes)
    → IsAscii (queried_name host)
    → build_query host record_type ≡ ok query
    → (read_name query 12 ≡ ok (queried_name host, length query - 4))
      × (skip_name query 12 ≡ ok (length query - 4))
      × (drop (length query - 4) query ≡ to_be16 (qtype record_type) ++ to_be16 1)
unfolding build_query
build_query-read_name host record_type query ascii h =
    let (out, w, e) = ok-bind _ _ query h in
    let (o, ls) = write_labels-wire host (split b'.' (queried_name host)) out w in
    rw (name_of-split (queried_name host)) at (
      query_reads (split b'.' (queried_name host)) (to_be16 (qtype record_type) ++ to_be16 1) query
        ls (IsAscii-split b'.' (queried_name host) ascii) refl (cc (e, o)))
