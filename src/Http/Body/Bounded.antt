-- ===== src/Http/Body/Bounded.antt =====
-- The body that the loop keeps is the front of what the server sent.
use ip_tools.Base.{
  ℕ, zero, suc, ◌+◌, ◌-◌, ◌≤◌, min, ◌≡◌, refl, sym, ap, ◌∙◌, Bool, true, false, Bool-cases, inl,
  inr, List, [], ◌∷◌, ◌++◌, append-nil, append_assoc, none, some, leb, if◌then◌else◌, length,
  length-append, length-take, take, Bytes, arith,
}
use ip_tools.Dns.Outcome.{if_true, if_false}
use ip_tools.Http.Body.{
  body_snippet_bytes, push_body_snippet, BodyState, extend_full, push_bounded_body, read_frames,
  no_body,
}

take_none : (n : ℕ) (xs : Bytes) → n ≡ 0 → take n xs ≡ []
take_none zero xs h = refl
take_none (suc n) xs h = absurd (omega arith)

take-append : (n : ℕ) (xs ys : Bytes) → take n (xs ++ ys) ≡ take n xs ++ take (n - length xs) ys
take-append zero [] ys = refl
take-append (suc n) [] ys = let e : suc n ≡ suc n - 0 = omega arith in ap (λ k. take k ys) e
take-append zero (x ∷ xs) ys = sym (take_none (0 - length (x ∷ xs)) ys (omega arith))
take-append (suc n) (x ∷ xs) ys =
    let e : n - length xs ≡ suc n - length (x ∷ xs) = omega arith in
    ap (λ t. x ∷ t) (take-append n xs ys ∙ ap (λ k. take n xs ++ take k ys) e)

take_all : (n : ℕ) (xs : Bytes) → length xs ≤ n → take n xs ≡ xs
take_all zero [] h = refl
take_all zero (x ∷ xs) h = absurd (omega arith)
take_all (suc n) [] h = refl
take_all (suc n) (x ∷ xs) h = ap (λ t. x ∷ t) (take_all n xs (omega arith))

take-min : (n : ℕ) (xs : Bytes) → take (min n (length xs)) xs ≡ take n xs
take-min n xs = elim (Bool-cases (leb (length xs) n)) [
  | inl e ↦
      let le : length xs ≤ n = ground (arith, e) in
      let m : min n (length xs) ≡ length xs = omega arith in
      rw m (take_all (length xs) xs (omega arith) ∙ sym (take_all n xs le))
  | inr e ↦ let m : min n (length xs) ≡ n = ground (arith, e) in rw m refl
]

snippet_take :
    (n : ℕ) (full chunk : Bytes)
    → (if leb n (length (take n full))
        then take n full
        else take n full ++ take (min (n - length (take n full)) (length chunk)) chunk)
      ≡ take n (full ++ chunk)
snippet_take n full chunk = elim (Bool-cases (leb n (length (take n full)))) [
  | inl e ↦
      let long : n - length full ≡ 0 = ground (arith, e, length-take n full) in
      rw (e, take-append n full chunk, take_none (n - length full) chunk long)
        (sym (append-nil (take n full)))
  | inr e ↦
      let short : length full ≤ n = ground (arith, e, length-take n full) in
      rw
        (
          e,
          take-append n full chunk,
          take-min (n - length (take n full)) chunk,
          take_all n full short,
        )
        refl
]

-- The snippet of a body to which a chunk is appended.
push_body_snippet-take :
    (full chunk : Bytes)
    → push_body_snippet (take body_snippet_bytes full) chunk
      ≡ take body_snippet_bytes (full ++ chunk)
unfolding push_body_snippet
push_body_snippet-take full chunk = snippet_take body_snippet_bytes full chunk

-- The chunks in one.
abbrev pub concat : List Bytes → Bytes
concat [] = []
concat (chunk ∷ frames) = chunk ++ concat frames

-- The state after the bytes `full` of a body, of which at most `cap` are kept.
abbrev pub state_of : Bool → Bytes → BodyState
state_of keep full = record {
  snippet = take body_snippet_bytes full;
  full_body = (if keep then some full else none);
  bytes_read = length full;
}

state_eq :
    (keep : Bool) (full bounded : Bytes) (n : ℕ)
    → length bounded ≡ n
    → ◌≡◌ {A = BodyState}
        (record {
          snippet = push_body_snippet (take body_snippet_bytes full) bounded;
          full_body = extend_full (if keep then some full else none) bounded;
          bytes_read = length full + n;
        })
        (state_of keep (full ++ bounded))
state_eq true full bounded n h =
    rw (push_body_snippet-take full bounded, length-append full bounded, h) refl
state_eq false full bounded n h =
    rw (push_body_snippet-take full bounded, length-append full bounded, h) refl

-- A chunk is cut to what the cap leaves.
push_bounded_body-state_of :
    (keep : Bool) (full : Bytes) (cap : ℕ) (chunk : Bytes)
    → length full ≤ cap
    → (push_bounded_body (state_of keep full) cap chunk).0
      ≡ state_of keep (take cap (full ++ chunk))
unfolding push_bounded_body
push_bounded_body-state_of keep full cap chunk h =
    let bounded = take (min (length chunk) (cap - length full)) chunk in
    let n : length bounded ≡ min (length chunk) (cap - length full) =
      omega (arith, length-take (min (length chunk) (cap - length full)) chunk) in
    let m : min (length chunk) (cap - length full) ≡ min (cap - length full) (length chunk) =
      omega arith in
    let cut : bounded ≡ take (cap - length full) chunk =
      rw m (take-min (cap - length full) chunk) in
    let whole : full ++ bounded ≡ take cap (full ++ chunk) =
      rw (cut, take-append cap full chunk, take_all cap full h) refl in
    state_eq keep full bounded (min (length chunk) (cap - length full)) n ∙ ap (state_of keep) whole

push_bounded_body-capped :
    (keep : Bool) (full : Bytes) (cap : ℕ) (chunk : Bytes)
    → (push_bounded_body (state_of keep full) cap chunk).1
      ≡ leb cap (length full + min (length chunk) (cap - length full))
unfolding push_bounded_body
push_bounded_body-capped keep full cap chunk = refl

-- What is behind a full cap is never kept.
take_full :
    (cap : ℕ) (full chunk rest : Bytes)
    → length full ≤ cap
    → leb cap (length full + min (length chunk) (cap - length full)) ≡ true
    → take cap (full ++ chunk) ≡ take cap (full ++ (chunk ++ rest))
take_full cap full chunk rest h e =
    let long : cap ≤ length full + length chunk = ground (arith, e) in
    let none_left : cap - length (full ++ chunk) ≡ 0 = omega (arith, length-append full chunk) in
    rw
      (
        ← append_assoc full chunk rest,
        take-append cap (full ++ chunk) rest,
        take_none (cap - length (full ++ chunk)) rest none_left,
      )
      (sym (append-nil (take cap (full ++ chunk))))

-- Room left means that the chunk was kept whole.
take_whole :
    (cap : ℕ) (full chunk : Bytes)
    → length full ≤ cap
    → leb cap (length full + min (length chunk) (cap - length full)) ≡ false
    → take cap (full ++ chunk) ≡ full ++ chunk
take_whole cap full chunk h e =
    take_all cap (full ++ chunk) (ground (arith, e, length-append full chunk))

read_frames-step :
    (s : BodyState) (cap : ℕ) (chunk : Bytes) (frames : List Bytes)
    → (read_frames cap s (chunk ∷ frames)).0 ≡ (
        if (push_bounded_body s cap chunk).1
        then (push_bounded_body s cap chunk).0
        else (read_frames cap (push_bounded_body s cap chunk).0 frames).0)
unfolding read_frames
read_frames-step s cap chunk frames = elim (Bool-cases (push_bounded_body s cap chunk).1) [
  | inl e ↦ rw e refl
  | inr e ↦ rw e refl
]

read_frames-nil : (s : BodyState) (cap : ℕ) → (read_frames cap s []).0 ≡ s
unfolding read_frames
read_frames-nil s cap = refl

-- The loop, from a state with room or none.
read_frames-state_of :
    (keep : Bool) (full : Bytes) (cap : ℕ) (frames : List Bytes)
    → length full ≤ cap
    → (read_frames cap (state_of keep full) frames).0
      ≡ state_of keep (take cap (full ++ concat frames))
read_frames-state_of keep full cap [] h =
    read_frames-nil (state_of keep full) cap
    ∙ ap (state_of keep) (sym (rw append-nil (take_all cap full h)))
read_frames-state_of keep full cap (chunk ∷ frames) h =
    let c = leb cap (length full + min (length chunk) (cap - length full)) in
    elim (Bool-cases (leb cap (length full + min (length chunk) (cap - length full)))) [
      | inl e ↦
          read_frames-step (state_of keep full) cap chunk frames
          ∙ if_true _ _ _ _ (push_bounded_body-capped keep full cap chunk ∙ e)
              (push_bounded_body-state_of keep full cap chunk h)
          ∙ ap (state_of keep) (take_full cap full chunk (concat frames) h e)
      | inr e ↦
          let whole = take_whole cap full chunk h e in
          let fits : length (full ++ chunk) ≤ cap = ground (arith, e, length-append full chunk) in
          read_frames-step (state_of keep full) cap chunk frames
          ∙ if_false _ _ _ _ (push_bounded_body-capped keep full cap chunk ∙ e) (
              ap (λ s. (read_frames cap s frames).0)
                (push_bounded_body-state_of keep full cap chunk h ∙ ap (state_of keep) whole)
              ∙ read_frames-state_of keep (full ++ chunk) cap frames fits)
          ∙ ap (λ b. state_of keep (take cap b)) (append_assoc full chunk (concat frames))
    ]

-- Whatever frames a response body comes in, and whatever the cap, the body that is kept is the front
-- of the whole, the cap long at most, the count of bytes is its length, and the snippet is its front
-- of at most 1024 bytes.
pub read_frames-take :
    (keep : Bool) (cap : ℕ) (frames : List Bytes)
    → (read_frames cap (no_body keep) frames).0 ≡ state_of keep (take cap (concat frames))
read_frames-take true cap frames = read_frames-state_of true [] cap frames (omega arith)
read_frames-take false cap frames = read_frames-state_of false [] cap frames (omega arith)
