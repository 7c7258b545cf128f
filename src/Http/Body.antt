-- ===== src/Http/Body.antt =====
-- `push_body_snippet` and `push_bounded_body` of src/http_common.rs, and the loop over the frames of
-- a response body in src/http.rs.
pub mod Bounded
use ip_tools.Base.{
  ℕ, ◌+◌, ◌-◌, min, Bool, true, false, List, [], ◌∷◌, ◌++◌, Option, none, some, leb, if◌then◌else◌,
  length, take, Bytes,
}

-- `BODY_SNIPPET_BYTES`.
abbrev pub body_snippet_bytes : ℕ
body_snippet_bytes = 1024

unfoldable pub push_body_snippet : (snippet chunk : Bytes) → Bytes
push_body_snippet snippet chunk =
    if leb body_snippet_bytes (length snippet)
    then snippet
    else snippet ++ take (min (body_snippet_bytes - length snippet) (length chunk)) chunk

-- What the loop accumulates; `full_body` is there if the body is to be written out.
pub record BodyState : Type 0 where
  pub snippet : Bytes
  pub full_body : Option Bytes
  pub bytes_read : ℕ

abbrev pub extend_full : Option Bytes → Bytes → Option Bytes
extend_full none bounded = none
extend_full (some full) bounded = some (full ++ bounded)

-- The state after one chunk, and whether the cap is reached.
unfoldable pub push_bounded_body :
    BodyState → (max_body_bytes : ℕ) → (chunk : Bytes) → BodyState × Bool
unfolding push_body_snippet
push_bounded_body s max_body_bytes chunk =
    let n = min (length chunk) (max_body_bytes - s.bytes_read) in
    let bounded = take n chunk in
    let next : BodyState = record {
      snippet = push_body_snippet s.snippet bounded;
      full_body = extend_full s.full_body bounded;
      bytes_read = s.bytes_read + n;
    } in
    (next, leb max_body_bytes (s.bytes_read + n))

-- The loop over the data frames: it stops once the cap is reached.
unfoldable pub read_frames : (max_body_bytes : ℕ) → BodyState → List Bytes → BodyState × Bool
unfolding push_bounded_body
read_frames max_body_bytes s [] = (s, false)
read_frames max_body_bytes s (chunk ∷ frames) =
    let next = (push_bounded_body s max_body_bytes chunk).0 in
    let capped = (push_bounded_body s max_body_bytes chunk).1 in
    let rest = read_frames max_body_bytes next frames in if capped then (next, true) else rest

-- The state before the first frame.
abbrev pub no_body : Bool → BodyState
no_body keep = record { snippet = []; full_body = (if keep then some [] else none); bytes_read = 0 }
