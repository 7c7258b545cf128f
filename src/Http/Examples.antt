-- ===== src/Http/Examples.antt =====
-- A body in two frames under a cap of three bytes.
use ip_tools.Base.{◌≡◌, true, [], ◌∷◌, take}
use ip_tools.Http.Body.{read_frames, no_body}
use ip_tools.Http.Body.Bounded.{concat, state_of, read_frames-take}

read_frames-take_example :
    (read_frames 3 (no_body true) ((1 ∷ 2 ∷ []) ∷ (3 ∷ 4 ∷ []) ∷ [])).0
    ≡ state_of true (take 3 (concat ((1 ∷ 2 ∷ []) ∷ (3 ∷ 4 ∷ []) ∷ [])))
read_frames-take_example = read_frames-take true 3 ((1 ∷ 2 ∷ []) ∷ (3 ∷ 4 ∷ []) ∷ [])
