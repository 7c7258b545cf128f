-- ===== src/Base/Utf8.antt =====
-- `String::from_utf8_lossy`: the bytes, with U+FFFD (EF BF BD) for each maximal part of a sequence
-- that is no UTF-8.
use Prim.Native.Nat.{ℕ, zero, suc}
use mathlib.Core.Path.{◌≡◌, refl}
use mathlib.Core.Bool.{Bool, true, false, ◌&&◌}
use mathlib.Core.List.{List, [], ◌∷◌, ◌++◌}
use native.Mathlib.Omega.{arith}
use ip_tools.Base.Logic.{ltb, leb, ◌==◌, nat_eq, if◌then◌else◌}
use ip_tools.Base.Lists.{All}
use ip_tools.Base.Strings.{Bytes, Text}

abbrev is_continuation : ℕ → Bool
is_continuation c = leb 0x80 c && leb c 0xBF

-- How many bytes a sequence with this first byte has; 0 for a byte that starts none.
abbrev utf8_width : ℕ → ℕ
utf8_width b =
    if ltb b 0x80
    then 1
    else if leb 0xC2 b && leb b 0xDF
    then 2
    else if leb 0xE0 b && leb b 0xEF
    then 3
    else if leb 0xF0 b && leb b 0xF4
    then 4
    else 0

-- Whether the second byte can follow the first in a sequence of three or four.
abbrev second_fits : ℕ → ℕ → Bool
second_fits b c =
    if b == 0xE0
    then leb 0xA0 c && leb c 0xBF
    else if b == 0xED
    then leb 0x80 c && leb c 0x9F
    else if b == 0xF0
    then leb 0x90 c && leb c 0xBF
    else if b == 0xF4
    then leb 0x80 c && leb c 0x8F
    else is_continuation c

-- How many bytes at the front are taken together, and whether they are a character.
unfoldable pub utf8_step : ℕ → List ℕ → ℕ × Bool
utf8_step b rest =
    let w = utf8_width b in
    if w == 1 then (1, true) else if w == 0 then (1, false) else elim rest [
      | [] ↦ (1, false)
      | c ∷ more ↦ if not_fitting b c then (1, false) else if w == 2 then (2, true) else elim more [
        | [] ↦ (2, false)
        | d ∷ last ↦
            if is_continuation d
            then (if w == 3 then (3, true) else elim last [
              | [] ↦ (3, false)
              | e ∷ _ ↦ if is_continuation e then (4, true) else (3, false)
            ])
            else (2, false)
      ]
    ]
  where
    not_fitting : ℕ → ℕ → Bool
    not_fitting b c = if second_fits b c then false else true

abbrev pub replacement : Text
replacement = 0xEF ∷ 0xBF ∷ 0xBD ∷ []

-- `keep` bytes of a character are still to be copied, `skip` bytes to be passed over.
unfoldable pub lossy : (keep skip : ℕ) → Bytes → Text
unfolding utf8_step
lossy keep skip [] = []
lossy (suc keep) skip (b ∷ rest) = b ∷ lossy keep skip rest
lossy zero (suc skip) (b ∷ rest) = lossy zero skip rest
lossy zero zero (b ∷ rest) =
    let (n, whole) = utf8_step b rest in
    let copied = b ∷ lossy (Prim.Native.Nat.pred n) 0 rest in
    let replaced = replacement ++ lossy 0 (Prim.Native.Nat.pred n) rest in
    if whole then copied else replaced

unfoldable pub from_utf8_lossy : Bytes → Text
unfolding lossy
from_utf8_lossy = lossy 0 0

abbrev pub IsAscii : Bytes → Type 0
IsAscii = All (λ c. Prim.Native.Nat.◌<◌ c 0x80)

-- ASCII bytes pass unchanged.
pub from_utf8_lossy-IsAscii : (s : Bytes) → IsAscii s → from_utf8_lossy s ≡ s
unfolding from_utf8_lossy
from_utf8_lossy-IsAscii [] h = refl
from_utf8_lossy-IsAscii (c ∷ s) (h, hs) = ground (arith, from_utf8_lossy-IsAscii s hs)
