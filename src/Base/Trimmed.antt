-- ===== src/Base/Trimmed.antt =====
-- A text of visible ASCII characters has nothing to trim.
use ip_tools.Base.Logic.{leb, nat_eq}
use ip_tools.Base.Lists.{all}
use ip_tools.Base.Strings.{Text, trim, trim_front}
use Prim.Native.Nat.{ℕ}
use mathlib.Core.Path.{◌≡◌, refl}
use mathlib.Core.Bool.{Bool, true, false, ◌&&◌}
use mathlib.Core.List.{[], ◌∷◌, ◌++◌, reverse, reverse-cons, reverse-reverse}
use native.Mathlib.Omega.{arith}

abbrev pub is_visible : ℕ → Bool
is_visible c = leb 33 c && leb c 126

trim_front-visible : (back : Bool) (s : Text) → all is_visible s ≡ true → trim_front back s ≡ s
unfolding trim_front
trim_front-visible back [] h = refl
trim_front-visible back (a ∷ []) h = ground (arith, h)
trim_front-visible true (a ∷ b ∷ []) h = ground (arith, h)
trim_front-visible false (a ∷ b ∷ []) h = ground (arith, h)
trim_front-visible true (a ∷ b ∷ c ∷ s) h = ground (arith, h)
trim_front-visible false (a ∷ b ∷ c ∷ s) h = ground (arith, h)

pub all-append : (p : ℕ → Bool) (s t : Text) → all p (s ++ t) ≡ (all p s && all p t)
all-append p [] t = refl
all-append p (c ∷ s) t = ground (arith, all-append p s t)

pub all-reverse : (p : ℕ → Bool) (s : Text) → all p s ≡ true → all p (reverse s) ≡ true
all-reverse p [] h = refl
all-reverse p (c ∷ s) h =
    rw (reverse-cons c s, all-append p (reverse s) (c ∷ []))
      (ground (arith, h, all-reverse p s (ground (arith, h))))

pub trim-visible : (s : Text) → all is_visible s ≡ true → trim s ≡ s
unfolding trim
trim-visible s h =
    rw
      (
        trim_front-visible false s h,
        trim_front-visible true (reverse s) (all-reverse is_visible s h),
      )
      (reverse-reverse s)
