-- ===== src/Dns/Outcome.antt =====
-- What the wire decoders end in: a value, one of their error messages, or a panic (an index or a
-- slice out of range, a failed `expect`). `diverged` stands for fuel that ran out.
use ip_tools.Base.{
  ℕ, zero, suc, ◌≤◌, ◌<◌, ◌-◌, Text, Bytes, [], ◌∷◌, ◌≡◌, refl, ◌⊎◌, inl, inr, Bool, true, false,
  ◌&&◌, none, some, Option-cases, arith, get_elem?, take, drop, length, length-take, length-drop,
  leb, if◌then◌else◌,
}

pub data WireError : Type 0 where
  short_header truncated_answer truncated_rdata truncated_soa truncated_caa : WireError
  truncated_txt truncated_pointer pointer_out_of_range too_many_hops bad_label_length : WireError
  name_overruns : WireError
  name_overruns_at : ℕ → WireError
  invalid_label : Text → WireError

pub data Outcome {ℓ} (A : Type ℓ) : Type ℓ where
  ok : A → Outcome A
  err : WireError → Outcome A
  panic diverged : Outcome A

infixl 5 ◌>>=◌
abbrev pub ◌>>=◌ {ℓ κ} : {A : Type ℓ} {B : Type κ} → Outcome A → (A → Outcome B) → Outcome B
ok a >>= f = f a
err e >>= f = err e
panic >>= f = panic
diverged >>= f = diverged

-- `bytes.get(pos).ok_or(e)?`.
abbrev pub get_or_err : Bytes → ℕ → WireError → Outcome ℕ
get_or_err bytes pos e = elim (get_elem? bytes pos) [ none ↦ err e | some b ↦ ok b ]

-- `bytes[pos]`.
abbrev pub index : Bytes → ℕ → Outcome ℕ
index bytes pos = elim (get_elem? bytes pos) [ none ↦ panic | some b ↦ ok b ]

-- `&bytes[a..b]`.
abbrev pub slice : Bytes → ℕ → ℕ → Outcome Bytes
slice bytes a b =
    if leb a b && leb b (length bytes) then ok (take (b - a) (drop a bytes)) else panic

-- `if b { return Err(e) }`.
abbrev pub reject : Bool → WireError → Outcome (Unit {0})
reject b e = if b then err e else ok tt

-- An outcome that is a value with the property, or an error message: no panic, and enough fuel.
pub data Settles {A : Type 0} (P : A → Type 0) : Outcome A → Type 0 where
  settled : {a : A} → P a → Settles P (ok a)
  failed : {e : WireError} → Settles P (err e)

abbrev pub Anything : {A : Type 0} → A → Type 0
Anything a = Unit

pub bind-Settles :
    {A B : Type 0} {P : A → Type 0} {Q : B → Type 0} {o : Outcome A} (f : A → Outcome B)
    → Settles P o
    → ((a : A) → P a → Settles Q (f a))
    → Settles Q (o >>= f)
bind-Settles f (settled {a = a} h) k = k a h
bind-Settles f failed k = failed

pub if-Settles :
    {A : Type 0} {P : A → Type 0} (b : Bool) (x y : Outcome A)
    → (b ≡ true → Settles P x)
    → (b ≡ false → Settles P y)
    → Settles P (if b then x else y)
if-Settles true x y h k = h refl
if-Settles false x y h k = k refl

pub reject-Settles : (b : Bool) (e : WireError) → Settles (λ t. b ≡ false) (reject b e)
reject-Settles true e = failed
reject-Settles false e = settled refl

pub get_elem?-lt : (bytes : Bytes) (pos b : ℕ) → get_elem? bytes pos ≡ some b → pos < length bytes
get_elem?-lt [] pos b h = cc
get_elem?-lt (c ∷ bytes) zero b h = omega arith
get_elem?-lt (c ∷ bytes) (suc pos) b h = omega (arith, get_elem?-lt bytes pos b h)

pub lt-get_elem? :
    (bytes : Bytes) (pos : ℕ) → pos < length bytes → (b : ℕ) × (get_elem? bytes pos ≡ some b)
lt-get_elem? [] pos h = absurd (omega arith)
lt-get_elem? (c ∷ bytes) zero h = (c, refl)
lt-get_elem? (c ∷ bytes) (suc pos) h = lt-get_elem? bytes pos (omega arith)

pub get_or_err-Settles :
    (bytes : Bytes) (pos : ℕ) (e : WireError)
    → Settles (λ b. pos < length bytes) (get_or_err bytes pos e)
get_or_err-Settles bytes pos e = elim (Option-cases (get_elem? bytes pos)) [
  | inl h ↦ rw (h, get_or_err) failed
  | inr (b, h) ↦ rw (h, get_or_err) (settled (get_elem?-lt bytes pos b h))
]

pub index-Settles :
    (bytes : Bytes) (pos : ℕ) → pos < length bytes → Settles Anything (index bytes pos)
index-Settles bytes pos h = let (b, e) = lt-get_elem? bytes pos h in rw (e, index) (settled tt)

pub slice-Settles :
    (bytes : Bytes) (a b : ℕ)
    → a ≤ b
    → b ≤ length bytes
    → Settles (λ s. length s ≡ b - a) (slice bytes a b)
slice-Settles bytes a b h k =
    if-Settles (leb a b && leb b (length bytes)) _ _
      (λ e. settled (omega (arith, length-take (b - a) (drop a bytes), length-drop a bytes)))
      (λ e. absurd (ground (arith, e)))

pub weaken :
    {A : Type 0} {P Q : A → Type 0} {o : Outcome A}
    → ((a : A) → P a → Q a)
    → Settles P o
    → Settles Q o
weaken f (settled {a = a} h) = settled (f a h)
weaken f failed = failed

-- A chain that ends in a value had a value at its first step.
pub ok-bind :
    {A B : Type 0} (o : Outcome A) (f : A → Outcome B) (b : B)
    → (o >>= f) ≡ ok b
    → (a : A) × (o ≡ ok a) × (f a ≡ ok b)
ok-bind (ok a) f b h = (a, refl, h)
ok-bind (err e) f b h = cc h
ok-bind panic f b h = cc h
ok-bind diverged f b h = cc h

pub ok-reject : (c : Bool) (e : WireError) (t : Unit {0}) → reject c e ≡ ok t → c ≡ false
ok-reject true e t h = cc h
ok-reject false e t h = refl

pub if_cases :
    {A : Type 0} (c : Bool) (x y z : A)
    → (if c then x else y) ≡ z
    → ((c ≡ true) × (x ≡ z)) ⊎ ((c ≡ false) × (y ≡ z))
if_cases true x y z h = inl (refl, h)
if_cases false x y z h = inr (refl, h)

pub bind-ok :
    {A B : Type 0} {a : A} (o : Outcome A) (f : A → Outcome B) (z : Outcome B)
    → o ≡ ok a
    → f a ≡ z
    → (o >>= f) ≡ z
bind-ok o f z e h = rw e h

pub if_true : {A : Type 0} (c : Bool) (x y z : A) → c ≡ true → x ≡ z → (if c then x else y) ≡ z
if_true c x y z e h = rw e h

pub if_false : {A : Type 0} (c : Bool) (x y z : A) → c ≡ false → y ≡ z → (if c then x else y) ≡ z
if_false c x y z e h = rw e h
