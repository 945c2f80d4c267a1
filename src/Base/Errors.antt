-- ===== src/Base/Errors.antt =====
-- A Go function that returns a value and an `error`, or panics. An error is the text of its
-- `Error()`, which is all that the program reads of one; `panic` is an index out of range.
use Prim.Native.Nat.{ℕ, ◌-◌, ◌<◌, suc, zero}
use mathlib.Core.Path.{◌≡◌, refl, subst}
use mathlib.Core.Bool.{Bool, true, false, ◌&&◌}
use mathlib.Core.List.{[], ◌∷◌, ◌++◌}
use mathlib.Core.Option.{Option, none, some}
use native.Mathlib.Omega.{arith}
use ssl_certificate_verifier.Base.Bytes.{Text}
use ssl_certificate_verifier.Base.Lists.{get_elem?, get_elem?-append, length, take, drop}
use ssl_certificate_verifier.Base.Tests.{leb, if◌then◌else◌}

pub data Outcome {ℓ} (A : Type ℓ) : Type ℓ where
  ok : A → Outcome A
  err : Text → Outcome A
  panic : Outcome A

-- The next step runs on a value only.
infixl 5 ◌>>=◌
abbrev pub ◌>>=◌ {ℓ₁ ℓ₂} : {S : Type ℓ₁} {T : Type ℓ₂} → Outcome S → (S → Outcome T) → Outcome T
panic >>= step = panic
err message >>= step = err message
ok s >>= step = step s

abbrev is_ok {ℓ} : {A : Type ℓ} → Outcome A → Bool
is_ok (ok a) = true
is_ok (err e) = false
is_ok panic = false

abbrev or_panic {ℓ} : {A : Type ℓ} → Option A → Outcome A
or_panic none = panic
or_panic (some a) = ok a

-- `s[i]` and `s[lo:hi]`.
unfoldable pub byte_at : Text → ℕ → Outcome ℕ
byte_at s i = or_panic (get_elem? s i)

unfoldable pub slice : Text → ℕ → ℕ → Outcome Text
slice s lo hi = if leb lo hi && leb hi (length s) then ok (take (hi - lo) (drop lo s)) else panic

-- An index in range does not panic.
pub byte_at-lt : (s : Text) (i : ℕ) → i < length s → (b : ℕ) × (byte_at s i ≡ ok b)
unfolding byte_at
byte_at-lt [] i h = absurd (omega arith)
byte_at-lt (c ∷ s) zero h = (c, refl)
byte_at-lt (c ∷ s) (suc i) h = byte_at-lt s i (omega arith)

pub byte_at-append :
    (pre : Text) (c : ℕ) (rest : Text) → byte_at (pre ++ (c ∷ rest)) (length pre) ≡ ok c
unfolding byte_at
byte_at-append pre c rest = rw get_elem?-append

-- The outcome is no panic, and its value, if it has one, satisfies `P`.
abbrev pub Safely {ℓ} : {A : Type ℓ} → (A → Type 0) → Outcome A → Type 0
Safely P (ok a) = P a
Safely P (err e) = Unit
Safely P panic = ⊥

-- The rule for a sequence of two steps, and for a branch.
pub Safely->>= :
    {A B : Type 0} (P : A → Type 0) (Q : B → Type 0) (m : Outcome A) (f : A → Outcome B)
    → Safely P m
    → ((a : A) → P a → Safely Q (f a))
    → Safely Q (m >>= f)
Safely->>= P Q (ok a) f h k = k a h
Safely->>= P Q (err e) f h k = tt
Safely->>= P Q panic f h k = h

pub Safely-if {ℓ} :
    {A : Type ℓ} (P : A → Type 0) (b : Bool) (x y : Outcome A)
    → (b ≡ true → Safely P x)
    → (b ≡ false → Safely P y)
    → Safely P (if b then x else y)
Safely-if P true x y h k = h refl
Safely-if P false x y h k = k refl

-- Where a sequence succeeds, both of its steps have.
pub >>=-eq-ok {ℓ₁ ℓ₂} :
    {S : Type ℓ₁} {T : Type ℓ₂} (first : Outcome S) (step : S → Outcome T) {t : T}
    → (first >>= step) ≡ ok t
    → (s : S) × (first ≡ ok s) × (step s ≡ ok t)
>>=-eq-ok panic step e = cc
>>=-eq-ok (err message) step e = cc
>>=-eq-ok (ok s) step e = (s, refl, e)

-- Steps that agree on every value.
pub bind_eq :
    {A B : Type 0} (m : Outcome A) (f g : A → Outcome B)
    → ((a : A) → f a ≡ g a)
    → (m >>= f) ≡ (m >>= g)
bind_eq (ok a) f g h = h a
bind_eq (err e) f g h = refl
bind_eq panic f g h = refl

-- The value, if there is one, satisfies `P`.
abbrev pub IfOk {ℓ} : {A : Type ℓ} → (A → Type 0) → Outcome A → Type 0
IfOk P (ok a) = P a
IfOk P (err e) = Unit
IfOk P panic = Unit

pub IfOk->>= :
    {A B : Type 0} (P : A → Type 0) (Q : B → Type 0) (m : Outcome A) (f : A → Outcome B)
    → IfOk P m
    → ((a : A) → P a → IfOk Q (f a))
    → IfOk Q (m >>= f)
IfOk->>= P Q (ok a) f h k = k a h
IfOk->>= P Q (err e) f h k = tt
IfOk->>= P Q panic f h k = tt

pub IfOk-if {ℓ} :
    {A : Type ℓ} (P : A → Type 0) (b : Bool) (x y : Outcome A)
    → (b ≡ true → IfOk P x)
    → (b ≡ false → IfOk P y)
    → IfOk P (if b then x else y)
IfOk-if P true x y h k = h refl
IfOk-if P false x y h k = k refl

pub IfOk-ok {ℓ} : {A : Type ℓ} (P : A → Type 0) (m : Outcome A) (a : A) → IfOk P m → m ≡ ok a → P a
IfOk-ok P m a h e = subst (IfOk P) e h

pub IfOk-mono {ℓ} :
    {A : Type ℓ} (P Q : A → Type 0) (m : Outcome A) → ((a : A) → P a → Q a) → IfOk P m → IfOk Q m
IfOk-mono P Q (ok a) f h = f a h
IfOk-mono P Q (err e) f h = tt
IfOk-mono P Q panic f h = tt

pub Safely-mono {ℓ} :
    {A : Type ℓ} (P Q : A → Type 0) (m : Outcome A)
    → ((a : A) → P a → Q a)
    → Safely P m
    → Safely Q m
Safely-mono P Q (ok a) f h = f a h
Safely-mono P Q (err e) f h = tt
Safely-mono P Q panic f h = h

-- The outcome is a value, and it satisfies `P`.
abbrev pub Returns {ℓ} : {A : Type ℓ} → (A → Type 0) → Outcome A → Type 0
Returns P (ok a) = P a
Returns P (err e) = ⊥
Returns P panic = ⊥

pub Returns->>= :
    {A B : Type 0} (P : A → Type 0) (Q : B → Type 0) (m : Outcome A) (f : A → Outcome B)
    → Returns P m
    → ((a : A) → P a → Returns Q (f a))
    → Returns Q (m >>= f)
Returns->>= P Q (ok a) f h k = k a h
Returns->>= P Q (err e) f h k = h
Returns->>= P Q panic f h k = h

pub Returns-if {ℓ} :
    {A : Type ℓ} (P : A → Type 0) (b : Bool) (x y : Outcome A)
    → (b ≡ true → Returns P x)
    → (b ≡ false → Returns P y)
    → Returns P (if b then x else y)
Returns-if P true x y h k = h refl
Returns-if P false x y h k = k refl

pub Returns-mono {ℓ} :
    {A : Type ℓ} (P Q : A → Type 0) (m : Outcome A)
    → ((a : A) → P a → Q a)
    → Returns P m
    → Returns Q m
Returns-mono P Q (ok a) f h = f a h
Returns-mono P Q (err e) f h = h
Returns-mono P Q panic f h = h
