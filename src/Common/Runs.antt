-- ===== src/Common/Runs.antt =====
-- What a call of the C code does: it returns, it stops the process in `CHIMP_BUG`
-- (core.c, `chimp_bug` calls `abort`), or it reads or writes memory that it does not own.
use chimp.Common.{◌≡◌, refl, subst, Bool, true, false, if◌then◌else◌}

pub data Run {ℓ} (A : Type ℓ) : Type ℓ where
  done : A → Run A
  bug : Run A
  fault : Run A

infixl 5 ◌>>=◌
abbrev pub ◌>>=◌ {ℓ κ} : {A : Type ℓ} {B : Type κ} → Run A → (A → Run B) → Run B
done a >>= f = f a
bug >>= f = bug
fault >>= f = fault

pub bind_assoc {ℓ κ μ} :
    {A : Type ℓ} {B : Type κ} {C : Type μ} (m : Run A) (f : A → Run B) (g : B → Run C)
    → (m >>= f >>= g) ≡ (m >>= λ a. f a >>= g)
bind_assoc (done a) f g = refl
bind_assoc bug f g = refl
bind_assoc fault f g = refl

pub bind_congr {ℓ κ} :
    {A : Type ℓ} {B : Type κ} (m : Run A) {f g : A → Run B}
    → ((a : A) → f a ≡ g a)
    → (m >>= f) ≡ (m >>= g)
bind_congr m h = λ i. m >>= λ a. h a i

-- Inversion of a sequence that returned.
pub bind_done {ℓ κ} :
    {A : Type ℓ} {B : Type κ} (m : Run A) (f : A → Run B) {b : B}
    → (m >>= f) ≡ done b
    → (a : A) × (m ≡ done a) × (f a ≡ done b)
bind_done (done a) f h = (a, refl, h)
bind_done bug f h = cc
bind_done fault f h = cc

-- `P` holds of the value returned, and the call does return.
abbrev pub Returns {ℓ} : {A : Type ℓ} → Run A → (A → Type 0) → Type 0
Returns (done a) P = P a
Returns bug P = ⊥
Returns fault P = ⊥

-- `P` holds of the value, if the call returns, and the call owns all memory that it touches.
abbrev pub Safe {ℓ} : {A : Type ℓ} → Run A → (A → Type 0) → Type 0
Safe (done a) P = P a
Safe bug P = Unit
Safe fault P = ⊥

-- `P` holds of the value, if the call returns.
abbrev pub Always {ℓ} : {A : Type ℓ} → (A → Type 0) → Run A → Type 0
Always P (done a) = P a
Always P bug = Unit
Always P fault = Unit

pub Always-bind {ℓ κ} :
    {A : Type ℓ} {B : Type κ} (P : B → Type 0) (m : Run A) (f : A → Run B)
    → ((a : A) → m ≡ done a → Always P (f a))
    → Always P (m >>= f)
Always-bind P (done a) f h = h a refl
Always-bind P bug f h = tt
Always-bind P fault f h = tt

pub Always-done {ℓ} :
    {A : Type ℓ} (P : A → Type 0) (r : Run A) (a : A) → r ≡ done a → Always P r → P a
Always-done P r a e h = subst (Always P) e h

pub Always-if {ℓ} :
    {A : Type ℓ} (P : A → Type 0) (b : Bool) (x y : Run A)
    → (b ≡ true → Always P x)
    → (b ≡ false → Always P y)
    → Always P (if b then x else y)
Always-if P true x y h k = h refl
Always-if P false x y h k = k refl

pub Always-map {ℓ} :
    {A : Type ℓ} (P Q : A → Type 0) (r : Run A) → ((a : A) → P a → Q a) → Always P r → Always Q r
Always-map P Q (done a) f h = f a h
Always-map P Q bug f h = tt
Always-map P Q fault f h = tt

pub Always-intro {ℓ} :
    {A : Type ℓ} (P : A → Type 0) (r : Run A) → ((a : A) → r ≡ done a → P a) → Always P r
Always-intro P (done a) h = h a refl
Always-intro P bug h = tt
Always-intro P fault h = tt

-- Two continuations that agree on what the call returns
pub bind_congr_done {ℓ κ} :
    {A : Type ℓ} {B : Type κ} (m : Run A) (f g : A → Run B)
    → ((a : A) → m ≡ done a → f a ≡ g a)
    → (m >>= f) ≡ (m >>= g)
bind_congr_done (done a) f g h = h a refl
bind_congr_done bug f g h = refl
bind_congr_done fault f g h = refl
