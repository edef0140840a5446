-- ===== src/Vm/Act.antt =====
-- Calls that change a state, in sequence.
use chimp.Common.Runs
use chimp.Common.Runs.{Run, done, bug, fault}

abbrev pub Act {ℓ κ} : Type ℓ → Type κ → Type (ℓ ⊔ κ)
Act S A = S → Run (A × S)

module _ {ℓ κ} {S : Type ℓ} {A : Type κ} where
  abbrev pub return : A → Act S A
  return a s = done (a, s)

  -- CHIMP_BUG
  abbrev pub abort : Act S A
  abort s = bug

  abbrev pub lift : Run A → Act S A
  lift (done a) s = done (a, s)
  lift bug s = bug
  lift fault s = fault

infixl 5 ◌>>=◌
abbrev pub ◌>>=◌ {ℓ κ μ} :
    {S : Type ℓ} {A : Type κ} {B : Type μ} → Act S A → (A → Act S B) → Act S B
◌>>=◌ m f s = Runs.◌>>=◌ (m s) (λ r. f r.0 r.1)
