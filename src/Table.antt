-- ===== src/Table.antt =====
-- The search loop that `chimp_hash_put`, `chimp_hash_get` (hash.c) and `chimp_lwhash_find` (lwhash.c)
-- each write out, and the association list that both tables stand for.
pub mod Laws
use mathlib.Core.Option
use chimp.Common.{ℕ, zero, suc, ◌+◌, ◌≡◌, Option, none, some, List, [], ◌∷◌}
use chimp.Common.Runs.{Run, done, ◌>>=◌}
use chimp.Compare.{CmpResult, cmp_error, not_impl, lt, eq, gt}
use chimp.Memory.{read}

-- How the loop ends: a comparison failed, a key compared equal, or neither.
pub data Found : Type 0 where
  failed absent : Found
  found : ℕ → Found

-- The tests on one comparison, at index `i`; `none` goes on.
abbrev pub on_key : ℕ → CmpResult → Option Found
on_key i cmp_error = some failed
on_key i eq = some (found i)
on_key i _ = none

-- `for (i = 0; i < size; i++)` over a block of entries, with `k` rounds left
unfoldable pub scan {ℓ} : {E : Type ℓ} → (E → CmpResult) → List E → ℕ → ℕ → Run Found
scan test block zero i = done absent
scan test block (suc k) i = do
  e ← read block i
  elim (on_key i (test e)) [ some r ↦ done r | none ↦ scan test block k (suc i) ]

-- What a lookup gives: an error, the value of the first key that compares equal, or nothing.
pub data Looked (V : Type 0) : Type 0 where
  error missing : Looked V
  value : V → Looked V

module _ {K V : Type 0} (cmp : K → K → CmpResult) where
  -- The lookup in an association list.
  abbrev pub look : K → List (K × V) → Looked V
  look key [] = missing
  look key ((k, v) ∷ m) = elim (cmp k key) [ cmp_error ↦ error | eq ↦ value v | _ ↦ look key m ]

  -- The update of an association list; `none` where a comparison fails.
  abbrev pub update : K → V → List (K × V) → Option (List (K × V))
  update key v [] = some ((key, v) ∷ [])
  update key v ((k, w) ∷ m) = elim (cmp k key) [
    | cmp_error ↦ none
    | eq ↦ some ((k, v) ∷ m)
    | _ ↦ Option.map (λ m'. (k, w) ∷ m') (update key v m)
  ]
