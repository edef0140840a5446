-- ===== src/Array/Granted.antt =====
-- Arrays where memory is granted.
use chimp.Common.{ℕ, ◌≤◌, ◌≡◌, refl, sym, ◌∙◌, some, none, List, [], ◌∷◌, ◌++◌, arith, inl, inr}
use chimp.Common.Runs.{done}
use chimp.Memory.{Allocator}
use chimp.Array.{Array, new_capacity, new_with_capacity, push}
use chimp.Array.Valid.{IsValid, contents}
use chimp.Array.Ends.{Holds, push_lem, push-capacity}

-- The allocator that never refuses.
abbrev pub Serves : {A : Type 0} → Allocator A → Type 0
Serves {A} m = (n : ℕ) → (b : List A) × (m.alloc n ≡ some b)

module _ {A : Type 0} (m : Allocator A) (serves : Serves m) where
  -- A fresh block of capacity `c` is an empty valid array.
  pub new_with_capacity_lem :
      (c : ℕ)
      → (arr : Array A) × (new_with_capacity m c ≡ some arr)
        × IsValid arr
        × (arr.size ≡ 0)
        × (arr.capacity ≡ c)
  unfolding new_with_capacity
  new_with_capacity_lem c =
      let (b, e) = serves c in
      (
        record { items = b; size = 0; capacity = c },
        rw (e, new_with_capacity),
        record { fits = omega arith; allocated = m.alloc_length c b e },
        refl,
        refl,
      )

  pub push_serves :
      (arr : Array A) (value : A)
      → IsValid arr
      → 2 ≤ arr.capacity
      → (arr' : Array A) × (push m arr value ≡ done arr')
        × Holds (contents arr ++ value ∷ []) arr'
        × (2 ≤ arr'.capacity)
  push_serves arr value v two = elim (push_lem m arr value v (λ s. absurd (omega arith))) [
    | inl (arr', e, h) ↦ (arr', e, h, omega (arith, push-capacity m arr arr' value e))
    | inr (e, r) ↦
        let (b, q) = serves (new_capacity arr.capacity) in
        let clash : none ≡ some b = sym r.1 ∙ q in absurd (cc clash)
  ]
