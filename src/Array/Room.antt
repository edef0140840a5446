-- ===== src/Array/Room.antt =====
-- An array with room takes an item at its front whatever the allocator does.
use chimp.Common.{suc, ◌+◌, ◌<◌, ◌≤◌, ◌≡◌, ap, List, ◌∷◌, arith, length, inl, inr}
use chimp.Common.Runs.{done, bind_done}
use chimp.Memory.{Allocator, write}
use chimp.Array.{Array, grow, unshift, move_up}
use chimp.Array.Valid.{IsValid, contents, length-contents}
use chimp.Array.Ends.{Holds, unshift_lem, grow-capacity}

module _ {ℓ} {A : Type ℓ} where
  unshift-capacity :
      (m : Allocator A) (self arr' : Array A) (value : A)
      → unshift m self value ≡ done arr'
      → self.capacity ≤ arr'.capacity
  unfolding unshift
  unshift-capacity m self arr' value e =
      let (arr, g, e₁) = bind_done (grow m self) _ e in
      let (moved, r, e₂) = bind_done (move_up arr.size arr.items) _ e₁ in
      let (items, w, e₃) = bind_done (write moved 0 value) _ e₂ in
      omega (arith, grow-capacity m self arr g, cap arr items e₃)
    where
      cap :
          (arr : Array A) (items : List A)
          → done (record arr { items = items; size = arr.size + 1 }) ≡ done arr'
          → arr.capacity ≡ arr'.capacity
      cap arr items h = ground arith

  pub unshift_room :
      (m : Allocator A) (self : Array A) (value : A)
      → IsValid self
      → self.size < self.capacity
      → (arr' : Array A) × (unshift m self value ≡ done arr')
        × Holds (value ∷ contents self) arr'
        × (arr'.size ≡ suc self.size)
        × (self.capacity ≤ arr'.capacity)
  unshift_room m self value v room = elim (unshift_lem m self value v (λ s. absurd (omega arith))) [
    | inl (arr', e, h) ↦ (
      arr',
      e,
      h,
      omega (arith, ap length h.holds, length-contents self v, length-contents arr' h.valid),
      unshift-capacity m self arr' value e,
    )
    | inr (e, r) ↦ absurd (omega arith)
  ]
