-- ===== src/Vm/Stack.antt =====
-- The machine's value stack against a list of references, the top one last.
use mathlib.Core.List.{append_assoc, head-eq_of_cons-eq, tail-eq_of_cons-eq}
use chimp.Common.{
  ℕ, ◌-◌, ◌≡◌, refl, sym, ap, ◌∙◌, some, List, [], ◌∷◌, ◌++◌, inl, inr, arith, length,
  length-append, ltb, Bool-cases,
}
use chimp.Common.Runs.{Run, done, bind_done}
use chimp.Memory.{Allocator, read}
use chimp.Array
use chimp.Array.{Array, new_capacity}
use chimp.Array.Valid.{contents}
use chimp.Array.Ends.{Holds, push-capacity}
use chimp.Array.Ends
use chimp.Array.Take
use chimp.Code.Valid.{IsReady}
use chimp.Vm.{Machine, Globals}
use chimp.Vm.Heap.{pop, push, top}

-- Memory is never refused.
abbrev pub Grants : Allocator ℕ → Type 0
Grants mem = (n : ℕ) → (b : List ℕ) × (mem.alloc n ≡ some b)

pub snoc_inj : (xs ys : List ℕ) (x y : ℕ) → xs ++ x ∷ [] ≡ ys ++ y ∷ [] → (xs ≡ ys) × (x ≡ y)
snoc_inj [] [] x y e = (refl, head-eq_of_cons-eq e)
snoc_inj [] (b ∷ []) x y e = absurd (ground (arith, ap length e))
snoc_inj [] (b ∷ c ∷ ys) x y e = absurd (ground (arith, ap length e))
snoc_inj (a ∷ []) [] x y e = absurd (ground (arith, ap length e))
snoc_inj (a ∷ c ∷ xs) [] x y e = absurd (ground (arith, ap length e))
snoc_inj (a ∷ xs) (b ∷ ys) x y e =
    let (s, t) = snoc_inj xs ys x y (tail-eq_of_cons-eq e) in
    let h = head-eq_of_cons-eq e in (cc, t)

pop-capacity :
    (nil : ℕ) (self arr' : Array ℕ) (x : ℕ)
    → Array.pop nil self ≡ done (x, arr')
    → arr'.capacity ≡ self.capacity
unfolding Array.pop
pop-capacity nil self arr' x e = elim (Bool-cases (ltb 0 self.size)) [
  | inr f ↦ ground (arith, e, f)
  | inl t ↦
      let (y, r, s) = bind_done (read self.items (self.size - 1)) _ (rw t at e) in ground (arith, s)
]

module _ {W : Type 0} (mem : Allocator ℕ) (globals : Globals) where
  -- A call gave `r`, and it changed the stack alone, to one that holds `xs`.
  abbrev pub Leaves : {A : Type 0} → Run (A × Machine W) → Machine W → A → List ℕ → Type 0
  Leaves run vm r xs =
      (st : Array ℕ) × (run ≡ done (r, record vm { stack = st })) × IsReady st × (contents st ≡ xs)

  pub pop_lem :
      (vm : Machine W) (xs : List ℕ) (v : ℕ)
      → IsReady vm.stack
      → contents vm.stack ≡ xs ++ v ∷ []
      → Leaves (pop mem globals vm) vm v xs
  unfolding pop
  pop_lem vm xs v ready e = elim (Take.pop_lem globals.nil vm.stack ready.valid) [
    | inl (empty, _) ↦ absurd (ground (arith, ap length (sym empty ∙ e), length-append xs (v ∷ [])))
    | inr (x, st, ran, valid, split) ↦
        let (rest, top) = snoc_inj (contents st) xs x v (sym split ∙ e) in
        (
          st,
          rw ran (ap (λ y. done (y, record vm { stack = st })) top),
          record {
            valid = valid;
            room = omega (arith, ready.room, pop-capacity globals.nil vm.stack st x ran);
          },
          rest,
        )
  ]

  pub push_lem :
      (vm : Machine W) (v : ℕ)
      → Grants mem
      → IsReady vm.stack
      → Leaves (push mem globals v vm) vm tt (contents vm.stack ++ v ∷ [])
  unfolding push
  push_lem vm v grants ready =
      elim (Ends.push_lem mem vm.stack v ready.valid (λ s. absurd (omega (arith, ready.room)))) [
        | inl (st, ran, h) ↦ (
          st,
          rw ran refl,
          record {
            valid = h.valid;
            room = omega (arith, ready.room, push-capacity mem vm.stack st v ran);
          },
          h.holds,
        )
        | inr (_, (_, refused)) ↦
            let (b, given) = grants (new_capacity vm.stack.capacity) in absurd (cc)
      ]

  -- Popping an empty stack gives nil, not NULL.
  pub pop_empty :
      (vm : Machine W)
      → IsReady vm.stack
      → contents vm.stack ≡ []
      → pop mem globals vm ≡ done (globals.nil, vm)
  unfolding pop
  pop_empty vm ready e = elim (Take.pop_lem globals.nil vm.stack ready.valid) [
    | inl (_, ran) ↦ rw ran refl
    | inr (x, st, _, _, split) ↦
        absurd (ground (arith, ap length (sym e ∙ split), length-append (contents st) (x ∷ [])))
  ]

  -- Two items off the stack, the upper one first
  pub pop_two :
      (vm : Machine W) (xs : List ℕ) (left right : ℕ)
      → IsReady vm.stack
      → contents vm.stack ≡ xs ++ left ∷ right ∷ []
      → (st : Array ℕ) × (st' : Array ℕ) × (pop mem globals vm
          ≡ done (right, record vm { stack = st }))
        × (pop mem globals (record vm { stack = st }) ≡ done (left, record vm { stack = st' }))
        × IsReady st'
        × (contents st' ≡ xs)
  pop_two vm xs left right ready e =
      let (st, ran, ready', rest) =
        pop_lem vm (xs ++ left ∷ []) right ready
          (e ∙ sym (append_assoc xs (left ∷ []) (right ∷ []))) in
      let (st', ran', ready'', rest') = pop_lem (record vm { stack = st }) xs left ready' rest in
      (st, st', ran, ran', ready'', rest')
