-- ===== src/Symtable/Stack.antt =====
-- libchimp/symtable.c: the stack of the scopes around the current one, as a list.
use chimp.Common.{
  ℕ, ◌-◌, ◌≡◌, ◌≤◌, refl, ap, ap₂, subst, sym, ◌∙◌, Bool, true, false, Option, none, some, List, [],
  ◌∷◌, ◌++◌, arith, length, length-append, inl, inr, ltb, some_inj,
}
use chimp.Common.Runs.{Always-if, Run, done, bug, fault, Always, Always-bind, Always-done}
use chimp.Array.{Array, push, pop, new, new_with_capacity}
use chimp.Array.Valid.{IsValid, contents}
use chimp.Array.Ends.{Holds, push_lem, push-capacity}
use chimp.Array.Take.{pop_lem}
use chimp.Memory.{Allocator, read}
use chimp.Symtable.{Symtable, and_then}

tails : {a b : ℕ} {xs ys : List ℕ} → a ∷ xs ≡ b ∷ ys → xs ≡ ys
tails h = cc h

snoc_inj : {x y : ℕ} (xs ys : List ℕ) → xs ++ x ∷ [] ≡ ys ++ y ∷ [] → (xs ≡ ys) × (x ≡ y)
snoc_inj [] [] h = (refl, cc h)
snoc_inj [] (b ∷ ys) h = absurd (omega (arith, ap length h, length-append ys))
snoc_inj (a ∷ xs) [] h = absurd (omega (arith, ap length h, length-append xs))
snoc_inj (a ∷ xs) (b ∷ ys) h =
    let (p, q) = snoc_inj xs ys (tails h) in
    let head : a ≡ b = cc h in (ap₂ (λ a t. a ∷ t) head p, q)

-- The stack is an array that `chimp_array_new` has made: it never has the capacity that cannot grow.
pub record Stacked (xs : List ℕ) (stack : Array ℕ) : Type 0 where
  pub valid : IsValid stack
  pub room : 10 ≤ stack.capacity
  pub holds : contents stack ≡ xs

pub new-Stacked : (m : Allocator ℕ) (stack : Array ℕ) → new m ≡ some stack → Stacked [] stack
unfolding new new_with_capacity
new-Stacked m stack e = at (m.alloc 10) refl e
  where
    at :
        (o : Option (List ℕ))
        → m.alloc 10 ≡ o
        → (elim o as (λ _. Option (Array ℕ)) [
          | none ↦ none
          | some b ↦ some (record { items = b; size = 0; capacity = 10 })
        ])
          ≡ some stack
        → Stacked [] stack
    at none q h = absurd (cc h)
    at (some b) q h = subst (Stacked []) (some_inj h) (record {
      valid = record { fits = omega arith; allocated = m.alloc_length 10 b q };
      room = omega arith;
      holds = refl;
    })

pub push-Stacked :
    (m : Allocator ℕ) (xs : List ℕ) (stack stack' : Array ℕ) (v : ℕ)
    → Stacked xs stack
    → push m stack v ≡ done stack'
    → Stacked (xs ++ v ∷ []) stack'
push-Stacked m xs stack stack' v h e =
    elim (push_lem m stack v h.valid (λ s. omega (arith, h.room, s.1))) [
      | inl (arr, p, q) ↦ let same : arr ≡ stack' = cc (e, p) in subst_stacked arr same q
      | inr (p, q) ↦ absurd (cc (e, p))
    ]
  where
    subst_stacked :
        (arr : Array ℕ)
        → arr ≡ stack'
        → Holds (contents stack ++ v ∷ []) arr
        → Stacked (xs ++ v ∷ []) stack'
    subst_stacked arr same q = record {
      valid = subst IsValid same q.valid;
      room = omega (arith, push-capacity m stack stack' v e, h.room);
      holds = ap contents (sym same) ∙ q.holds ∙ ap (λ t. t ++ v ∷ []) h.holds;
    }

pub true-ne-false : ¬ (true ≡ false)
true-ne-false e = cc e

pop-capacity :
    (nil : ℕ) (arr : Array ℕ) → Always (λ (x, arr'). arr'.capacity ≡ arr.capacity) (pop nil arr)
unfolding pop
pop-capacity nil arr =
    Always-if _ (ltb 0 arr.size) _ _
      (λ _. Always-bind _ (read arr.items (arr.size - 1)) _ (λ x _. refl)) (λ _. refl)

pub pop-Stacked :
    (nil : ℕ) (xs : List ℕ) (y : ℕ) (stack : Array ℕ)
    → Stacked (xs ++ y ∷ []) stack
    → (stack' : Array ℕ) × (pop nil stack ≡ done (y, stack')) × Stacked xs stack'
pop-Stacked nil xs y stack h = elim (pop_lem nil stack h.valid) [
  | inl (p, q) ↦ absurd (omega (arith, ap length (sym p ∙ h.holds), length-append xs))
  | inr (x, stack', p, v, q) ↦
      let (a, b) = snoc_inj xs (contents stack') (sym h.holds ∙ q) in
      (
        stack',
        p ∙ ap (λ t. done (t, stack')) (sym b),
        record {
          valid = v;
          room = omega (arith, h.room, Always-done _ _ (x, stack') p (pop-capacity nil stack));
          holds = sym a;
        },
      )
]

-- Inversion of two visits in a row that returned CHIMP_TRUE
pub and_then-true :
    (r : Run (Bool × Symtable)) (f : Symtable → Run (Bool × Symtable)) (s' : Symtable)
    → and_then r f ≡ done (true, s')
    → (s : Symtable) × (r ≡ done (true, s)) × (f s ≡ done (true, s'))
unfolding and_then
and_then-true (done (true, s)) f s' e = (s, refl, e)
and_then-true (done (false, s)) f s' e = absurd (cc e)
and_then-true bug f s' e = absurd (cc e)
and_then-true fault f s' e = absurd (cc e)
