-- ===== src/Array/Ends.antt =====
-- The operations at the two ends of an array, against lists.
use chimp.Common.{
  ℕ, zero, suc, ◌+◌, ◌<◌, ◌≤◌, ◌≡◌, refl, ap, some, List, [], ◌∷◌, ◌++◌, arith, length, take, drop,
  set, get_elem?, length-set, take-set_end, take-set_ge, take-snoc, inl, inr, ◌⊎◌, sym, ◌∙◌,
  get_elem?-lt, take-append-drop, drop-set_at, take_at_length, Option-cases, length-append,
  length-take, length-drop,
}
use mathlib.Core.List.{append_assoc}
use native.Mathlib.Numerals.{add-one}
use chimp.Common.Runs.{done, bug, fault, bind_done}
use chimp.Memory.{Allocator, realloc, write}
use chimp.Memory.Laws.{read_lem, write_lem, write-fault}
use chimp.Array.{Array, new_capacity, grow, push, unshift, move_up}
use chimp.Array.Valid.{
  IsValid, IsStuck, IsRefused, contents, length-contents, Grown, grow_lem, grow_stuck,
}

module _ {ℓ} {A : Type ℓ} where
  -- The call returned `arr'`, a valid array that holds `xs`.
  pub record Holds (xs : List A) (arr' : Array A) : Type ℓ where
    pub valid : IsValid arr'
    pub holds : contents arr' ≡ xs

  push-Grown :
      (m : Allocator A) (self arr : Array A) (value : A)
      → grow m self ≡ done arr
      → Grown self arr
      → (arr' : Array A) × (push m self value ≡ done arr')
        × Holds (contents self ++ value ∷ []) arr'
  unfolding push
  push-Grown m self arr value e g = (
    record arr { items = set arr.items arr.size value; size = arr.size + 1 },
    rw (e, write_lem arr.items arr.size value (omega arith)),
    record {
      valid = record {
        fits = omega arith;
        allocated = omega (arith, length-set arr.items arr.size value);
      };
      holds = rw add-one (
          rw (take-set_end arr.size arr.items value (omega arith))
            (ap (λ t. t ++ value ∷ []) g.same_contents));
    },
  )

  -- Appending to a valid array, one that is not stuck at capacity 1, returns a valid array with the
  -- item behind the old contents, or aborts because the array was full and memory ran out.
  pub push_lem :
      (m : Allocator A) (self : Array A) (value : A)
      → IsValid self
      → ¬ (IsStuck self)
      → ((arr' : Array A) × (push m self value ≡ done arr')
          × Holds (contents self ++ value ∷ []) arr')
        ⊎ ((push m self value ≡ bug) × IsRefused m self)
  unfolding push
  push_lem m self value v ns = elim (grow_lem m self v ns) [
    | inl (arr, e, g) ↦ inl (push-Grown m self arr value e g)
    | inr (e, r) ↦ inr (rw e, r)
  ]

  -- Appending to a full array of capacity 1, for which memory is granted, writes past its block.
  pub push_stuck :
      (m : Allocator A) (self : Array A) (value : A) (c : List A)
      → IsValid self
      → IsStuck self
      → m.alloc 1 ≡ some c
      → push m self value ≡ fault
  unfolding push
  push_stuck m self value c v s q =
      let (arr, e, one, len) = grow_stuck m self c v s q in
      rw (e, write-fault arr.items arr.size value (omega arith))

  -- The loop of `chimp_array_unshift` moves the first `n` cells up by one.
  move_up_lem :
      (n : ℕ) (items : List A)
      → n < length items
      → move_up n items ≡ done (take 1 items ++ (take n items ++ drop (suc n) items))
  unfolding move_up
  move_up_lem zero items h = ap done (sym (take-append-drop 1 items))
  move_up_lem (suc i) items h =
      let (x, e) = get_elem?-lt items i (omega arith) in
      rw (read_lem items i x e) (
        rw (write_lem items (suc i) x h) (
          move_up_lem i (set items (suc i) x) (omega (arith, length-set items (suc i) x))
          ∙ ap done (moved x e)))
    where
      moved :
          (x : A)
          → get_elem? items i ≡ some x
          → take 1 (set items (suc i) x)
              ++ (take i (set items (suc i) x) ++ drop (suc i) (set items (suc i) x))
            ≡ take 1 items ++ (take (suc i) items ++ drop (suc (suc i)) items)
      moved x e = rw (
        take-set_ge 1 (suc i) items x (omega arith),
        take-set_ge i (suc i) items x (omega arith),
        drop-set_at items (suc i) x h,
        take-snoc i items x e,
        append_assoc,
      )

  set-take_one :
      (items rest : List A) (value : A)
      → 0 < length items
      → set (take 1 items ++ rest) 0 value ≡ value ∷ rest
  set-take_one [] rest value h = absurd (omega arith)
  set-take_one (x ∷ xs) rest value h = refl

  length-unshifted :
      (n : ℕ) (items : List A) (value : A)
      → n < length items
      → length (value ∷ (take n items ++ drop (suc n) items)) ≡ length items
  length-unshifted n items value h = omega (
    arith,
    length-append (take n items) (drop (suc n) items),
    length-take n items,
    length-drop (suc n) items,
  )

  unshift-Grown :
      (m : Allocator A) (self arr : Array A) (value : A)
      → grow m self ≡ done arr
      → Grown self arr
      → (arr' : Array A) × (unshift m self value ≡ done arr') × Holds (value ∷ contents self) arr'
  unfolding unshift
  unshift-Grown m self arr value e g =
      let rest : List A = take arr.size arr.items ++ drop (suc arr.size) arr.items in
      let len : length (value ∷ rest) ≡ length arr.items =
        length-unshifted arr.size arr.items value (omega arith) in
      (
        record arr { items = value ∷ rest; size = arr.size + 1 },
        rw (e, move_up_lem arr.size arr.items (omega arith))
            (rw
              (write_lem (take 1 arr.items ++ rest) 0 value
                (omega (arith, length-append (take 1 arr.items) rest, length-take 1 arr.items)))
              (rw (set-take_one arr.items rest value (omega arith)))),
        record {
          valid = record { fits = omega arith; allocated = omega arith };
          holds = rw add-one (
              ap (λ t. value ∷ t)
                (take_at_length (take arr.size arr.items) (drop (suc arr.size) arr.items) arr.size
                    (omega (arith, length-take arr.size arr.items))
                  ∙ g.same_contents));
        },
      )

  -- Prepending to a valid array, one that is not stuck at capacity 1, returns a valid array with the
  -- item before the old contents, or aborts because the array was full and memory ran out.
  pub unshift_lem :
      (m : Allocator A) (self : Array A) (value : A)
      → IsValid self
      → ¬ (IsStuck self)
      → ((arr' : Array A) × (unshift m self value ≡ done arr') × Holds (value ∷ contents self) arr')
        ⊎ ((unshift m self value ≡ bug) × IsRefused m self)
  unfolding unshift
  unshift_lem m self value v ns = elim (grow_lem m self v ns) [
    | inl (arr, e, g) ↦ inl (unshift-Grown m self arr value e g)
    | inr (e, r) ↦ inr (rw e, r)
  ]

  pub grow-capacity :
      (m : Allocator A) (self arr : Array A) → grow m self ≡ done arr → self.capacity ≤ arr.capacity
  unfolding grow new_capacity
  grow-capacity m self arr e =
      elim (Option-cases (realloc m self.items (new_capacity self.capacity))) [
        | inl q ↦ ground (arith, q)
        | inr (items, q) ↦ ground (arith, q)
      ]

  -- Appending never makes the block smaller.
  pub push-capacity :
      (m : Allocator A) (self arr' : Array A) (value : A)
      → push m self value ≡ done arr'
      → self.capacity ≤ arr'.capacity
  unfolding push
  push-capacity m self arr' value e =
      let (arr, g, e₁) = bind_done (grow m self) _ e in
      let (items, w, e₂) = bind_done (write arr.items arr.size value) _ e₁ in
      omega (arith, grow-capacity m self arr g, cap arr items e₂)
    where
      cap :
          (arr : Array A) (items : List A)
          → done (record arr { items = items; size = arr.size + 1 }) ≡ done arr'
          → arr.capacity ≡ arr'.capacity
      cap arr items h = ground arith

  -- An array with room takes an item whatever the allocator does.
  pub push_room :
      (m : Allocator A) (self : Array A) (value : A)
      → IsValid self
      → self.size < self.capacity
      → (arr' : Array A) × (push m self value ≡ done arr')
        × Holds (contents self ++ value ∷ []) arr'
        × (arr'.size ≡ self.size + 1)
        × (self.capacity ≤ arr'.capacity)
  push_room m self value v room = elim (push_lem m self value v (λ s. absurd (omega arith))) [
    | inl (arr', e, h) ↦ (
      arr',
      e,
      h,
      omega (
        arith,
        ap length h.holds,
        length-contents self v,
        length-contents arr' h.valid,
        length-append (contents self) (value ∷ []),
      ),
      push-capacity m self arr' value e,
    )
    | inr (e, r) ↦ absurd (omega arith)
  ]
