-- ===== src/Array/Take.antt =====
-- The operations that take an item out of an array, against lists.
use mathlib.Core.List.{append_assoc}
use chimp.Common.{
  ℕ, suc, ◌+◌, ◌-◌, ◌<◌, ◌≤◌, ◌≡◌, ◌^◌, ap, ap₂, some, none, List, [], ◌∷◌, ◌++◌, arith, length,
  take, drop, take-snoc, ltb, lt→ltb, ltb→lt, Bool-cases, inl, inr, ◌⊎◌, sym, ◌∙◌, get_elem?-lt,
  take-drop, take_at_length, length-append, length-take, length-drop, take-take, drop-get_elem?,
}
use chimp.Common.Runs.{done}
use chimp.Memory.Laws.{read_lem, memmove_lem}
use chimp.Array.{Array, pop, shift, remove_at_internal}
use chimp.Array.Valid.{IsValid, contents, item_lem}
use chimp.Array.Ends.{Holds}

-- A list without the item at index `i`.
abbrev pub erase_at {ℓ} : {A : Type ℓ} → ℕ → List A → List A
erase_at i xs = take i xs ++ drop (suc i) xs

module _ {ℓ} {A : Type ℓ} where
  -- The block behind `memmove (items + i, items + i + 1, size - i - 1)` holds the list less item `i`.
  erase_moved :
      (items : List A) (size i : ℕ)
      → size ≤ length items
      → i < size
      → take (size - 1) (
          take i items
          ++ (take (size - i - 1) (drop (i + 1) items) ++ drop (i + (size - i - 1)) items))
        ≡ erase_at i (take size items)
  erase_moved items size i h k =
      ap (take (size - 1))
        (sym (append_assoc (take i items) (take (size - i - 1) (drop (i + 1) items)) _))
      ∙ take_at_length (take i items ++ take (size - i - 1) (drop (i + 1) items)) _ (size - 1) (
          omega (
            arith,
            length-append (take i items) (take (size - i - 1) (drop (i + 1) items)),
            length-take i items,
            length-take (size - i - 1) (drop (i + 1) items),
            length-drop (i + 1) items,
          ))
      ∙ ap₂ ◌++◌ (sym (take-take i size items (omega arith))) (
          take-drop (size - i - 1) (i + 1) items
          ∙ ap₂ (λ a b. drop a (take b items)) {x = i + 1} {y = suc i} (omega arith) (omega arith))

  pub length-moved :
      (items : List A) (dst src n : ℕ)
      → src + n ≤ length items
      → dst + n ≤ length items
      → length (take dst items ++ (take n (drop src items) ++ drop (dst + n) items)) ≡ length items
  length-moved items dst src n h k = omega (
    arith,
    length-append (take dst items) (take n (drop src items) ++ drop (dst + n) items),
    length-append (take n (drop src items)) (drop (dst + n) items),
    length-take dst items,
    length-take n (drop src items),
    length-drop src items,
    length-drop (dst + n) items,
  )

  -- Removing at an index in use keeps the array valid, and removes exactly that item.
  pub remove_at_internal_lem :
      (self : Array A) (i : ℕ)
      → IsValid self
      → i < self.size
      → (arr' : Array A) × (remove_at_internal self i ≡ done arr')
        × Holds (erase_at i (contents self)) arr'
  unfolding remove_at_internal
  remove_at_internal_lem self i v h =
      let n : ℕ = self.size - i - 1 in
      (
        record self {
          items =
              take i self.items ++ (take n (drop (i + 1) self.items) ++ drop (i + n) self.items);
          size = self.size - 1;
        },
        rw (lt→ltb i self.size h)
            (rw (memmove_lem self.items i (i + 1) n (omega arith) (omega arith)) (ground arith)),
        record {
          valid = record {
            fits = omega arith;
            allocated =
                length-moved self.items i (i + 1) n (omega arith) (omega arith) ∙ v.allocated;
          };
          holds = erase_moved self.items self.size i (omega arith) h;
        },
      )

module _ {ℓ} {A : Type ℓ} (nil : A) where
  pop_some :
      (self : Array A)
      → IsValid self
      → 0 < self.size
      → (x : A) × (arr' : Array A) × (pop nil self ≡ done (x, arr'))
        × IsValid arr'
        × (contents self ≡ contents arr' ++ x ∷ [])
  unfolding pop
  pop_some self v h =
      let (x, e) = get_elem?-lt self.items (self.size - 1) (omega arith) in
      let n : self.size ≡ suc (self.size - 1) = omega arith in
      (
        x,
        record self { size = self.size - 1 },
        rw (lt→ltb 0 self.size h, read_lem self.items (self.size - 1) x e),
        record { fits = omega arith; allocated = v.allocated },
        ap (λ k. take k self.items) n ∙ take-snoc (self.size - 1) self.items x e,
      )

  -- Popping an empty valid array returns nil and changes nothing; popping any other returns the last
  -- item, and the array that is left is valid and holds the items before it.
  pub pop_lem :
      (self : Array A)
      → IsValid self
      → ((contents self ≡ []) × (pop nil self ≡ done (nil, self)))
        ⊎ ((x : A) × (arr' : Array A) × (pop nil self ≡ done (x, arr'))
            × IsValid arr'
            × (contents self ≡ contents arr' ++ x ∷ []))
  unfolding pop
  pop_lem self v = elim (Bool-cases (ltb 0 self.size)) [
    | inl h ↦ inr (pop_some self v (ltb→lt _ _ h))
    | inr h ↦ let z : self.size ≡ 0 = ground arith in inl (ap (λ k. take k self.items) z, rw h)
  ]

  shift-some :
      (self : Array A)
      → IsValid self
      → self.size ≤ 2 ^ 31
      → 0 < self.size
      → (x : A) × (arr' : Array A) × (shift nil self ≡ done (some x, arr'))
        × IsValid arr'
        × (contents self ≡ x ∷ contents arr')
  unfolding shift
  shift-some self v small h =
      let n : ℕ = self.size - 1 in
      let (x, e, c) = item_lem nil self 0 v small h in
      (
        x,
        record self {
          items = take n (drop 1 self.items) ++ drop (0 + n) self.items;
          size = self.size - 1;
        },
        rw (lt→ltb 0 self.size h, e, memmove_lem self.items 0 1 n (omega arith) (omega arith)),
        record {
          fits = omega arith;
          allocated = length-moved self.items 0 1 n (omega arith) (omega arith) ∙ v.allocated;
        },
        drop-get_elem? (contents self) 0 x c ∙ ap (λ t. x ∷ t) (sym (left n (omega arith))),
      )
    where
      left :
          (n : ℕ)
          → self.size ≡ suc n
          → take n (take n (drop 1 self.items) ++ drop (0 + n) self.items) ≡ drop 1 (contents self)
      left n q =
          take_at_length (take n (drop 1 self.items)) _ n
            (omega (arith, length-take n (drop 1 self.items), length-drop 1 self.items))
          ∙ take-drop n 1 self.items
          ∙ ap (λ k. drop 1 (take k self.items)) {x = 1 + n} (omega arith)

  -- Shifting an empty valid array returns NULL and changes nothing; shifting any other returns the
  -- first item, and the array that is left is valid and holds the items behind it.
  pub shift_lem :
      (self : Array A)
      → IsValid self
      → self.size ≤ 2 ^ 31
      → ((contents self ≡ []) × (shift nil self ≡ done (none, self)))
        ⊎ ((x : A) × (arr' : Array A) × (shift nil self ≡ done (some x, arr'))
            × IsValid arr'
            × (contents self ≡ x ∷ contents arr'))
  unfolding shift
  shift_lem self v small = elim (Bool-cases (ltb 0 self.size)) [
    | inl h ↦ inr (shift-some self v small (ltb→lt _ _ h))
    | inr h ↦ let z : self.size ≡ 0 = ground arith in inl (ap (λ k. take k self.items) z, rw h)
  ]
