-- ===== src/Array/Methods/Concat.antt =====
-- `_chimp_array_add`: the sum of two arrays holds the items of both.
use mathlib.Core.List.{append_assoc}
use chimp.Common.{
  ℕ, suc, ◌+◌, ◌≤◌, ◌≡◌, ◌^◌, sym, ap, ap₂, ◌∙◌, some, none, List, [], ◌∷◌, ◌++◌, arith, length,
  take, drop, set, length-set, take-set_end, take-append-drop, drop-set_lt, take_at_length,
  length-append, length-take, length-drop, Option-cases, inl, inr, ◌⊎◌,
}
use chimp.Common.Runs.{done, bug}
use chimp.Memory.{Allocator}
use chimp.Memory.Laws.{write_lem}
use chimp.Array.{Array, new_with_capacity}
use chimp.Array.Valid.{IsValid, contents, length-contents}
use chimp.Array.Ends.{Holds}
use chimp.Array.Methods.{go, for_items, copy_step, add}
use chimp.Array.Methods.Loop.{over_list, for_items_lem}

module _ {A : Type 0} where
  -- The block with `xs` written from cell `p` on.
  abbrev filled : ℕ → List A → List A → List A
  filled p xs items = take p items ++ (xs ++ drop (p + length xs) items)

  length-filled :
      (p : ℕ) (xs items : List A)
      → p + length xs ≤ length items
      → length (filled p xs items) ≡ length items
  length-filled p xs items h = omega (
    arith,
    length-append (take p items) (xs ++ drop (p + length xs) items),
    length-append xs (drop (p + length xs) items),
    length-take p items,
    length-drop (p + length xs) items,
  )

  filled-cons :
      (p : ℕ) (x : A) (xs items : List A)
      → suc p + length xs ≤ length items
      → filled (suc p) xs (set items p x) ≡ filled p (x ∷ xs) items
  filled-cons p x xs items h =
      ap₂ (λ a b. a ++ (xs ++ b)) (take-set_end p items x (omega arith))
        (drop-set_lt (suc p + length xs) p items x (omega arith))
      ∙ append_assoc (take p items) (x ∷ []) (xs ++ drop (suc p + length xs) items)
      ∙ ap (λ k. take p items ++ (x ∷ (xs ++ drop k items))) (omega arith)

  fill_lem :
      (offset : ℕ) (xs : List A) (i : ℕ) (items : List A)
      → offset + i + length xs ≤ length items
      → over_list (copy_step offset) xs i items ≡ done (go (filled (offset + i) xs items))
  unfolding copy_step
  fill_lem offset [] i items h =
      ap (λ t. done (go t))
        (sym (take-append-drop (offset + i) items)
          ∙ ap (λ k. take (offset + i) items ++ drop k items) (omega arith))
  fill_lem offset (x ∷ xs) i items h = rw (write_lem items (offset + i) x (omega arith)) (
      fill_lem offset xs (suc i) (set items (offset + i) x)
        (omega (arith, length-set items (offset + i) x))
      ∙ ap (λ k. done (go (filled k xs (set items (offset + i) x)))) {x = offset + suc i}
          {y = suc (offset + i)} (omega arith)
      ∙ ap (λ t. done (go t)) (filled-cons (offset + i) x xs items (omega arith)))

  new-none : (m : Allocator A) (n : ℕ) → m.alloc n ≡ none → new_with_capacity m n ≡ none
  unfolding new_with_capacity
  new-none m n e = rw (e, new_with_capacity)

  new-some :
      (m : Allocator A) (n : ℕ) (b : List A)
      → m.alloc n ≡ some b
      → new_with_capacity m n ≡ some (record { items = b; size = 0; capacity = n })
  unfolding new_with_capacity
  new-some m n b e = rw (e, new_with_capacity)

  filled_twice :
      (xs ys b : List A) (n : ℕ)
      → length xs ≡ n
      → n + length ys ≤ length b
      → take (n + length ys) (filled n ys (filled 0 xs b)) ≡ xs ++ ys
  filled_twice xs ys b n e h =
      ap (λ t. take (n + length ys) (t ++ (ys ++ drop (n + length ys) (filled 0 xs b))))
        (take_at_length xs (drop (0 + length xs) b) n e)
      ∙ ap (take (n + length ys)) (sym (append_assoc xs ys (drop (n + length ys) (filled 0 xs b))))
      ∙ take_at_length (xs ++ ys) (drop (n + length ys) (filled 0 xs b)) (n + length ys)
          (omega (arith, length-append xs ys))

  -- The sum of two valid arrays is a valid array that holds the items of the left one and then those
  -- of the right one; the addition aborts exactly where the memory for it is refused.
  pub add_lem :
      (m : Allocator A) (nil : A) (self other : Array A)
      → IsValid self
      → IsValid other
      → self.size ≤ 2 ^ 31
      → other.size ≤ 2 ^ 31
      → ((arr' : Array A) × (add m nil self other ≡ done arr')
          × Holds (contents self ++ contents other) arr')
        ⊎ ((add m nil self other ≡ bug) × (m.alloc (self.size + other.size) ≡ none))
  unfolding add
  add_lem m nil self other v w small small' =
      elim (Option-cases (m.alloc (self.size + other.size))) [
        | inl q ↦ inr (rw (new-none m (self.size + other.size) q, add), q)
        | inr (b, q) ↦
            let xs : List A = contents self in
            let ys : List A = contents other in
            let n : length xs ≡ self.size = length-contents self v in
            let k : length ys ≡ other.size = length-contents other w in
            let len : length b ≡ self.size + other.size = m.alloc_length _ b q in
            let half : List A = filled 0 xs b in
            let half_len : length half ≡ length b = length-filled 0 xs b (omega arith) in
            let first : for_items nil self (copy_step 0) b ≡ done (go half) =
              for_items_lem nil self (copy_step 0) v small b ∙ fill_lem 0 xs 0 b (omega arith) in
            let second : for_items nil other (copy_step self.size) half
                ≡ done (go (filled self.size ys half)) =
              for_items_lem nil other (copy_step self.size) w small' half
              ∙ fill_lem self.size ys 0 half (omega arith)
              ∙ ap (λ p. done (go (filled p ys half))) {x = self.size + 0} {y = self.size}
                  (omega arith) in
            inl (
              record {
                items = filled self.size ys half;
                size = self.size + other.size;
                capacity = self.size + other.size;
              },
              rw (new-some m (self.size + other.size) b q, add) (rw first (rw second)),
              record {
                valid = record {
                  fits = omega arith;
                  allocated = omega (arith, length-filled self.size ys half (omega arith));
                };
                holds =
                    ap (λ c. take (self.size + c) (filled self.size ys half)) (sym k)
                    ∙ filled_twice xs ys b self.size n (omega arith);
              },
            )
      ]
