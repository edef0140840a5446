-- ===== src/Array.antt =====
-- libchimp/array.c: `ChimpArray` and the functions that the C code calls. A function that changes
-- `*self` returns the new array. A callee that aborts in CHIMP_BUG is `bug`, so the `return` that
-- stands behind it in the source is not reached.

pub mod Valid
pub mod Ends
pub mod Take
pub mod Room
pub mod Granted
pub mod Index
pub mod Methods
mod Tests
use chimp.Common.{
  ℕ, zero, suc, ◌+◌, ◌-◌, ◌*◌, ◌/◌, ◌^◌, Option, none, some, List, ltb, leb, ◌==◌, if◌then◌else◌,
}
use chimp.Common.Int.{ℤ, pos, negsuc, int32}
use chimp.Common.Runs.{Run, done, bug, ◌>>=◌}
use chimp.Memory.{Allocator, realloc, read, write, memmove}

-- `items` is the block that the pointer of that name owns.
pub record Array {ℓ} (A : Type ℓ) : Type ℓ where
  pub items : List A
  pub size : ℕ
  pub capacity : ℕ

-- `(size_t)(capacity * 1.8)` in double arithmetic is this quotient for each capacity below 2^49,
-- and no block is larger.
unfoldable pub new_capacity : ℕ → ℕ
new_capacity capacity = if capacity == 0 then 10 else capacity * 9 / 5

module _ {ℓ} {A : Type ℓ} where
  -- `chimp_array_new_with_capacity`; the object comes from the collector, `none` is NULL.
  unfoldable pub new_with_capacity : Allocator A → ℕ → Option (Array A)
  new_with_capacity m capacity = elim (m.alloc capacity) [
    | none ↦ none
    | some b ↦ some (record { items = b; size = 0; capacity = capacity })
  ]

  -- `chimp_array_new`
  unfoldable pub new : Allocator A → Option (Array A)
  unfolding new_with_capacity
  new m = new_with_capacity m 10

  -- `chimp_array_grow`
  unfoldable pub grow : Allocator A → Array A → Run (Array A)
  grow m arr =
      if leb arr.capacity arr.size
      then elim (realloc m arr.items (new_capacity arr.capacity)) [
        | none ↦ bug
        | some items ↦ done (record arr { items = items; capacity = new_capacity arr.capacity })
      ]
      else done arr

  -- `chimp_array_push`
  unfoldable pub push : Allocator A → Array A → A → Run (Array A)
  push m self value = do
    arr ← grow m self
    items ← write arr.items arr.size value
    done (record arr { items = items; size = arr.size + 1 })

  -- The loop of `chimp_array_unshift`, with `i` rounds left.
  unfoldable pub move_up : ℕ → List A → Run (List A)
  move_up zero items = done items
  move_up (suc i) items = do x ← read items i; items' ← write items (suc i) x; move_up i items'

  -- `chimp_array_unshift`
  unfoldable pub unshift : Allocator A → Array A → A → Run (Array A)
  unshift m self value = do
    arr ← grow m self
    moved ← move_up arr.size arr.items
    items ← write moved 0 value
    done (record arr { items = items; size = arr.size + 1 })

  -- `_chimp_array_real_index` of an `int32_t` above the smallest one, in an array of at most 2^31 items;
  -- `none` is -1.
  unfoldable pub real_index : Array A → ℤ → Option ℕ
  real_index self (pos n) = if ltb n self.size then some n else none
  real_index self (negsuc n) = if ltb n self.size then some (self.size - suc n) else none

  -- The index of `chimp_array_insert`; `none` where it calls CHIMP_BUG.
  unfoldable pub insert_index : Array A → ℤ → Option ℕ
  unfolding real_index
  insert_index self (pos n) = if ltb self.size n then real_index self (pos n) else some n
  insert_index self (negsuc n) = real_index self (negsuc n)

  -- `chimp_array_insert` behind its index test
  unfoldable pub insert_at : Allocator A → Array A → ℕ → A → Run (Array A)
  insert_at m self i value = do
    arr ← grow m self
    moved ←
        if ltb 0 (arr.size - i) then memmove arr.items (i + 1) i (arr.size - i) else done arr.items
    items ← write moved i value
    done (record arr { items = items; size = arr.size + 1 })

  -- `chimp_array_insert`
  unfoldable pub insert : Allocator A → Array A → ℤ → A → Run (Array A)
  unfolding insert_index insert_at
  insert m self p value = elim (insert_index self p) [
    | none ↦ bug
    | some i ↦ insert_at m self i value
  ]

  module _ (nil : A) where
    -- `chimp_array_get`
    unfoldable pub get : Array A → ℤ → Run A
    get self p = elim (real_index self p) [ none ↦ done nil | some i ↦ read self.items i ]

    -- `CHIMP_ARRAY_ITEM (self, i)` at a `size_t`
    unfoldable pub item : Array A → ℕ → Run A
    unfolding get
    item self i = get self (int32 i)

    -- `chimp_array_pop`
    unfoldable pub pop : Array A → Run (A × Array A)
    pop self =
        if ltb 0 self.size
        then read self.items (self.size - 1)
          >>= (λ x. done (x, record self { size = self.size - 1 }))
        else done (nil, self)

    -- `chimp_array_shift`; `none` is NULL.
    unfoldable pub shift : Array A → Run (Option A × Array A)
    shift self =
        if ltb 0 self.size
        then item self 0 >>= (λ first.
          memmove self.items 0 1 (self.size - 1)
          >>= (λ items. done (some first, record self { items = items; size = self.size - 1 })))
        else done (none, self)

    -- `chimp_array_first` and `chimp_array_last`
    unfoldable pub first : Array A → Run A
    first self = if ltb 0 self.size then item self 0 else done nil

    unfoldable pub last : Array A → Run A
    last self = if ltb 0 self.size then item self (self.size - 1) else done nil

  -- `_chimp_array_remove_at_internal`; `size--` wraps at 0.
  unfoldable pub remove_at_internal : Array A → ℕ → Run (Array A)
  remove_at_internal self index = do
    items ←
        (if ltb index self.size
          then memmove self.items index (index + 1) (self.size - index - 1)
          else done self.items)
    done
        (record self { items = items; size = if self.size == 0 then 2 ^ 64 - 1 else self.size - 1 })
