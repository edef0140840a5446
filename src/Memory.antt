-- ===== src/Memory.antt =====
-- The C standard library's memory: a block is the list of its cells, and an access outside it
-- is a fault. `malloc` and `realloc` are the allocator's, which may refuse.
pub mod Laws
use chimp.Common.{
  ℕ, ◌+◌, ◌-◌, ◌≡◌, Option, none, some, List, ◌++◌, ltb, leb, ◌&&◌, if◌then◌else◌, length,
  get_elem?, set, take, drop,
}
use chimp.Common.Runs.{Run, done, fault}

-- `alloc n` is a block of `n` cells with whatever they held before, or NULL.
pub record Allocator {ℓ} (A : Type ℓ) : Type ℓ where
  pub alloc : ℕ → Option (List A)
  pub alloc_length : (n : ℕ) (b : List A) → alloc n ≡ some b → length b ≡ n

module _ {ℓ} {A : Type ℓ} where
  -- `realloc (block, n)`: the old cells that fit, then whatever the new ones held.
  unfoldable pub realloc : Allocator A → List A → ℕ → Option (List A)
  realloc m block n = elim (m.alloc n) [
    | none ↦ none
    | some b ↦ some (take n block ++ drop (length block) b)
  ]

  -- `block[i]`
  unfoldable pub read : List A → ℕ → Run A
  read block i = elim (get_elem? block i) [ none ↦ fault | some x ↦ done x ]

  -- `block[i] = v`
  unfoldable pub write : List A → ℕ → A → Run (List A)
  write block i v = if ltb i (length block) then done (set block i v) else fault

  -- `memmove (block + dst, block + src, n)`, counted in cells
  unfoldable pub memmove : List A → ℕ → ℕ → ℕ → Run (List A)
  memmove block dst src n =
      if leb (src + n) (length block) && leb (dst + n) (length block)
      then done (take dst block ++ (take n (drop src block) ++ drop (dst + n) block))
      else fault

  -- `memcpy (block + dst, bytes, length bytes)` from memory that does not overlap
  unfoldable pub memcpy : List A → ℕ → List A → Run (List A)
  memcpy block dst bytes =
      if leb (dst + length bytes) (length block)
      then done (take dst block ++ (bytes ++ drop (dst + length bytes) block))
      else fault
