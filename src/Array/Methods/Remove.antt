-- ===== src/Array/Methods/Remove.antt =====
-- `_chimp_array_remove_at`, against lists.
use chimp.Common.{
  ℕ, ◌≤◌, ◌<◌, ◌≡◌, ◌^◌, some, none, arith, get_elem?, Bool-cases, suc, ◌+◌, ◌-◌, refl, ltb, ltb→lt,
  inl, inr, ◌⊎◌,
}
use chimp.Common.Int.{ℤ, pos, negsuc}
use chimp.Common.Runs.{done, bug}
use chimp.Array.{Array}
use chimp.Array.Valid.{IsValid, contents, item_lem}
use chimp.Array.Ends.{Holds}
use chimp.Array.Take.{erase_at, remove_at_internal_lem}
use chimp.Array.Methods.{remove_position, remove_at}

-- The index that a position means in an array of `size` items: a position from 0 up is the index, and -1
-- is the last item, -2 the one before it.
abbrev pub Means : ℤ → ℕ → ℕ → Type 0
Means (pos n) size i = (i ≡ n) × (i < size)
Means (negsuc n) size i = i + suc n ≡ size

-- A position that means no index: `size` and above, or below `- size`
abbrev pub IsOutside : ℤ → ℕ → Type 0
IsOutside (pos n) size = size ≤ n
IsOutside (negsuc n) size = size < suc n

remove_position_lem :
    {A : Type 0} (self : Array A) (p : ℤ)
    → ((i : ℕ) × (remove_position self p ≡ some i) × Means p self.size i × (i < self.size))
      ⊎ ((remove_position self p ≡ none) × IsOutside p self.size)
unfolding remove_position
remove_position_lem self (pos n) = elim (Bool-cases (ltb n self.size)) [
  | inl t ↦ let lt = ltb→lt n self.size t in inl (n, rw t refl, (refl, lt), lt)
  | inr f ↦ inr (rw f refl, ground arith)
]
remove_position_lem self (negsuc n) = elim (Bool-cases (ltb n self.size)) [
  | inl t ↦
      let lt = ltb→lt n self.size t in
      inl (self.size - suc n, rw t refl, omega (arith, lt), omega (arith, lt))
  | inr f ↦ inr (rw f refl, ground arith)
]

module _ {A : Type 0} (nil : A) (self : Array A) (p : ℤ) (v : IsValid self)
    (small : self.size ≤ 2 ^ 31) where
  -- `_chimp_array_remove_at` on a valid array of at most 2^31 items returns the item at the index, counted
  -- from the end if it is negative, and leaves a valid array without exactly that item; it aborts for an
  -- index outside.
  pub remove_at_lem :
      ((i : ℕ) × (x : A) × (arr' : Array A) × Means p self.size i
        × (get_elem? (contents self) i ≡ some x)
        × (remove_at nil self p ≡ done (x, arr'))
        × Holds (erase_at i (contents self)) arr')
      ⊎ (IsOutside p self.size × (remove_at nil self p ≡ bug))
  unfolding remove_at
  remove_at_lem = elim (remove_position_lem self p) [
    | inr (q, outside) ↦ inr (outside, rw (q, remove_at))
    | inl (i, q, means, lt) ↦
        let (x, e, at) = item_lem nil self i v small lt in
        let (arr', r, holds) = remove_at_internal_lem self i v lt in
        inl (i, x, arr', means, at, rw (q, remove_at) (rw (e, r)), holds)
  ]
