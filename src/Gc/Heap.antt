-- ===== src/Gc/Heap.antt =====
-- The cells of the collector's heap: where a slab has them, and the test for an address of one. `width`
-- is `sizeof (ChimpRef)`.
use chimp.Common.{
  ℕ, zero, suc, ◌+◌, ◌-◌, ◌*◌, ◌%◌, ◌≤◌, ◌<◌, ◌≡◌, refl, sym, ap, ◌∙◌, Bool, true, false, List, [],
  ◌∷◌, ◌++◌, inl, inr, ◌↔◌, arith, length, ltb, leb, ◌==◌, if◌then◌else◌, Bool-cases, ==_iff,
  leb→le, length-append,
}
use native.Mathlib.Nat.{mod-eq_of_lt, mul-suc, mul-mod_right, mul-add-mod_self_left}
use chimp.Common.Members.{In, In-append, In-append_left, In-append_right}

module _ (width : ℕ) where
  -- `chimp_slab_new`: the chain of a slab's cells, from its first one
  unfoldable pub slab_refs : ℕ → ℕ → List ℕ
  slab_refs zero ref = []
  slab_refs (suc i) ref = ref ∷ slab_refs i (ref + width)

  -- The test in the loop of `chimp_heap_contains`
  unfoldable pub slab_contains : ℕ → ℕ → ℕ → Bool
  slab_contains size begin value =
      let end = begin + width * size in
      if leb begin value
      then (if ltb value end then (end - value) % width == 0 else false)
      else false

  -- `chimp_heap_contains`
  unfoldable pub heap_contains : List ℕ → ℕ → ℕ → Bool
  heap_contains [] size value = false
  heap_contains (begin ∷ slabs) size value =
      if slab_contains size begin value then true else heap_contains slabs size value

  -- The addresses of all cells
  unfoldable pub cells : List ℕ → ℕ → List ℕ
  unfolding slab_refs
  cells [] size = []
  cells (begin ∷ slabs) size = slab_refs size begin ++ cells slabs size

  pub length-slab_refs : (size begin : ℕ) → length (slab_refs size begin) ≡ size
  unfolding slab_refs
  length-slab_refs zero begin = refl
  length-slab_refs (suc i) begin = ap suc (length-slab_refs i (begin + width))

  pub length-cells : (slabs : List ℕ) (size : ℕ) → length (cells slabs size) ≡ length slabs * size
  unfolding cells
  length-cells [] size = omega arith
  length-cells (b ∷ slabs) size = omega (
    arith,
    length-append (slab_refs size b) (cells slabs size),
    length-slab_refs size b,
    length-cells slabs size,
  )

  -- What the test of a slab asks of an address
  abbrev pub InSlab : ℕ → ℕ → ℕ → Type 0
  InSlab size begin value =
      (begin ≤ value)
      × (value < begin + width * size)
      × ((begin + width * size - value) % width ≡ 0)

  slab_contains_iff :
      (size begin value : ℕ) → (slab_contains size begin value ≡ true) ↔ InSlab size begin value
  unfolding slab_contains
  slab_contains_iff size begin value = ground arith

  next_slab_end : (i begin : ℕ) → begin + width * suc i ≡ begin + width + width * i
  next_slab_end i begin = omega (arith, mul-suc width i)

  pub slab_refs→InSlab :
      (size begin value : ℕ) → 0 < width → In value (slab_refs size begin) → InSlab size begin value
  unfolding slab_refs
  slab_refs→InSlab zero begin value pos h = absurd h
  slab_refs→InSlab (suc i) begin value pos (inl e) = (
    omega arith,
    omega (arith, next_slab_end i begin),
    ap (λ k. k % width) {x = begin + width * suc i - value} {y = width * suc i} (omega arith)
        ∙ mul-mod_right width (suc i),
  )
  slab_refs→InSlab (suc i) begin value pos (inr h) =
      let (a, b, c) = slab_refs→InSlab i (begin + width) value pos h in
      (
        omega arith,
        omega (arith, next_slab_end i begin),
        ap (λ k. (k - value) % width) (next_slab_end i begin) ∙ c,
      )

  InSlab→slab_refs :
      (size begin value : ℕ) → 0 < width → InSlab size begin value → In value (slab_refs size begin)
  unfolding slab_refs
  InSlab→slab_refs zero begin value pos (a, b, c) = absurd (omega arith)
  InSlab→slab_refs (suc i) begin value pos (a, b, c) = elim (Bool-cases (value == begin)) [
    | inl e ↦ inl ((==_iff value begin).0 e)
    | inr ne ↦ elim (Bool-cases (leb (begin + width) value)) [
      | inl le ↦ inr (
          InSlab→slab_refs i (begin + width) value pos (
            leb→le (begin + width) value le,
            omega (arith, next_slab_end i begin),
            ap (λ k. (k - value) % width) (sym (next_slab_end i begin)) ∙ c,
          ))
      | inr lt ↦
          let below : value < begin + width = ground arith in
          let over : begin < value = ground arith in
          let split : (width * i + (begin + width - value)) % width ≡ 0 =
            ap (λ k. k % width) {y = begin + width * suc i - value}
              (omega (arith, next_slab_end i begin))
            ∙ c in
          let rest : (begin + width - value) % width ≡ 0 =
            sym (mul-add-mod_self_left width i (begin + width - value)) ∙ split in
          absurd (
            omega (arith, rest, mod-eq_of_lt {n = begin + width - value} {m = width} (omega arith)))
    ]
  ]

  -- An address passes `chimp_heap_contains` exactly if it is the address of one of the cells of the slabs.
  pub heap_contains_lem :
      (slabs : List ℕ) (size value : ℕ)
      → 0 < width
      → (heap_contains slabs size value ≡ true) ↔ In value (cells slabs size)
  unfolding heap_contains cells
  heap_contains_lem [] size value pos = (λ h. cc, λ h. absurd h)
  heap_contains_lem (b ∷ slabs) size value pos =
      let (to, from) = heap_contains_lem slabs size value pos in
      let (st, sf) = slab_contains_iff size b value in
      (
        λ h. elim (Bool-cases (slab_contains size b value)) [
          | inl t ↦
              In-append_left value (slab_refs size b) (cells slabs size)
                (InSlab→slab_refs size b value pos (st t))
          | inr f ↦
              In-append_right value (slab_refs size b) (cells slabs size) (to (sym (rw f refl) ∙ h))
        ],
        λ h. elim (In-append value (slab_refs size b) (cells slabs size) h) [
          | inl a ↦ rw (sf (slab_refs→InSlab size b value pos a)) refl
          | inr c ↦ elim (Bool-cases (slab_contains size b value)) [
            | inl t ↦ rw t refl
            | inr f ↦ rw f (from c)
          ]
        ],
      )
