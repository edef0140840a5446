-- ===== src/Gc/Sweep.antt =====
-- What a sweep keeps and what it frees.
use chimp.Common.{
  ℕ, ◌+◌, ◌-◌, ◌%◌, ◌^◌, ◌≡◌, refl, ap, ◌∙◌, Bool, true, false, List, [], ◌∷◌, arith, length,
  Bool-cases, inl, inr, if◌then◌else◌,
}
use chimp.Common.Members.{In}
use chimp.Gc.{Gc, Swept, sweep_ref, sweep_loop, sweep}

-- The references of a chain for which a test holds, in front of others, the last one first.
abbrev pub picked : (ℕ → Bool) → List ℕ → List ℕ → List ℕ
picked test [] others = others
picked test (r ∷ rs) others = picked test rs (if test r then r ∷ others else others)

module _ (contains : ℕ → Bool) where
  -- The marked references of the heap, and the unmarked ones
  abbrev pub survives : (ℕ → Bool) → ℕ → Bool
  survives marked r = if contains r then marked r else false

  abbrev pub dies : (ℕ → Bool) → ℕ → Bool
  dies marked r = if contains r then (if marked r then false else true) else false

  sweep_ref_live :
      (marked : ℕ → Bool) (r : ℕ) (s : Swept)
      → (sweep_ref contains marked r s).live ≡ (if survives marked r then r ∷ s.live else s.live)
  sweep_ref_live marked r s = elim (Bool-cases (contains r)) [
    | inr f ↦ rw f refl
    | inl t ↦ elim (Bool-cases (marked r)) [ inl m ↦ rw t (rw m refl) | inr m ↦ rw t (rw m refl) ]
  ]

  sweep_ref_free :
      (marked : ℕ → Bool) (r : ℕ) (s : Swept)
      → (sweep_ref contains marked r s).free ≡ (if dies marked r then r ∷ s.free else s.free)
  sweep_ref_free marked r s = elim (Bool-cases (contains r)) [
    | inr f ↦ rw f refl
    | inl t ↦ elim (Bool-cases (marked r)) [ inl m ↦ rw t (rw m refl) | inr m ↦ rw t (rw m refl) ]
  ]

  sweep_ref_count :
      (marked : ℕ → Bool) (r : ℕ) (s : Swept)
      → (sweep_ref contains marked r s).freed + length s.free
        ≡ s.freed + length (sweep_ref contains marked r s).free
  sweep_ref_count marked r s = elim (Bool-cases (contains r)) [
    | inr f ↦ rw f refl
    | inl t ↦ elim (Bool-cases (marked r)) [
      | inl m ↦ rw t (rw m (omega arith))
      | inr m ↦ rw t (rw m (omega arith))
    ]
  ]

  sweep_loop_lem :
      (marked : ℕ → Bool) (refs : List ℕ) (s : Swept)
      → ((sweep_loop contains marked refs s).live ≡ picked (survives marked) refs s.live)
        × ((sweep_loop contains marked refs s).free ≡ picked (dies marked) refs s.free)
        × ((sweep_loop contains marked refs s).freed + length s.free
            ≡ s.freed + length (sweep_loop contains marked refs s).free)
  unfolding sweep_loop
  sweep_loop_lem marked [] s = (refl, refl, refl)
  sweep_loop_lem marked (r ∷ rs) s =
      let (a, b, c) = sweep_loop_lem marked rs (sweep_ref contains marked r s) in
      (
        a ∙ ap (picked (survives marked) rs) (sweep_ref_live marked r s),
        b ∙ ap (picked (dies marked) rs) (sweep_ref_free marked r s),
        omega (arith, c, sweep_ref_count marked r s),
      )

  -- A sweep keeps exactly the marked references of the live chain that lie in the heap, the free chain it
  -- leaves has exactly the unmarked ones, whatever was in the free chain before, and it returns how many
  -- these are, by which it lowers the count of used cells, as a `size_t`.
  pub sweep_lem :
      (gc : Gc)
      → ((sweep contains gc).1.live ≡ picked (survives gc.marked) gc.live [])
        × ((sweep contains gc).1.free ≡ picked (dies gc.marked) gc.live [])
        × ((sweep contains gc).0 ≡ length (picked (dies gc.marked) gc.live []))
        × ((sweep contains gc).1.used
            ≡ (gc.used + 2 ^ 64 - length (picked (dies gc.marked) gc.live [])) % 2 ^ 64)
  unfolding sweep
  sweep_lem gc =
      let (a, b, c) =
        sweep_loop_lem gc.marked gc.live (record { live = []; free = []; kept = 0; freed = 0 }) in
      let n : (sweep contains gc).0 ≡ length (picked (dies gc.marked) gc.live []) =
        omega (arith, c, ap length b) in
      (a, b, n, ap (λ k. (gc.used + 2 ^ 64 - k) % 2 ^ 64) n)

  pub picked-length :
      (marked : ℕ → Bool) (refs xs ys : List ℕ)
      → ((r : ℕ) → In r refs → contains r ≡ true)
      → length (picked (survives marked) refs xs) + length (picked (dies marked) refs ys)
        ≡ length refs + (length xs + length ys)
  picked-length marked [] xs ys own = omega arith
  picked-length marked (r ∷ rs) xs ys own = elim (Bool-cases (marked r)) [
    | inl m ↦
        rw (own r (inl refl))
          (rw m (omega (arith, picked-length marked rs (r ∷ xs) ys (λ x h. own x (inr h)))))
    | inr m ↦
        rw (own r (inl refl))
          (rw m (omega (arith, picked-length marked rs xs (r ∷ ys) (λ x h. own x (inr h)))))
  ]
