-- ===== src/Gc/Alloc/Grow.antt =====
-- A new slab, and a cell taken off the free chain, keep a heap valid.
use chimp.Common.{
  ℕ, zero, suc, ◌+◌, ◌^◌, ◌<◌, ◌≡◌, refl, sym, subst, ap, ◌∙◌, true, false, List, [], ◌∷◌, ◌++◌,
  inl, inr, ◌↔◌, arith, length, ◌==◌, length-append,
}
use mathlib.Core.Bool.{true≢false}
use mathlib.Core.List.{append-nil, append_assoc}
use chimp.Common.Members.{In, Distinct, In-append, In-append_left, In-append_right}
use chimp.Gc.{Gc}
use chimp.Gc.Heap.{
  slab_refs, heap_contains, cells, heap_contains_lem, length-slab_refs, slab_refs→InSlab,
}
use chimp.Gc.Mark.{own}
use chimp.Gc.Mark.Collect.{IsValid}
use chimp.Gc.Alloc.{gc_new, grow, default_slab_size}

module _ (width : ℕ) (width_pos : 0 < width) where
  pub own_iff :
      (gc : Gc) (x : ℕ)
      → (own width gc x ≡ true) ↔ (((x == 0) ≡ false) × In x (cells width gc.slabs gc.slab_size))
  own_iff gc x =
      let (to, from) = heap_contains_lem width gc.slabs gc.slab_size x width_pos in
      (
        λ h.
            let inside : heap_contains width gc.slabs gc.slab_size x ≡ true = ground arith in
            (ground arith, to inside),
        λ (a, b). let inside = from b in ground arith,
      )

  slab_refs-Distinct : (size begin : ℕ) → Distinct (slab_refs width size begin)
  unfolding slab_refs
  slab_refs-Distinct zero begin = tt
  slab_refs-Distinct (suc i) begin = (
    λ h. let (a, _, _) = slab_refs→InSlab width i (begin + width) begin width_pos h in omega arith,
    slab_refs-Distinct i (begin + width),
  )

  cells-snoc :
      (slabs : List ℕ) (begin size : ℕ)
      → cells width (slabs ++ begin ∷ []) size
        ≡ cells width slabs size ++ slab_refs width size begin
  unfolding cells
  cells-snoc [] begin size = append-nil (slab_refs width size begin)
  cells-snoc (b ∷ slabs) begin size =
      ap (λ t. slab_refs width size b ++ t) (cells-snoc slabs begin size)
      ∙ sym (
          append_assoc (slab_refs width size b) (cells width slabs size)
            (slab_refs width size begin))

  -- What a slab that the system gives has to be: memory that is not NULL and not in use.
  abbrev pub NewSlab : List ℕ → ℕ → ℕ → Type 0
  NewSlab slabs size begin =
      (x : ℕ)
      → In x (slab_refs width size begin)
      → ((x == 0) ≡ false) × ¬ In x (cells width slabs size)

  grown_own :
      (gc : Gc) (begin : ℕ) (x : ℕ)
      → own width gc x ≡ true
      → own width (grow width begin gc) x ≡ true
  unfolding grow
  grown_own gc begin x h =
      let (a, b) = (own_iff gc x).0 h in
      (own_iff (grow width begin gc) x).1 (
        a,
        subst (In x) (sym (cells-snoc gc.slabs begin gc.slab_size)) (
            In-append_left x (cells width gc.slabs gc.slab_size)
              (slab_refs width gc.slab_size begin) b),
      )

  new_own :
      (gc : Gc) (begin : ℕ) (x : ℕ)
      → NewSlab gc.slabs gc.slab_size begin
      → In x (slab_refs width gc.slab_size begin)
      → own width (grow width begin gc) x ≡ true
  unfolding grow
  new_own gc begin x new h = (own_iff (grow width begin gc) x).1 (
    (new x h).0,
    subst (In x) (sym (cells-snoc gc.slabs begin gc.slab_size)) (
        In-append_right x (cells width gc.slabs gc.slab_size) (slab_refs width gc.slab_size begin)
          h),
  )

  pub grow-IsValid :
      (gc : Gc) (begin : ℕ)
      → IsValid width gc
      → gc.free ≡ []
      → NewSlab gc.slabs gc.slab_size begin
      → length (cells width gc.slabs gc.slab_size) + gc.slab_size < 2 ^ 64
      → IsValid width (grow width begin gc)
  unfolding grow
  grow-IsValid gc begin v empty new fits =
      let size =
        ap length (cells-snoc gc.slabs begin gc.slab_size)
        ∙ length-append (cells width gc.slabs gc.slab_size) (slab_refs width gc.slab_size begin) in
      let slab = length-slab_refs width gc.slab_size begin in
      let whole = v.whole in
      record {
        live_own = λ x h. grown_own gc begin x (v.live_own x h);
        free_own = λ x h. new_own gc begin x new h;
        covered = λ x o.
            let (a, b) = (own_iff (grow width begin gc) x).0 o in
            elim (In-append x (cells width gc.slabs gc.slab_size)
              (slab_refs width gc.slab_size begin)
              (subst (In x) (cells-snoc gc.slabs begin gc.slab_size) b)) [
                | inr slab_cell ↦ inr slab_cell
                | inl old ↦ elim (v.covered x ((own_iff gc x).1 (a, old))) [
                  | inl live ↦ inl live
                  | inr free ↦ absurd (subst (In x) empty free)
                ]
              ];
        live_distinct = v.live_distinct;
        free_distinct = slab_refs-Distinct gc.slab_size begin;
        apart = λ x h f. (new x f).1 ((own_iff gc x).0 (v.live_own x h)).1;
        marks = v.marks;
        counted = v.counted;
        whole = omega (arith, size, slab, whole, ap length empty);
        fits = omega (arith, size, slab, fits);
      }

  -- A new collector is valid.
  pub gc_new-IsValid :
      (begin : ℕ)
      → ((x : ℕ) → In x (slab_refs width default_slab_size begin) → (x == 0) ≡ false)
      → IsValid width (gc_new width begin)
  unfolding gc_new cells
  gc_new-IsValid begin nonzero =
      let none : cells width (begin ∷ []) default_slab_size
          ≡ slab_refs width default_slab_size begin =
        cells-snoc [] begin default_slab_size in
      let size = ap length none ∙ length-slab_refs width default_slab_size begin in
      record {
        live_own = λ x h. absurd h;
        free_own =
            λ x h. (own_iff (gc_new width begin) x).1 (nonzero x h, subst (In x) (sym none) h);
        covered = λ x o. inr (subst (In x) none ((own_iff (gc_new width begin) x).0 o).1);
        live_distinct = tt;
        free_distinct = slab_refs-Distinct default_slab_size begin;
        apart = λ x h f. h;
        marks = λ x h. absurd (true≢false (sym h));
        counted = refl;
        whole = omega (arith, size, length-slab_refs width default_slab_size begin);
        fits = omega (arith, size);
      }
