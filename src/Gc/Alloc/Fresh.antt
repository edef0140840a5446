-- ===== src/Gc/Alloc/Fresh.antt =====
-- An allocation gives a cell that no live reachable object has, and loses no reachable object.
use chimp.Common.{
  ℕ, ◌+◌, ◌%◌, ◌^◌, ◌<◌, ◌≡◌, refl, sym, subst, ap, ◌∙◌, Bool, true, false, Option, none, some,
  List, [], ◌∷◌, ◌⊎◌, inl, inr, arith, length, ltb, lt→ltb, ◌==◌, ==_iff, if◌then◌else◌, Bool-cases,
}
use mathlib.Core.Bool.{true≢false}
use chimp.Common.Members.{In, Distinct}
use chimp.Common.Runs.{done, ◌>>=◌}
use chimp.Gc.{Gc}
use chimp.Gc.Heap.{slab_refs, cells, length-slab_refs}
use chimp.Gc.Mark.{Object, no_class, own, collect}
use chimp.Gc.Mark.Reach.{Proper}
use chimp.Gc.Mark.Collect.{IsValid, all_roots, Reached, collect-IsValid}
use chimp.Gc.Alloc.{grow, take_free, after_collect, provide, new_object}
use chimp.Gc.Alloc.Grow.{NewSlab, own_iff, grow-IsValid}

module _ (width : ℕ) (width_pos : 0 < width) (objects : ℕ → Object) (self : ℕ)
    (stack : List ℕ) where
  -- A heap from which a cell can be taken, with what `gc` keeps
  abbrev pub Provided : Gc → Gc → Type 0
  Provided gc gc' =
      IsValid width gc'
      × ((x : ℕ) → In x gc.live → Reached width width_pos objects self stack gc x → In x gc'.live)
      × ((ref : ℕ) × (free : List ℕ) × (gc'.free ≡ ref ∷ free)
          × ¬ (In ref gc.live × Reached width width_pos objects self stack gc ref))

  list_cases : (xs : List ℕ) → (xs ≡ []) ⊎ ((y : ℕ) × (ys : List ℕ) × (xs ≡ y ∷ ys))
  list_cases [] = inl refl
  list_cases (y ∷ ys) = inr (y, ys, refl)

  free_cons :
      (free : List ℕ) → ltb 0 (length free) ≡ true → (r : ℕ) × (rs : List ℕ) × (free ≡ r ∷ rs)
  free_cons [] h = absurd (true≢false (sym h))
  free_cons (r ∷ rs) h = (r, rs, refl)

  -- The cell taken: the free chain is shorter by it, and the live chain has it.
  taken-IsValid :
      (gc : Gc) (ref : ℕ) (free : List ℕ)
      → IsValid width gc
      → gc.free ≡ ref ∷ free
      → IsValid width (record gc {
        free = free;
        live = ref ∷ gc.live;
        marked = λ r. if r == ref then false else gc.marked r;
        used = (gc.used + 1) % 2 ^ 64;
      })
  taken-IsValid gc ref free v e =
      let whole = v.whole in
      let fits = v.fits in
      let counted = v.counted in
      let len = ap length e in
      let apart : (x : ℕ) → In x gc.live → ¬ In x (ref ∷ free) =
        λ x h f. v.apart x h (subst (In x) (sym e) f) in
      let (out, rest) = subst Distinct e v.free_distinct in
      let own_free : (x : ℕ) → In x (ref ∷ free) → own width gc x ≡ true =
        λ x f. v.free_own x (subst (In x) (sym e) f) in
      record {
        live_own = λ x h. elim h [ inl s ↦ own_free x (inl s) | inr l ↦ v.live_own x l ];
        free_own = λ x h. own_free x (inr h);
        covered = λ x o. elim (v.covered x o) [
          | inl l ↦ inl (inr l)
          | inr f ↦ elim (subst (In x) e f) [ inl s ↦ inl (inl s) | inr f' ↦ inr f' ]
        ];
        live_distinct = (λ l. apart ref l (inl refl), v.live_distinct);
        free_distinct = rest;
        apart = λ x h f. elim h [
          | inl s ↦ out (subst (λ y. In y free) s f)
          | inr l ↦ apart x l (inr f)
        ];
        marks = λ x h. let m : gc.marked x ≡ true = ground arith in inr (v.marks x m);
        counted = omega (arith, counted, whole, fits, len);
        whole = omega (arith, whole, len);
        fits = fits;
      }

  free_nil : (free : List ℕ) → ltb 0 (length free) ≡ false → free ≡ []
  free_nil [] h = refl
  free_nil (r ∷ rs) h = absurd (ground arith)

  moved :
      (gc gc' : Gc) (begin : ℕ)
      → gc'.slabs ≡ gc.slabs
      → gc'.slab_size ≡ gc.slab_size
      → NewSlab width width_pos gc.slabs gc.slab_size begin
      → NewSlab width width_pos gc'.slabs gc'.slab_size begin
  moved gc gc' begin slabs sizes new =
      subst (λ l. NewSlab width width_pos l gc'.slab_size begin) (sym slabs)
        (subst (λ n. NewSlab width width_pos gc.slabs n begin) (sym sizes) new)

  grown_fresh :
      (gc gc' : Gc) (begin : ℕ)
      → IsValid width gc
      → NewSlab width width_pos gc'.slabs gc'.slab_size begin
      → 0 < gc'.slab_size
      → gc'.slabs ≡ gc.slabs
      → gc'.slab_size ≡ gc.slab_size
      → (ref : ℕ) × (free : List ℕ) × ((grow width begin gc').free ≡ ref ∷ free)
        × ¬ (In ref gc.live × Reached width width_pos objects self stack gc ref)
  unfolding grow
  grown_fresh gc gc' begin v new size slabs sizes =
      let (ref, free, e) = free_cons (slab_refs width gc'.slab_size begin) (
        lt→ltb 0 (length (slab_refs width gc'.slab_size begin))
          (omega (arith, length-slab_refs width gc'.slab_size begin))) in
      (
        ref,
        free,
        e,
        λ (l, r). (new ref (subst (In ref) (sym e) (inl refl))).1 (
            subst (λ s. In ref (cells width s gc'.slab_size)) (sym slabs)
              (subst (λ n. In ref (cells width gc.slabs n)) (sym sizes)
                ((own_iff width width_pos gc ref).0 (v.live_own ref l)).1)),
      )

  provide_nil :
      (slab : Option ℕ) (gc gc' gc'' : Gc) (free : List ℕ) (b : Bool)
      → free ≡ []
      → collect width objects self stack gc ≡ done (some (b, gc'))
      → after_collect width slab b gc' ≡ done gc''
      → provide width objects self stack slab free gc ≡ done (some gc'')
  unfolding provide
  provide_nil slab gc gc' gc'' free b e ran after = rw (e, ran, after) refl

  -- The cell that `provide` hands on, on each of its ways
  provide_lem :
      (gc : Gc) (begin : ℕ)
      → IsValid width gc
      → Proper (own width gc) objects (all_roots width self stack gc)
      → NewSlab width width_pos gc.slabs gc.slab_size begin
      → 0 < gc.slab_size
      → length (cells width gc.slabs gc.slab_size) + gc.slab_size < 2 ^ 64
      → (gc' : Gc) × (provide width objects self stack (some begin) gc.free gc ≡ done (some gc'))
        × Provided gc gc'
  unfolding provide after_collect grow
  provide_lem gc begin v proper new size fits = elim (list_cases gc.free) [
    | inr (ref, free, e) ↦ (
      gc,
      rw e refl,
      (v, λ x h r. h, (ref, free, e, λ (l, r). v.apart ref l (subst (In ref) (sym e) (inl refl)))),
    )
    | inl e ↦
        let (b, gc', ran, (kept, lost, used, slabs, sizes), b_is, v') =
          collect-IsValid width width_pos objects self stack gc v proper e in
        elim (Bool-cases b) [
          | inl t ↦
              let (ref, free, e') = free_cons gc'.free (sym b_is ∙ t) in
              (
                gc',
                provide_nil (some begin) gc gc' gc' gc.free b e ran (rw t refl),
                (
                  v',
                  λ x h r. (kept x).1 (h, r),
                  (
                    ref,
                    free,
                    e',
                    λ (l, r). ((lost ref).0 (subst (In ref) (sym e') (inl refl))).1 r,
                  ),
                ),
              )
          | inr f ↦
              let empty = free_nil gc'.free (sym b_is ∙ f) in
              let new' = moved gc gc' begin slabs sizes new in
              let size' : 0 < gc'.slab_size = omega (arith, sizes) in
              let fits' : length (cells width gc'.slabs gc'.slab_size) + gc'.slab_size < 2 ^ 64 =
                subst (λ l. length (cells width l gc'.slab_size) + gc'.slab_size < 2 ^ 64)
                  (sym slabs)
                  (subst (λ n. length (cells width gc.slabs n) + n < 2 ^ 64) (sym sizes) fits) in
              (
                grow width begin gc',
                provide_nil (some begin) gc gc' (grow width begin gc') gc.free b e ran (rw f refl),
                (
                  grow-IsValid width width_pos gc' begin v' empty new' fits',
                  λ x h r. (kept x).1 (h, r),
                  grown_fresh gc gc' begin v (moved gc gc' begin slabs sizes new) size' slabs sizes,
                ),
              )
        ]
  ]

  taken_run :
      (gc gc' : Gc) (ref : ℕ) (free : List ℕ) (begin : ℕ)
      → provide width objects self stack (some begin) gc.free gc ≡ done (some gc')
      → gc'.free ≡ ref ∷ free
      → new_object width objects self stack (some begin) gc
        ≡ (take_free width (ref ∷ free) gc' objects >>= (λ r. done (some r)))
  unfolding new_object
  taken_run gc gc' ref free begin ran e =
      ap
        (λ o. o >>= (λ o'. elim o' [
          | none ↦ done none
          | some g ↦ take_free width g.free g objects >>= (λ r. done (some r))
        ]))
        ran
      ∙ ap (λ f. take_free width f gc' objects >>= (λ r. done (some r))) e

  -- An allocation in a valid heap whose reachable cells hold proper objects returns, if the system gives a
  -- slab where the collection frees no cell. The cell that it returns is cleared, live and not one of a
  -- live object that can be reached from the roots, the task or the machine stack. All those stay live and
  -- keep what they hold, and the heap stays valid.
  pub new_object_lem :
      (gc : Gc) (begin : ℕ)
      → IsValid width gc
      → Proper (own width gc) objects (all_roots width self stack gc)
      → NewSlab width width_pos gc.slabs gc.slab_size begin
      → 0 < gc.slab_size
      → length (cells width gc.slabs gc.slab_size) + gc.slab_size < 2 ^ 64
      → (ref : ℕ) × (gc' : Gc) × (objects' : ℕ → Object) × (new_object width objects self stack
            (some begin)
            gc
          ≡ done (some (ref, gc', objects')))
        × IsValid width gc'
        × In ref gc'.live
        × ¬ (In ref gc.live × Reached width width_pos objects self stack gc ref)
        × ((x : ℕ)
            → In x gc.live
            → Reached width width_pos objects self stack gc x
            → In x gc'.live × (objects' x ≡ objects x))
        × (objects' ref ≡ no_class)
  unfolding new_object take_free
  new_object_lem gc begin v proper new size fits =
      let (gc', ran, (v', keeps, (ref, free, e, fresh))) =
        provide_lem gc begin v proper new size fits in
      (
        ref,
        record gc' {
          free = free;
          live = ref ∷ gc'.live;
          marked = λ r. if r == ref then false else gc'.marked r;
          used = (gc'.used + 1) % 2 ^ 64;
        },
        λ r. if r == ref then no_class else objects r,
        taken_run gc gc' ref free begin ran e,
        taken-IsValid gc' ref free v' e,
        inl refl,
        fresh,
        λ x h r. (
          inr (keeps x h r),
          elim (Bool-cases (x == ref)) [
            | inl same ↦
                let at : x ≡ ref = (==_iff x ref).0 same in
                absurd (
                  fresh (
                    subst (λ y. In y gc.live) at h,
                    subst (Reached width width_pos objects self stack gc) at r,
                  ))
            | inr other ↦ rw other refl
          ],
        ),
        ap (λ b. if b then no_class else objects ref) {y = true} (ground arith),
      )
