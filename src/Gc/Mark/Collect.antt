-- ===== src/Gc/Mark/Collect.antt =====
-- A collection keeps exactly the live objects that can be reached.
use chimp.Common.{
  ℕ, ◌+◌, ◌%◌, ◌^◌, ◌<◌, ◌≡◌, refl, sym, subst, ap, ◌∙◌, Bool, true, false, some, List, [], ◌∷◌,
  ◌++◌, ◌⊎◌, inl, inr, ◌↔◌, arith, length, ltb, Bool-cases,
}
use mathlib.Core.Bool.{true≢false}
use chimp.Common.Members.{In, Distinct}
use chimp.Common.Runs.{done}
use chimp.Gc.{Gc, sweep}
use chimp.Gc.Sweep.{picked, survives, dies, sweep_lem, picked-length}
use chimp.Gc.Picked.{In-picked, picked_member, picked-Distinct}
use chimp.Gc.Heap.{heap_contains, cells}
use chimp.Gc.Mark.{Object, own, collect, unmark, stack_refs}
use chimp.Gc.Mark.Reach.{Reach, Proper, unmark_lem, mark_all-Reach}

-- The two chains are cells of the own heap, each in one place, no cell is in neither, only live cells
-- have marks, and `used` counts the live ones.
pub record IsValid (width : ℕ) (gc : Gc) : Type 0 where
  pub live_own : (x : ℕ) → In x gc.live → own width gc x ≡ true
  pub free_own : (x : ℕ) → In x gc.free → own width gc x ≡ true
  pub covered : (x : ℕ) → own width gc x ≡ true → In x gc.live ⊎ In x gc.free
  pub live_distinct : Distinct gc.live
  pub free_distinct : Distinct gc.free
  pub apart : (x : ℕ) → In x gc.live → ¬ In x gc.free
  pub marks : (x : ℕ) → gc.marked x ≡ true → In x gc.live
  pub counted : gc.used ≡ length gc.live
  pub whole : length gc.live + length gc.free ≡ length (cells width gc.slabs gc.slab_size)
  pub fits : length (cells width gc.slabs gc.slab_size) < 2 ^ 64

-- The roots of a collection
abbrev pub all_roots : ℕ → ℕ → List ℕ → Gc → List ℕ
all_roots width self stack gc = gc.roots ++ self ∷ stack_refs width gc stack

module _ (width : ℕ) (width_pos : 0 < width) (objects : ℕ → Object) where
  abbrev pub Reached : ℕ → List ℕ → Gc → ℕ → Type 0
  Reached self stack gc = Reach (own width gc) objects (all_roots width self stack gc)

  abbrev pub marked_gc : Gc → (ℕ → Bool) → Gc
  marked_gc gc m = record gc { marked = m; collection_count = (gc.collection_count + 1) % 2 ^ 64 }

  collect_run :
      (self : ℕ) (stack : List ℕ) (gc : Gc)
      → IsValid width gc
      → Proper (own width gc) objects (all_roots width self stack gc)
      → (m : ℕ → Bool) × (collect width objects self stack gc ≡ (
          let (freed, gc') = sweep (heap_contains width gc.slabs gc.slab_size) (marked_gc gc m) in
          done (some (ltb 0 freed, gc'))))
        × ((x : ℕ) → (m x ≡ true) ↔ (Reached self stack gc x × (own width gc x ≡ true)))
  unfolding collect
  collect_run self stack gc v proper =
      let none : (x : ℕ) → ¬ (unmark gc.live gc.marked x ≡ true) =
        λ x h. let (a, b) = unmark_lem gc.live gc.marked x h in b (v.marks x a) in
      let (m1, m2, ran, ran', exact) =
        mark_all-Reach width width_pos objects gc gc.roots (self ∷ stack_refs width gc stack)
          (unmark gc.live gc.marked) none proper in
      (m2, rw (ran, ran') refl, exact)

  own_contains :
      (gc : Gc) (x : ℕ) → own width gc x ≡ true → heap_contains width gc.slabs gc.slab_size x ≡ true
  own_contains gc x h = ground arith

  survives_iff :
      (contains m : ℕ → Bool) (x : ℕ)
      → (survives contains m x ≡ true) ↔ ((contains x ≡ true) × (m x ≡ true))
  survives_iff contains m x = ground arith

  dies_iff :
      (contains m : ℕ → Bool) (x : ℕ)
      → (dies contains m x ≡ true) ↔ ((contains x ≡ true) × (m x ≡ false))
  dies_iff contains m x = ground arith

  -- The references of a chain for which a test holds, as members
  picked_iff :
      (test : ℕ → Bool) (x : ℕ) (rs : List ℕ)
      → In x (picked test rs []) ↔ (In x rs × (test x ≡ true))
  picked_iff test x rs = (
    λ h. elim (In-picked test x rs [] h) [ inl both ↦ both | inr no_member ↦ absurd no_member ],
    λ (h, t). picked_member test x rs [] h t,
  )

  -- What a collection makes of a heap
  abbrev pub Collected : ℕ → List ℕ → Gc → Gc → Type 0
  Collected self stack gc gc' =
      ((x : ℕ) → In x gc'.live ↔ (In x gc.live × Reached self stack gc x))
      × ((x : ℕ) → In x gc'.free ↔ (In x gc.live × ¬ Reached self stack gc x))
      × (gc'.used ≡ length gc'.live)
      × (gc'.slabs ≡ gc.slabs)
      × (gc'.slab_size ≡ gc.slab_size)

  swept_chains :
      (self : ℕ) (stack : List ℕ) (gc : Gc) (m : ℕ → Bool)
      → IsValid width gc
      → ((x : ℕ) → (m x ≡ true) ↔ (Reached self stack gc x × (own width gc x ≡ true)))
      → (let contains = heap_contains width gc.slabs gc.slab_size in
          ((x : ℕ)
            → In x (picked (survives contains m) gc.live [])
              ↔ (In x gc.live × Reached self stack gc x))
          × ((x : ℕ)
              → In x (picked (dies contains m) gc.live [])
                ↔ (In x gc.live × ¬ Reached self stack gc x)))
  swept_chains self stack gc m v exact =
      let contains = heap_contains width gc.slabs gc.slab_size in
      (
        λ x.
            let (to, from) = picked_iff (survives contains m) x gc.live in
            let (st, sf) = survives_iff contains m x in
            (
              λ h. let (a, b) = to h in (a, ((exact x).0 (st b).1).0),
              λ (a, r).
                  let o = v.live_own x a in from (a, sf (own_contains gc x o, (exact x).1 (r, o))),
            ),
        λ x.
            let (to, from) = picked_iff (dies contains m) x gc.live in
            let (dt, df) = dies_iff contains m x in
            (
              λ h.
                  let (a, b) = to h in
                  (
                    a,
                    λ r.
                        let t : m x ≡ true = (exact x).1 (r, v.live_own x a) in
                        let f : m x ≡ false = (dt b).1 in absurd (cc),
                  ),
              λ (a, n).
                  let f : m x ≡ false = elim (Bool-cases (m x)) [
                    | inl t ↦ absurd (n ((exact x).0 t).0)
                    | inr f ↦ f
                  ] in
                  from (a, df (own_contains gc x (v.live_own x a), f)),
            ),
      )

  live_contained :
      (gc : Gc)
      → IsValid width gc
      → (x : ℕ) → In x gc.live
      → heap_contains width gc.slabs gc.slab_size x ≡ true
  live_contained gc v x h = own_contains gc x (v.live_own x h)

  swept_used :
      (gc : Gc) (m : ℕ → Bool)
      → IsValid width gc
      → (let gc' = (sweep (heap_contains width gc.slabs gc.slab_size) (marked_gc gc m)).1 in
          (gc'.used ≡ length gc'.live) × (length gc'.live + length gc'.free ≡ length gc.live))
  swept_used gc m v =
      let contains = heap_contains width gc.slabs gc.slab_size in
      let (a, b, _, d) = sweep_lem contains (marked_gc gc m) in
      let all = picked-length contains m gc.live [] [] (live_contained gc v) in
      let la = ap length a in
      let lb = ap length b in
      let counted = v.counted in
      let whole = v.whole in
      let fits = v.fits in
      (omega (arith, d, la, all, counted, whole, fits), omega (arith, la, lb, all))

  swept-Collected :
      (self : ℕ) (stack : List ℕ) (gc : Gc) (m : ℕ → Bool)
      → IsValid width gc
      → ((x : ℕ) → (m x ≡ true) ↔ (Reached self stack gc x × (own width gc x ≡ true)))
      → Collected self stack gc
          (sweep (heap_contains width gc.slabs gc.slab_size) (marked_gc gc m)).1
  unfolding sweep
  swept-Collected self stack gc m v exact =
      let (a, b, _, _) = sweep_lem (heap_contains width gc.slabs gc.slab_size) (marked_gc gc m) in
      let (kept, lost) = swept_chains self stack gc m v exact in
      (
        λ x. subst (λ l. In x l ↔ (In x gc.live × Reached self stack gc x)) (sym a) (kept x),
        λ x. subst (λ l. In x l ↔ (In x gc.live × ¬ Reached self stack gc x)) (sym b) (lost x),
        (swept_used gc m v).0,
        refl,
        refl,
      )

  -- A collection of a valid heap whose reachable cells hold proper objects returns, with as much fuel as
  -- the model gives it. The live chain that it leaves has exactly the live references that can be reached
  -- from the roots, the task and the machine stack, the free chain exactly the others, `used` counts the
  -- live ones, the slabs are the same, and the result tells whether there is a free cell now.
  pub collect_lem :
      (self : ℕ) (stack : List ℕ) (gc : Gc)
      → IsValid width gc
      → Proper (own width gc) objects (all_roots width self stack gc)
      → (b : Bool) × (gc' : Gc) × (collect width objects self stack gc ≡ done (some (b, gc')))
        × Collected self stack gc gc'
        × (b ≡ ltb 0 (length gc'.free))
  collect_lem self stack gc v proper =
      let (m, ran, exact) = collect_run self stack gc v proper in
      let contains = heap_contains width gc.slabs gc.slab_size in
      let (a, b, c, _) = sweep_lem contains (marked_gc gc m) in
      let (kept, lost) = swept_chains self stack gc m v exact in
      let (used, _) = swept_used gc m v in
      (
        ltb 0 (sweep contains (marked_gc gc m)).0,
        (sweep contains (marked_gc gc m)).1,
        ran,
        swept-Collected self stack gc m v exact,
        ap (ltb 0) (c ∙ sym (ap length b)),
      )

  -- Where no cell is free, as when `chimp_gc_new_object` asks for it, a collection leaves a valid heap.
  pub collect-IsValid :
      (self : ℕ) (stack : List ℕ) (gc : Gc)
      → IsValid width gc
      → Proper (own width gc) objects (all_roots width self stack gc)
      → gc.free ≡ []
      → (b : Bool) × (gc' : Gc) × (collect width objects self stack gc ≡ done (some (b, gc')))
        × Collected self stack gc gc'
        × (b ≡ ltb 0 (length gc'.free))
        × IsValid width gc'
  unfolding sweep
  collect-IsValid self stack gc v proper empty =
      let (m, ran, exact) = collect_run self stack gc v proper in
      let contains = heap_contains width gc.slabs gc.slab_size in
      let (a, b, c, _) = sweep_lem contains (marked_gc gc m) in
      let (kept, lost) = swept_chains self stack gc m v exact in
      let (used, sum) = swept_used gc m v in
      let whole = v.whole in
      let was_live : (x : ℕ) → own width gc x ≡ true → In x gc.live =
        λ x o. elim (v.covered x o) [ inl h ↦ h | inr h ↦ absurd (subst (In x) empty h) ] in
      let gc' = (sweep contains (marked_gc gc m)).1 in
      (
        ltb 0 (sweep contains (marked_gc gc m)).0,
        gc',
        ran,
        swept-Collected self stack gc m v exact,
        ap (ltb 0) (c ∙ sym (ap length b)),
        record {
          live_own = λ x h. v.live_own x ((kept x).0 (subst (In x) a h)).0;
          free_own = λ x h. v.live_own x ((lost x).0 (subst (In x) b h)).0;
          covered = λ x o. elim (Bool-cases (m x)) [
            | inl t ↦ inl (subst (In x) (sym a) ((kept x).1 (was_live x o, ((exact x).0 t).0)))
            | inr f ↦ inr (
                subst (In x) (sym b) (
                  (lost x).1
                    (was_live x o, λ r. absurd (true≢false (sym ((exact x).1 (r, o)) ∙ f)))))
          ];
          live_distinct =
              subst Distinct (sym a)
                (picked-Distinct (survives contains m) gc.live [] v.live_distinct tt (λ x h n. n));
          free_distinct =
              subst Distinct (sym b)
                (picked-Distinct (dies contains m) gc.live [] v.live_distinct tt (λ x h n. n));
          apart = λ x h f. ((lost x).0 (subst (In x) b f)).1 ((kept x).0 (subst (In x) a h)).1;
          marks = λ x h.
              let (r, o) = (exact x).0 h in subst (In x) (sym a) ((kept x).1 (was_live x o, r));
          counted = used;
          whole = omega (arith, sum, whole, ap length empty);
          fits = v.fits;
        },
      )
