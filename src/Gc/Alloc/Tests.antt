-- ===== src/Gc/Alloc/Tests.antt =====
-- A full heap with three cells, of which the third one is not reached.
use chimp.Common.{
  ℕ, ◌≡◌, ◌↔◌, inl, inr, refl, sym, subst, ap, Bool, true, false, Option, some, [], ◌∷◌, length,
  arith, ltb,
}
use chimp.Common.Members.{In}
use chimp.Common.Runs.{Run, done}
use chimp.Gc.{Gc, sweep, sweep_loop}
use chimp.Gc.Heap.{slab_contains, cells, slab_refs, heap_contains, heap_contains_lem}
use chimp.Gc.Mark.{Object, object, no_class, own, collect, mark_all, mark_ref}
use chimp.Gc.Mark.Reach.{Proper}
use chimp.Gc.Mark.Collect.{IsValid, Reached, Collected, all_roots, collect_lem, collect-IsValid}
use chimp.Gc.Alloc.{provide, take_free, after_collect, new_object}
use chimp.Gc.Alloc.Grow.{NewSlab}
use chimp.Gc.Alloc.Fresh.{new_object_lem}

abbrev full : Gc
full = record {
  live = 8 ∷ 16 ∷ 24 ∷ [];
  free = [];
  marked = λ r. false;
  used = 3;
  slabs = 8 ∷ [];
  slab_size = 3;
  roots = 8 ∷ [];
  collection_count = 0;
}

-- Each object has the second cell for its class.
abbrev all_classed : ℕ → Object
all_classed r = object 16 []

all_classed-Proper : Proper (own 8 full) all_classed (all_roots 8 0 [] full)
all_classed-Proper x r o = (16, [], refl)

full_cells : cells 8 full.slabs full.slab_size ≡ 8 ∷ 16 ∷ 24 ∷ []
unfolding cells slab_refs
full_cells = refl

full_own : (x : ℕ) → In x (8 ∷ 16 ∷ 24 ∷ []) → own 8 full x ≡ true
unfolding heap_contains slab_contains
full_own x (inl e) = subst (λ y. own 8 full y ≡ true) (sym e) refl
full_own x (inr (inl e)) = subst (λ y. own 8 full y ≡ true) (sym e) refl
full_own x (inr (inr (inr h))) = absurd h
full_own x (inr (inr (inl e))) = subst (λ y. own 8 full y ≡ true) (sym e) refl

full_covered : (x : ℕ) → own 8 full x ≡ true → In x (8 ∷ 16 ∷ 24 ∷ [])
full_covered x o =
    subst (In x) full_cells
      ((heap_contains_lem 8 full.slabs full.slab_size x (omega arith)).0 (ground arith))

full-IsValid : IsValid 8 full
full-IsValid = record {
  live_own = full_own;
  free_own = λ x h. absurd h;
  covered = λ x o. inl (full_covered x o);
  live_distinct = (λ h. absurd (ground arith), (λ h. absurd (ground arith), (λ h. h, tt)));
  free_distinct = tt;
  apart = λ x h f. f;
  marks = λ x h. absurd (cc);
  counted = refl;
  whole = omega (arith, ap length full_cells);
  fits = omega (arith, ap length full_cells);
}

full-NewSlab : NewSlab 8 (omega arith) full.slabs full.slab_size 32
unfolding slab_refs
full-NewSlab x h = (ground arith, λ c. let c' = subst (In x) full_cells c in absurd (ground arith))

heap_contains_lem_example : (heap_contains 8 (8 ∷ []) 3 16 ≡ true) ↔ In 16 (cells 8 (8 ∷ []) 3)
heap_contains_lem_example = heap_contains_lem 8 (8 ∷ []) 3 16 (omega arith)

collect_lem_example :
    (b : Bool) × (gc' : Gc) × (collect 8 all_classed 0 [] full ≡ done (some (b, gc')))
    × Collected 8 (omega arith) all_classed 0 [] full gc'
    × (b ≡ ltb 0 (length gc'.free))
collect_lem_example =
    collect_lem 8 (omega arith) all_classed 0 [] full full-IsValid all_classed-Proper

collect-IsValid_example :
    (b : Bool) × (gc' : Gc) × (collect 8 all_classed 0 [] full ≡ done (some (b, gc')))
    × Collected 8 (omega arith) all_classed 0 [] full gc'
    × (b ≡ ltb 0 (length gc'.free))
    × IsValid 8 gc'
collect-IsValid_example =
    collect-IsValid 8 (omega arith) all_classed 0 [] full full-IsValid all_classed-Proper refl

new_object_lem_example :
    (ref : ℕ) × (gc' : Gc) × (objects' : ℕ → Object) × (new_object 8 all_classed 0 [] (some 32) full
      ≡ done (some (ref, gc', objects')))
    × IsValid 8 gc'
    × In ref gc'.live
    × ¬ (In ref full.live × Reached 8 (omega arith) all_classed 0 [] full ref)
    × ((x : ℕ)
        → In x full.live
        → Reached 8 (omega arith) all_classed 0 [] full x
        → In x gc'.live × (objects' x ≡ all_classed x))
    × (objects' ref ≡ no_class)
new_object_lem_example =
    new_object_lem 8 (omega arith) all_classed 0 [] full 32 full-IsValid all_classed-Proper
      full-NewSlab (omega arith) (omega (arith, ap length full_cells))

abbrev cell_of : Run (Option (ℕ × Gc × (ℕ → Object))) → ℕ
cell_of (done (some (ref, gc, objects))) = ref
cell_of _ = 0

-- A collection of the full heap frees its third cell, and an allocation takes it.
new_object_full : cell_of (new_object 8 all_classed 0 [] (some 32) full) ≡ 24
unfolding new_object provide take_free collect mark_all mark_ref sweep sweep_loop heap_contains
    slab_contains cells slab_refs after_collect
new_object_full = refl
