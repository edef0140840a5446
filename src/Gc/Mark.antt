-- ===== src/Gc/Mark.antt =====
-- libchimp/gc.c: `chimp_gc_mark_ref`, `chimp_gc_collect` and `chimp_gc_new_object`. A function from
-- addresses gives the objects of the heap; the words of the machine stack and the task's object are
-- arguments.
pub mod Visit
pub mod Reach
pub mod Collect
use chimp.Common.{
  ℕ, zero, suc, ◌+◌, ◌%◌, ◌^◌, Bool, true, false, not, Option, none, some, List, [], ◌∷◌, ltb, ◌==◌,
  length, if◌then◌else◌,
}
use chimp.Common.Members.{elem}
use chimp.Common.Runs.{Run, done, bug, fault, ◌>>=◌}
use chimp.Gc.{Gc, sweep}
use chimp.Gc.Heap.{slab_refs, heap_contains, cells}

-- What a cell has for the collector: its class, and the references that the `mark` of the class visits, in
-- order. `no_mark` is an object whose class has no `mark`, `no_class` a cell whose class is NULL, as
-- `chimp_gc_new_object` leaves it, and `garbage` a cell that was never an object.
pub data Object : Type 0 where
  object : ℕ → List ℕ → Object
  no_mark : ℕ → Object
  no_class : Object
  garbage : Object

abbrev pub mark_cell : (ℕ → Bool) → ℕ → ℕ → Bool
mark_cell marked ref r = if r == ref then true else marked r

-- The loop at the start of `chimp_gc_collect`
abbrev pub unmark : List ℕ → (ℕ → Bool) → (ℕ → Bool)
unmark [] marked = marked
unmark (ref ∷ live) marked = unmark live (λ r. if r == ref then false else marked r)

-- A sequence of marks; `none` where the fuel of one runs out.
unfoldable pub mark_all :
    (ℕ → (ℕ → Bool) → Run (Option (ℕ → Bool))) → List ℕ → (ℕ → Bool) → Run (Option (ℕ → Bool))
mark_all mark [] marked = done (some marked)
mark_all mark (ref ∷ refs) marked =
    mark ref marked
    >>= (λ o. elim o [ none ↦ done none | some marked' ↦ mark_all mark refs marked' ])

module _ (width : ℕ) where
  -- A reference that is not NULL and that lies in the collector's own heap
  abbrev pub own : Gc → ℕ → Bool
  own gc ref = if ref == 0 then false else heap_contains width gc.slabs gc.slab_size ref

  -- More than the cells that can be marked
  abbrev pub mark_fuel : Gc → ℕ
  mark_fuel gc = suc (length (cells width gc.slabs gc.slab_size))

  -- The words of the machine stack that `chimp_gc_collect` takes for references
  abbrev pub stack_refs : Gc → List ℕ → List ℕ
  stack_refs gc [] = []
  stack_refs gc (word ∷ words) =
      if heap_contains width gc.slabs gc.slab_size word
      then word ∷ stack_refs gc words
      else stack_refs gc words

  module _ (objects : ℕ → Object) where
    -- `chimp_gc_mark_ref`, with fuel for the depth of its recursion
    unfoldable pub mark_ref : Gc → ℕ → ℕ → (ℕ → Bool) → Run (Option (ℕ → Bool))
    mark_ref gc zero ref marked = done none
    mark_ref gc (suc fuel) ref marked =
        if own gc ref
        then (if marked ref then done (some marked) else elim (objects ref) [
          | object klass refs ↦ mark_all (mark_ref gc fuel) (klass ∷ refs) (mark_cell marked ref)
          | no_mark klass ↦ mark_ref gc fuel klass (mark_cell marked ref) >>= (λ o. bug)
          | no_class ↦ bug
          | garbage ↦ fault
        ])
        else done (some marked)

    -- `chimp_gc_collect`: `self` is the current task's object or NULL, and `stack` the words of the
    -- machine stack, none where `stack_start` is NULL.
    unfoldable pub collect : ℕ → List ℕ → Gc → Run (Option (Bool × Gc))
    collect self stack gc =
        let mark = mark_ref gc (mark_fuel gc) in
        mark_all mark gc.roots (unmark gc.live gc.marked) >>= (λ o. elim o [
          | none ↦ done none
          | some m ↦ mark_all mark (self ∷ stack_refs gc stack) m >>= (λ o'. elim o' [
            | none ↦ done none
            | some m' ↦
                let (freed, gc') = sweep (heap_contains width gc.slabs gc.slab_size) (record gc {
                  marked = m';
                  collection_count = (gc.collection_count + 1) % 2 ^ 64;
                }) in
                done (some (ltb 0 freed, gc'))
          ])
        ])
