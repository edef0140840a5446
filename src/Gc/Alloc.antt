-- ===== src/Gc/Alloc.antt =====
-- libchimp/gc.c: a new collector, its roots, and `chimp_gc_new_object`.
pub mod Grow
pub mod Fresh
mod Tests
use chimp.Common.{
  ℕ, ◌+◌, ◌-◌, ◌*◌, ◌%◌, ◌^◌, Bool, true, false, Option, none, some, List, [], ◌∷◌, ◌++◌, ◌==◌,
  if◌then◌else◌, length,
}
use chimp.Common.Runs.{Run, done, bug, fault, ◌>>=◌}
use chimp.Gc.{Gc}
use chimp.Gc.Heap.{slab_refs}
use chimp.Gc.Mark.{Object, no_class, collect}

-- `DEFAULT_SLAB_SIZE`
abbrev pub default_slab_size : ℕ
default_slab_size = 256

-- `chimp_gc_make_root`; `realloc_ok` tells whether the array of roots could grow.
unfoldable pub make_root : Bool → Gc → ℕ → Bool × Gc
make_root realloc_ok gc ref =
    if realloc_ok then (true, record gc { roots = gc.roots ++ ref ∷ [] }) else (false, gc)

-- `chimp_gc_num_live` and `chimp_gc_num_free`
unfoldable pub num_live : Gc → ℕ
num_live gc = gc.used

unfoldable pub num_free : Gc → ℕ
num_free gc = (length gc.slabs * gc.slab_size + 2 ^ 64 - gc.used) % 2 ^ 64

module _ (width : ℕ) where
  -- `chimp_gc_new` with its first slab at `begin`
  unfoldable pub gc_new : ℕ → Gc
  gc_new begin = record {
    live = [];
    free = slab_refs width default_slab_size begin;
    marked = λ r. false;
    used = 0;
    slabs = begin ∷ [];
    slab_size = default_slab_size;
    roots = [];
    collection_count = 0;
  }

  -- `chimp_heap_grow` and the lines behind it in `chimp_gc_new_object`: a new slab whose first cell is at
  -- `begin`
  unfoldable pub grow : ℕ → Gc → Gc
  grow begin gc = record gc {
    slabs = gc.slabs ++ begin ∷ [];
    free = slab_refs width gc.slab_size begin;
  }

  -- The cell that `chimp_gc_new_object` takes off the free chain, cleared
  unfoldable pub take_free : List ℕ → Gc → (ℕ → Object) → Run (ℕ × Gc × (ℕ → Object))
  take_free [] gc objects = fault
  take_free (ref ∷ free) gc objects = done (
    ref,
    record gc {
      free = free;
      live = ref ∷ gc.live;
      marked = λ r. if r == ref then false else gc.marked r;
      used = (gc.used + 1) % 2 ^ 64;
    },
    λ r. if r == ref then no_class else objects r,
  )

  -- The heap behind the test of `chimp_gc_new_object` after a collection: `slab` is the first cell of a
  -- slab that the system gives, or none where an allocation of `chimp_heap_grow` fails.
  unfoldable pub after_collect : Option ℕ → Bool → Gc → Run Gc
  after_collect slab true gc = done gc
  after_collect none false gc = bug
  after_collect (some begin) false gc = done (grow begin gc)

  -- `chimp_gc_new_object` up to the chain that it takes a cell from; `none` where fuel runs out
  unfoldable pub provide : (ℕ → Object) → ℕ → List ℕ → Option ℕ → List ℕ → Gc → Run (Option Gc)
  provide objects self stack slab (ref ∷ free) gc = done (some gc)
  provide objects self stack slab [] gc = collect width objects self stack gc >>= (λ o. elim o [
    | none ↦ done none
    | some r ↦ after_collect slab r.0 r.1 >>= (λ gc'. done (some gc'))
  ])

  -- `chimp_gc_new_object`
  unfoldable pub new_object :
      (ℕ → Object) → ℕ → List ℕ → Option ℕ → Gc → Run (Option (ℕ × Gc × (ℕ → Object)))
  new_object objects self stack slab gc = provide objects self stack slab gc.free gc >>= (λ o.
      elim o [
        | none ↦ done none
        | some gc' ↦ take_free gc'.free gc' objects >>= (λ r. done (some r))
      ])
