-- ===== src/Gc.antt =====
-- libchimp/gc.c: the collector's state, its heap and its sweep. A reference is an address, a chain of
-- references through `next` is a list, and `contains` is `chimp_heap_contains` of the collector's own
-- heap. The destructors of classes are not part of the state.
pub mod Sweep
pub mod Picked
pub mod Heap
pub mod Mark
pub mod Alloc
mod Tests
use chimp.Common.{ℕ, ◌+◌, ◌-◌, ◌%◌, ◌^◌, Bool, List, [], ◌∷◌, if◌then◌else◌}

pub record Gc : Type 0 where
  pub live : List ℕ
  pub free : List ℕ
  pub marked : ℕ → Bool
  pub used : ℕ
  pub slabs : List ℕ
  pub slab_size : ℕ
  pub roots : List ℕ
  pub collection_count : ℕ

-- The locals of `chimp_gc_sweep` that its loop changes
pub record Swept : Type 0 where
  pub live : List ℕ
  pub free : List ℕ
  pub kept : ℕ
  pub freed : ℕ

module _ (contains : ℕ → Bool) where
  -- One round of the loop. The call of `chimp_gc_value_dtor` is left out: what a class's destructor does,
  -- and the abort where the cell's class is NULL.
  abbrev pub sweep_ref : (ℕ → Bool) → ℕ → Swept → Swept
  sweep_ref marked ref s =
      if contains ref
      then (if marked ref
          then record s { live = ref ∷ s.live; kept = s.kept + 1 }
          else record s { free = ref ∷ s.free; freed = s.freed + 1 })
      else s

  unfoldable pub sweep_loop : (ℕ → Bool) → List ℕ → Swept → Swept
  sweep_loop marked [] s = s
  sweep_loop marked (ref ∷ refs) s = sweep_loop marked refs (sweep_ref marked ref s)

  -- `chimp_gc_sweep`: the number of references freed
  unfoldable pub sweep : Gc → ℕ × Gc
  sweep gc =
      let s = sweep_loop gc.marked gc.live (record { live = []; free = []; kept = 0; freed = 0 }) in
      (
        s.freed,
        record gc { live = s.live; free = s.free; used = (gc.used + 2 ^ 64 - s.freed) % 2 ^ 64 },
      )
