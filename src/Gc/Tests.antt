-- ===== src/Gc/Tests.antt =====
-- A sweep of a small heap.
use chimp.Common.{ℕ, ◌+◌, ◌≡◌, ◌==◌, refl, inl, arith, Bool, true, [], ◌∷◌, length}
use chimp.Gc.{Gc, sweep}
use chimp.Gc.Picked.{sweep_loses_free}
use chimp.Common.Members.{In}

abbrev all : ℕ → Bool
all r = true

-- Three live cells, of which the second is marked, and a free one.
abbrev small : Gc
small = record {
  live = 1 ∷ 2 ∷ 3 ∷ [];
  free = 4 ∷ [];
  marked = λ r. r == 2;
  used = 3;
  slabs = [];
  slab_size = 0;
  roots = [];
  collection_count = 0;
}

sweep_loses_free_example :
    ¬ In 4 (sweep all small).1.live
    × ¬ In 4 (sweep all small).1.free
    × (length (sweep all small).1.live + length (sweep all small).1.free ≡ length small.live)
sweep_loses_free_example = sweep_loses_free all small 4 (λ r h. refl) (inl refl) (λ h. ground arith)
