-- ===== src/LwHash/Tests.antt =====
-- Runs of the lightweight hash's functions at a concrete table.
use chimp.Common.{ℕ, ◌+◌, [], ◌∷◌, arith}
use chimp.Common.Runs.{Run, done}
use chimp.LwHash.{LwHash}
use chimp.LwHash.Refine.{IsValid}

abbrev ages : LwHash ℕ ℕ
ages = record { items = (1, 30) ∷ (2, 40) ∷ []; size = 2 }

ages-IsValid : IsValid ages
ages-IsValid = record { fits = omega arith }

-- The sum of the values
abbrev total : ℕ → ℕ → ℕ → Run ℕ
total k v s = done (s + v)
