-- ===== src/Samples.antt =====
-- The concrete values that the test modules share.
use chimp.Common.{
  ℕ, ◌≡◌, ap, some, none, List, length, replicate, ltb, ◌==◌, if◌then◌else◌, length-replicate,
  some_inj, sym, ◌∙◌,
}
use chimp.Compare.{CmpResult, lt, eq, gt}
use chimp.Memory.{Allocator}

-- An allocator that grants every request, with cells that hold `x`.
abbrev pub granting {ℓ} : {A : Type ℓ} → A → Allocator A
granting x = record {
  alloc = λ n. some (replicate n x);
  alloc_length = λ n b e. ap length (sym (some_inj e)) ∙ length-replicate n x;
}

pub none-some {ℓ} : {A : Type ℓ} (n : ℕ) (b : List A) → none ≡ some b → length b ≡ n
none-some n b e = cc

-- An allocator that refuses every request.
abbrev pub refusing {ℓ} : {A : Type ℓ} → Allocator A
refusing = record { alloc = λ n. none; alloc_length = λ n b e. none-some n b e }

-- `chimp_object_cmp` of two int objects.
abbrev pub compare : ℕ → ℕ → CmpResult
compare a b = if a == b then eq else (if ltb a b then lt else gt)
