-- ===== src/Str.antt =====
-- libchimp/str.c: `ChimpStr`, a block of bytes with its length, and the functions and methods of strings.
-- A byte is a number, `isspace` and the bytes of an argument are given. A refused object is a refused
-- block, and `none` is NULL.
mod Append
mod Split
mod Tests
use chimp.Common.{
  ℕ, zero, suc, ◌+◌, ◌-◌, Bool, true, false, ◌&&◌, Option, none, some, List, [], ◌∷◌, ◌==◌, ltb,
  leb, if◌then◌else◌, length, take, drop,
}
use chimp.Common.Runs.{Run, done, fault, ◌>>=◌}
use chimp.Memory.{Allocator, realloc, read, write, memcpy}
use chimp.Array
use chimp.Array.{Array}

pub record Str : Type 0 where
  pub bytes : List ℕ
  pub size : ℕ

-- The characters of a string of C, up to its terminator
unfoldable pub c_string : List ℕ → Run (List ℕ)
c_string [] = fault
c_string (c ∷ cs) =
    let rest = c_string cs in if c == 0 then done [] else rest >>= (λ r. done (c ∷ r))

unfoldable pub is_prefix : List ℕ → List ℕ → Bool
is_prefix [] cs = true
is_prefix (n ∷ ns) [] = false
is_prefix (n ∷ ns) (c ∷ cs) = (n == c) && is_prefix ns cs

-- Where the first occurrence of the needle begins
unfoldable pub find : List ℕ → List ℕ → Option ℕ
unfolding is_prefix
find needle [] = if is_prefix needle [] then some 0 else none
find needle (c ∷ cs) =
    let rest = find needle cs in
    if is_prefix needle (c ∷ cs) then some 0 else elim rest [ none ↦ none | some k ↦ some (suc k) ]

-- `strstr (block + at, needle)`, as an offset from `block + at`
unfoldable pub strstr : List ℕ → ℕ → List ℕ → Run (Option ℕ)
unfolding c_string find
strstr block at needle = c_string (drop at block) >>= (λ hay. done (find needle hay))

module _ (m : Allocator ℕ) where
  -- `chimp_str_new (block + at, size)`
  unfoldable pub str_new : List ℕ → ℕ → ℕ → Run (Option Str)
  str_new block at size = elim (m.alloc (size + 1)) [
    | none ↦ done none
    | some b ↦
        if leb (at + size) (length block)
        then memcpy b 0 (take size (drop at block))
          >>= (λ b₁. write b₁ size 0 >>= (λ b₂. done (some (record { bytes = b₂; size = size }))))
        else fault
  ]

  -- `chimp_str_append` behind its call of `chimp_object_str`
  unfoldable pub append : Str → Str → Run (Bool × Str)
  append self other = elim (realloc m self.bytes (self.size + other.size + 1)) [
    | none ↦ done (false, self)
    | some b ↦
        if leb other.size (length other.bytes)
        then memcpy b self.size (take other.size other.bytes) >>= (λ b₁.
          write b₁ (self.size + other.size) 0
          >>= (λ b₂. done (true, record { bytes = b₂; size = self.size + other.size })))
        else fault
  ]

  module _ (isspace : ℕ → Bool) where
    -- The loops of `_chimp_str_trim`, the first with `k` rounds left
    unfoldable pub skip_spaces : List ℕ → ℕ → ℕ → Run ℕ
    skip_spaces block zero i = done i
    skip_spaces block (suc k) i = do
      c ← read block i
      let rest = skip_spaces block k (i + 1)
      if isspace c then rest else done i

    unfoldable pub skip_back : List ℕ → ℕ → ℕ → Run ℕ
    skip_back block zero i = done zero
    skip_back block (suc j) i =
        let rest = skip_back block j i in
        if ltb i (suc j)
        then read block (suc j) >>= (λ c. if isspace c then rest else done (suc j))
        else done (suc j)

    -- `_chimp_str_trim`
    unfoldable pub trim : Str → Run (Option Str)
    unfolding skip_spaces skip_back str_new
    trim self = do
      i ← skip_spaces self.bytes self.size 0
      j ← (if ltb 0 self.size then skip_back self.bytes (self.size - 1) i else done 0)
      str_new self.bytes i (j + 1 - i)

  -- The loop of `_chimp_str_upper` and of `_chimp_str_lower`, with `k` rounds left
  unfoldable pub each_char : (ℕ → ℕ) → List ℕ → ℕ → ℕ → Run (List ℕ)
  each_char f block zero i = done block
  each_char f block (suc k) i = do
    c ← read block i
    block' ← write block i (f c)
    each_char f block' k (i + 1)

  abbrev pub upper_char : ℕ → ℕ
  upper_char c = if leb 97 c && leb c 122 then c - 32 else c

  abbrev pub lower_char : ℕ → ℕ
  lower_char c = if leb 65 c && leb c 90 then c + 32 else c

  -- A NULL from `chimp_str_new` is not tested, and its data are read.
  unfoldable pub change_case : (ℕ → ℕ) → Str → Run Str
  unfolding each_char str_new
  change_case f self = str_new self.bytes 0 self.size >>= (λ r. elim r [
    | none ↦ fault
    | some s ↦ each_char f s.bytes self.size 0 >>= (λ block. done (record s { bytes = block }))
  ])

  -- `_chimp_str_upper` and `_chimp_str_lower`
  unfoldable pub upper : Str → Run Str
  unfolding change_case
  upper self = change_case upper_char self

  unfoldable pub lower : Str → Run Str
  unfolding change_case
  lower self = change_case lower_char self

  -- `_chimp_str_index`; `none` is -1.
  unfoldable pub index : Str → List ℕ → Run (Option ℕ)
  unfolding strstr
  index self needle = strstr self.bytes 0 needle

-- How far a split has come: the rounds granted are spent, NULL, or the array
pub data Splitting : Type 0 where
  spent null : Splitting
  pieces : Array Str → Splitting

module _ (m : Allocator ℕ) (blocks : Allocator Str) where
  -- The loop of `_chimp_str_split`: `n` is where the next piece begins, and `fuel` rounds are granted.
  unfoldable pub split_loop : ℕ → Str → List ℕ → ℕ → Array Str → Run Splitting
  unfolding strstr str_new
  split_loop zero self sep n arr = done spent
  split_loop (suc fuel) self sep n arr =
      if ltb n self.size
      then strstr self.bytes n sep >>= (λ end.
        str_new m self.bytes n (elim end [ none ↦ self.size - n | some k ↦ k ]) >>= (λ r. elim r [
          | none ↦ done null
          | some ref ↦
              Array.push blocks arr ref
              >>= (λ arr'. split_loop fuel self sep (n + (ref.size + length sep)) arr')
        ]))
      else done (pieces arr)

  -- `_chimp_str_split` with the separator's bytes
  unfoldable pub split : ℕ → Str → List ℕ → Run Splitting
  unfolding split_loop
  split fuel self sep = elim (Array.new blocks) [
    | none ↦ done null
    | some arr ↦ split_loop fuel self sep 0 arr
  ]
