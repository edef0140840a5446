-- ===== src/Array/Valid.antt =====
-- The representation invariant of `ChimpArray`, what a valid array holds, and what
-- `chimp_array_grow` gives.
use chimp.Common.{
  suc, ◌-◌, le→ltb_false, ℕ, ◌<◌, ◌≤◌, ◌≡◌, ◌≢◌, refl, ap, some, none, List, ◌++◌, le→leb,
  lt→leb_false, arith, length, take, get_elem?, length-take, take-take, get_elem?-take,
  get_elem?-lt, Option-cases, Bool-cases, inl, inr, ◌⊎◌, sym, ◌∙◌, drop, ◌^◌, ltb, ltb→lt, lt→ltb,
}
use chimp.Common.Int.{pos, negsuc, int32-eq-pos}
use chimp.Common.Runs.{done, bug}
use chimp.Memory.{Allocator, realloc}
use chimp.Memory.Laws.{realloc_lem, read_lem}
use chimp.Array.{Array, new_capacity, grow, get, item, real_index}

-- Every cell below `capacity` is allocated, and `size` of them are in use.
pub record IsValid {ℓ} {A : Type ℓ} (arr : Array A) : Type 0 where
  pub fits : arr.size ≤ arr.capacity
  pub allocated : length arr.items ≡ arr.capacity

-- The list that the array stands for.
abbrev pub contents {ℓ} : {A : Type ℓ} → Array A → List A
contents arr = take arr.size arr.items

new_capacity-gt : (c : ℕ) → c ≢ 1 → c < new_capacity c
unfolding new_capacity
new_capacity-gt c h = ground arith

module _ {ℓ} {A : Type ℓ} where
  pub length-contents : (arr : Array A) → IsValid arr → length (contents arr) ≡ arr.size
  length-contents arr v = omega (arith, length-take arr.size arr.items)

  -- What `chimp_array_grow` returns: room for one more item, and the same contents.
  pub record Grown (arr arr' : Array A) : Type ℓ where
    pub valid : IsValid arr'
    pub room : arr'.size < arr'.capacity
    pub same_size : arr'.size ≡ arr.size
    pub same_contents : contents arr' ≡ contents arr

  abbrev pub IsStuck : Array A → Type 0
  IsStuck arr = (arr.size ≡ 1) × (arr.capacity ≡ 1)

  grow_room : (m : Allocator A) (arr : Array A) → arr.size < arr.capacity → grow m arr ≡ done arr
  unfolding grow
  grow_room m arr h = rw (lt→leb_false arr.capacity arr.size h)

  grow_full :
      (m : Allocator A) (arr : Array A) (items : List A)
      → arr.capacity ≤ arr.size
      → realloc m arr.items (new_capacity arr.capacity) ≡ some items
      → grow m arr ≡ done (record arr { items = items; capacity = new_capacity arr.capacity })
  unfolding grow
  grow_full m arr items h e = rw (le→leb arr.capacity arr.size h, e)

  -- The allocator has no block for a full array to grow into.
  abbrev pub IsRefused : Allocator A → Array A → Type ℓ
  IsRefused m arr = (arr.size ≡ arr.capacity) × (m.alloc (new_capacity arr.capacity) ≡ none)

  grow_refused :
      (m : Allocator A) (arr : Array A)
      → arr.capacity ≤ arr.size
      → m.alloc (new_capacity arr.capacity) ≡ none
      → grow m arr ≡ bug
  unfolding grow realloc
  grow_refused m arr h e = rw (le→leb arr.capacity arr.size h) (rw (e, realloc))

  realloc_alloc :
      (m : Allocator A) (b c : List A) (n : ℕ)
      → m.alloc n ≡ some c
      → (b' : List A) × (realloc m b n ≡ some b')
  unfolding realloc
  realloc_alloc m b c n e = (take n b ++ drop (length b) c, ground arith)

  Grown-full :
      (m : Allocator A) (arr : Array A) (items : List A)
      → IsValid arr
      → ¬ (IsStuck arr)
      → arr.capacity ≤ arr.size
      → realloc m arr.items (new_capacity arr.capacity) ≡ some items
      → Grown arr (record arr { items = items; capacity = new_capacity arr.capacity })
  Grown-full m arr items v ns h e =
      let gt : arr.capacity < new_capacity arr.capacity =
        new_capacity-gt arr.capacity (λ one. ns (omega arith, one)) in
      let (len, same) = realloc_lem m arr.items (new_capacity arr.capacity) (omega arith) e in
      record {
        valid = record { fits = omega arith; allocated = len };
        room = omega arith;
        same_size = refl;
        same_contents =
            sym (take-take arr.size (length arr.items) items (omega arith))
            ∙ ap (take arr.size) same;
      }

  -- `chimp_array_grow` of a valid array that is not stuck makes room; it aborts if memory runs out.
  pub grow_lem :
      (m : Allocator A) (arr : Array A)
      → IsValid arr
      → ¬ (IsStuck arr)
      → ((arr' : Array A) × (grow m arr ≡ done arr') × Grown arr arr')
        ⊎ ((grow m arr ≡ bug) × IsRefused m arr)
  grow_lem m arr v ns = elim (Bool-cases (ltb arr.size arr.capacity)) [
    | inl lt ↦ inl (
      arr,
      grow_room m arr (ltb→lt _ _ lt),
      record { valid = v; room = ltb→lt _ _ lt; same_size = refl; same_contents = refl },
    )
    | inr ge ↦
        let le : arr.capacity ≤ arr.size = ground arith in
        elim (Option-cases (m.alloc (new_capacity arr.capacity))) [
          | inl q ↦ inr (grow_refused m arr le q, (omega arith, q))
          | inr (c, q) ↦
              let (items, e) = realloc_alloc m arr.items c (new_capacity arr.capacity) q in
              inl (_, grow_full m arr items le e, Grown-full m arr items v ns le e)
        ]
  ]

  -- A full array of capacity 1 stays full: 1.8 is cut to 1.
  pub grow_stuck :
      (m : Allocator A) (arr : Array A) (c : List A)
      → IsValid arr
      → IsStuck arr
      → m.alloc 1 ≡ some c
      → (arr' : Array A) × (grow m arr ≡ done arr') × (arr'.size ≡ 1) × (length arr'.items ≡ 1)
  unfolding new_capacity
  grow_stuck m arr c v (s, one) q =
      let n : new_capacity arr.capacity ≡ 1 = ap new_capacity one in
      let (items, e) = realloc_alloc m arr.items c (new_capacity arr.capacity) (ap m.alloc n ∙ q) in
      let (len, _) = realloc_lem m arr.items (new_capacity arr.capacity) (omega (arith, n)) e in
      (_, grow_full m arr items (omega arith) e, s, omega (arith, n, len))

  pub real_index-lt : (arr : Array A) (n : ℕ) → n < arr.size → real_index arr (pos n) ≡ some n
  unfolding real_index
  real_index-lt arr n h = rw (lt→ltb n arr.size h)

  pub real_index-ge : (arr : Array A) (n : ℕ) → arr.size ≤ n → real_index arr (pos n) ≡ none
  unfolding real_index
  real_index-ge arr n h = rw (le→ltb_false n arr.size h)

  pub real_index-negsuc_lt :
      (arr : Array A) (n : ℕ) → n < arr.size → real_index arr (negsuc n) ≡ some (arr.size - suc n)
  unfolding real_index
  real_index-negsuc_lt arr n h = rw (lt→ltb n arr.size h)

  pub real_index-negsuc_ge :
      (arr : Array A) (n : ℕ) → arr.size ≤ n → real_index arr (negsuc n) ≡ none
  unfolding real_index
  real_index-negsuc_ge arr n h = rw (le→ltb_false n arr.size h)

  item_at :
      (nil : A) (arr : Array A) (i : ℕ) (x : A)
      → arr.size ≤ 2 ^ 31
      → i < arr.size
      → get_elem? arr.items i ≡ some x
      → item nil arr i ≡ done x
  unfolding item get
  item_at nil arr i x small h e =
      rw (int32-eq-pos i (omega arith), real_index-lt arr i h, get) (read_lem arr.items i x e)

  -- Reading an index in use gives the item of the contents.
  pub item_lem :
      (nil : A) (arr : Array A) (i : ℕ)
      → IsValid arr
      → arr.size ≤ 2 ^ 31
      → i < arr.size
      → (x : A) × (item nil arr i ≡ done x) × (get_elem? (contents arr) i ≡ some x)
  item_lem nil arr i v small h =
      let (x, e) = get_elem?-lt arr.items i (omega arith) in
      (x, item_at nil arr i x small h e, get_elem?-take arr.size i arr.items h ∙ e)
