-- ===== src/Memory/Laws.antt =====
-- Accesses inside a block succeed, and keep its length.
use chimp.Common.{
  ℕ, ◌+◌, ◌≤◌, ◌<◌, ◌≡◌, some, List, ◌++◌, arith, length, get_elem?, set, take, drop, length-append,
  length-drop, lt→ltb, le→leb, take-append, take-all, Option-cases, inl, inr, ap, ◌⊎◌, none, ◌∙◌,
  take-take, length-take,
}
use chimp.Common.Runs.{done, fault}
use chimp.Memory.{Allocator, realloc, read, write, memmove, memcpy}

module _ {ℓ} {A : Type ℓ} where
  pub read_lem : (b : List A) (i : ℕ) (x : A) → get_elem? b i ≡ some x → read b i ≡ done x
  unfolding read
  read_lem b i x h = ground arith

  pub write_lem : (b : List A) (i : ℕ) (v : A) → i < length b → write b i v ≡ done (set b i v)
  unfolding write
  write_lem b i v h = rw (lt→ltb i (length b) h)

  pub write-fault : (b : List A) (i : ℕ) (v : A) → length b ≤ i → write b i v ≡ fault
  unfolding write
  write-fault b i v h = ground arith

  pub memmove_lem :
      (b : List A) (dst src n : ℕ)
      → src + n ≤ length b
      → dst + n ≤ length b
      → memmove b dst src n ≡ done (take dst b ++ (take n (drop src b) ++ drop (dst + n) b))
  unfolding memmove
  memmove_lem b dst src n h k = rw (le→leb _ _ h, le→leb _ _ k)

  pub memcpy_lem :
      (b : List A) (dst : ℕ) (bytes : List A)
      → dst + length bytes ≤ length b
      → memcpy b dst bytes ≡ done (take dst b ++ (bytes ++ drop (dst + length bytes) b))
  unfolding memcpy
  memcpy_lem b dst bytes h = rw (le→leb _ _ h)

  pub realloc-some :
      (m : Allocator A) (b : List A) (n : ℕ) {b' : List A}
      → realloc m b n ≡ some b'
      → (c : List A) × (length c ≡ n) × (b' ≡ take n b ++ drop (length b) c)
  unfolding realloc
  realloc-some m b n e = elim (Option-cases (m.alloc n)) [
    | inl q ↦ ground arith
    | inr (c, q) ↦ (c, m.alloc_length n c q, ground arith)
  ]

  -- A larger block holds the old cells, and has the length asked for.
  pub realloc_lem :
      (m : Allocator A) (b : List A) (n : ℕ) {b' : List A}
      → length b ≤ n
      → realloc m b n ≡ some b'
      → (length b' ≡ n) × (take (length b) b' ≡ b)
  realloc_lem m b n {b'} h e =
      let (c, lc, eb) = realloc-some m b n e in
      let eb' : b' ≡ b ++ drop (length b) c = rw (take-all n b h) at eb in
      (
        omega (arith, ap length eb', length-append b (drop (length b) c), length-drop (length b) c),
        rw (eb', take-append (length b) b (drop (length b) c) (omega arith))
            (take-all (length b) b (omega arith)),
      )

  -- A resized block has the length asked for, and keeps the cells that fit.
  pub realloc_keeps :
      (m : Allocator A) (b : List A) (n k : ℕ) {b' : List A}
      → k ≤ n
      → k ≤ length b
      → realloc m b n ≡ some b'
      → (length b' ≡ n) × (take k b' ≡ take k b)
  realloc_keeps m b n k {b'} h l e =
      let (c, lc, eb) = realloc-some m b n e in
      (
        omega (
          arith,
          ap length eb,
          length-append (take n b) (drop (length b) c),
          length-take n b,
          length-drop (length b) c,
        ),
        ap (take k) eb
            ∙ take-append k (take n b) (drop (length b) c) (omega (arith, length-take n b))
            ∙ take-take k n b h,
      )

  -- `realloc` fails exactly where the allocator refuses.
  pub realloc_cases :
      (m : Allocator A) (b : List A) (n : ℕ)
      → ((b' : List A) × (realloc m b n ≡ some b')) ⊎ ((realloc m b n ≡ none) × (m.alloc n ≡ none))
  unfolding realloc
  realloc_cases m b n = elim (Option-cases (m.alloc n)) [
    | inl q ↦ inr (ground arith, q)
    | inr (c, q) ↦ inl (take n b ++ drop (length b) c, ground arith)
  ]
