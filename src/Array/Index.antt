-- ===== src/Array/Index.antt =====
-- Access by a signed index, and insertion, against lists.
use mathlib.Core.List.{append_assoc, reverse, reverse-cons}
use native.Mathlib.Numerals.{add-one}
use chimp.Common.{
  ℕ, zero, suc, ◌+◌, ◌-◌, ◌<◌, ◌≤◌, ◌≡◌, refl, ap, ap₂, some, none, Option, List, [], ◌∷◌, ◌++◌,
  arith, length, take, drop, set, get_elem?, take-set_end, ltb, lt→ltb, ltb→lt, Bool-cases,
  le→ltb_false, inl, inr, ◌⊎◌, sym, ◌∙◌, get_elem?-lt, get_elem?-take, drop-all, leb, subst,
  Option-cases, get_elem?-ge, take-drop, take_at_length, length-append, length-take, length-drop,
  length-set, take-take, take-all, get_elem?-append_length, get_elem?-append_left, if◌then◌else◌,
}
use chimp.Common.Int.{ℤ, pos, negsuc}
use chimp.Common.Runs.{done, bug}
use chimp.Memory.{Allocator, read}
use chimp.Memory.Laws.{read_lem, write_lem, memmove_lem}
use chimp.Array.{Array, grow, real_index, get, insert, insert_index, insert_at}
use chimp.Array.Valid.{
  IsValid, IsStuck, IsRefused, contents, length-contents, Grown, grow_lem, real_index-lt,
  real_index-ge, real_index-negsuc_lt, real_index-negsuc_ge,
}
use chimp.Array.Ends.{Holds}
use chimp.Array.Take.{length-moved}

-- The index that an insertion means: a negative one counts from the end, and one past the end is
-- allowed.
abbrev pub insert_position : ℕ → ℤ → Option ℕ
insert_position size (pos n) = if leb n size then some n else none
insert_position size (negsuc n) = if ltb n size then some (size - suc n) else none

insert_position-le : (size : ℕ) (p : ℤ) (i : ℕ) → insert_position size p ≡ some i → i ≤ size
insert_position-le size (pos n) i e = ground arith
insert_position-le size (negsuc n) i e = ground arith

module _ {ℓ} {A : Type ℓ} where
  -- What a script means by `xs[p]`: a negative index counts from the end, and nil stands outside.
  abbrev pub signed_elem : A → List A → ℤ → A
  signed_elem nil xs (pos n) = elim (get_elem? xs n) [ none ↦ nil | some x ↦ x ]
  signed_elem nil xs (negsuc n) = elim (get_elem? (reverse xs) n) [ none ↦ nil | some x ↦ x ]

  length-reverse : (xs : List A) → length (reverse xs) ≡ length xs
  length-reverse [] = refl
  length-reverse (x ∷ xs) =
      omega (
        arith,
        ap length (reverse-cons x xs),
        length-append (reverse xs) (x ∷ []),
        length-reverse xs,
      )

  get_elem?-reverse :
      (xs : List A) (n : ℕ)
      → n < length xs
      → get_elem? (reverse xs) n ≡ get_elem? xs (length xs - suc n)
  get_elem?-reverse [] n h = absurd (omega arith)
  get_elem?-reverse (x ∷ xs) n h =
      ap (λ t. get_elem? t n) (reverse-cons x xs) ∙ elim (Bool-cases (ltb n (length xs))) [
        | inl lt ↦
            let l : n < length xs = ltb→lt _ _ lt in
            get_elem?-append_left (reverse xs) (x ∷ []) n (omega (arith, length-reverse xs))
            ∙ get_elem?-reverse xs n l
            ∙ ap (get_elem? (x ∷ xs)) {x = suc (length xs - suc n)} (omega arith)
        | inr ge ↦
            let l : n ≡ length (reverse xs) = ground (arith, length-reverse xs) in
            ap (get_elem? (reverse xs ++ x ∷ [])) l
            ∙ get_elem?-append_length (reverse xs) x []
            ∙ ap (get_elem? (x ∷ xs)) {x = 0} (omega (arith, length-reverse xs))
      ]

  read_used :
      (nil : A) (self : Array A) (i : ℕ)
      → IsValid self
      → i < self.size
      → read self.items i ≡ done (elim (get_elem? (contents self) i) [ none ↦ nil | some x ↦ x ])
  read_used nil self i v h =
      let (x, e) = get_elem?-lt self.items i (omega arith) in
      rw (get_elem?-take self.size i self.items h, e) (read_lem self.items i x e)

  -- `chimp_array_get` of a valid array returns what a script means by that index, for every index:
  -- from the front if it is not negative, from the back if it is, and nil outside.
  pub get_lem :
      (nil : A) (self : Array A) (p : ℤ)
      → IsValid self
      → get nil self p ≡ done (signed_elem nil (contents self) p)
  unfolding get
  get_lem nil self (pos n) v = elim (Bool-cases (ltb n self.size)) [
    | inl h ↦
        let lt : n < self.size = ltb→lt _ _ h in
        rw (real_index-lt self n lt, get) (read_used nil self n v lt)
    | inr h ↦
        let ge : self.size ≤ n = ground arith in
        rw (
          real_index-ge self n ge,
          get,
          get_elem?-ge (contents self) n (omega (arith, length-contents self v)),
          signed_elem,
        )
  ]
  get_lem nil self (negsuc n) v = elim (Bool-cases (ltb n self.size)) [
    | inl h ↦
        let lt : n < self.size = ltb→lt _ _ h in
        let same : get_elem? (reverse (contents self)) n
            ≡ get_elem? (contents self) (self.size - suc n) =
          get_elem?-reverse (contents self) n (omega (arith, length-contents self v))
          ∙ ap (λ k. get_elem? (contents self) (k - suc n)) (length-contents self v) in
        rw (real_index-negsuc_lt self n lt, get, signed_elem, same)
          (read_used nil self (self.size - suc n) v (omega arith))
    | inr h ↦
        let ge : self.size ≤ n = ground arith in
        rw (
          real_index-negsuc_ge self n ge,
          get,
          get_elem?-ge (reverse (contents self)) n
              (omega (arith, length-contents self v, length-reverse (contents self))),
          signed_elem,
        )
  ]

  -- A list with `value` put in before index `i`.
  abbrev pub insert_before : ℕ → A → List A → List A
  insert_before i value xs = take i xs ++ value ∷ drop i xs

  insert_before-all :
      (n : ℕ) (xs : List A) (value : A)
      → length xs ≤ n
      → insert_before n value xs ≡ xs ++ value ∷ []
  insert_before-all n xs value h = rw (take-all n xs h, drop-all n xs h)

  set-take-append :
      (i : ℕ) (items rest : List A) (value : A)
      → i < length items
      → set (take (suc i) items ++ rest) i value ≡ take i items ++ value ∷ rest
  set-take-append i [] rest value h = absurd (omega arith)
  set-take-append zero (x ∷ xs) rest value h = refl
  set-take-append (suc i) (x ∷ xs) rest value h =
      ap (λ t. x ∷ t) (set-take-append i xs rest value (omega arith))

  take-inserted :
      (i n : ℕ) (items rest : List A) (value : A)
      → i ≤ n
      → n ≤ length items
      → take (suc n) (take i items ++ value ∷ (take (n - i) (drop i items) ++ rest))
        ≡ insert_before i value (take n items)
  take-inserted i n items rest value h k =
      ap (take (suc n))
        (sym (append_assoc (take i items) (value ∷ take (n - i) (drop i items)) rest))
      ∙ take_at_length (take i items ++ value ∷ take (n - i) (drop i items)) rest (suc n) (
          omega (
            arith,
            length-append (take i items) (value ∷ take (n - i) (drop i items)),
            length-take i items,
            length-take (n - i) (drop i items),
            length-drop i items,
          ))
      ∙ ap₂ (λ a b. a ++ value ∷ b) (sym (take-take i n items h))
          (take-drop (n - i) i items ∙ ap (λ k. drop i (take k items)) (omega arith))

  insert_inside :
      (m : Allocator A) (self arr : Array A) (i : ℕ) (value : A)
      → grow m self ≡ done arr
      → Grown self arr
      → i < self.size
      → (arr' : Array A) × (insert_at m self i value ≡ done arr')
        × Holds (insert_before i value (contents self)) arr'
  unfolding insert_at
  insert_inside m self arr i value e g h =
      let n : ℕ = arr.size - i in
      let tail : List A = take n (drop i arr.items) ++ drop (i + 1 + n) arr.items in
      let len : length (take (i + 1) arr.items ++ tail) ≡ length arr.items =
        length-moved arr.items (i + 1) i n (omega arith) (omega arith) in
      let same : set (take (i + 1) arr.items ++ tail) i value ≡ take i arr.items ++ value ∷ tail =
        ap (λ k. set (take k arr.items ++ tail) i value) {x = i + 1} {y = suc i} (omega arith)
        ∙ set-take-append i arr.items tail value (omega arith) in
      (
        record arr { items = set (take (i + 1) arr.items ++ tail) i value; size = arr.size + 1 },
        rw
            (
              e,
              lt→ltb 0 n (omega arith),
              memmove_lem arr.items (i + 1) i n (omega arith) (omega arith),
            )
            (rw (write_lem (take (i + 1) arr.items ++ tail) i value (omega arith))),
        record {
          valid = record {
            fits = omega arith;
            allocated = omega (arith, length-set (take (i + 1) arr.items ++ tail) i value);
          };
          holds = rw add-one (
              ap (take (suc arr.size)) same
              ∙ take-inserted i arr.size arr.items (drop (i + 1 + n) arr.items) value (omega arith)
                  (omega arith)
              ∙ ap (insert_before i value) g.same_contents);
        },
      )

  insert_end :
      (m : Allocator A) (self arr : Array A) (value : A)
      → grow m self ≡ done arr
      → Grown self arr
      → (arr' : Array A) × (insert_at m self self.size value ≡ done arr')
        × Holds (insert_before self.size value (contents self)) arr'
  unfolding insert_at
  insert_end m self arr value e g = (
    record arr { items = set arr.items self.size value; size = arr.size + 1 },
    rw (e, le→ltb_false 0 (arr.size - self.size) (omega arith))
        (rw (write_lem arr.items self.size value (omega arith))),
    record {
      valid = record {
        fits = omega arith;
        allocated = omega (arith, length-set arr.items self.size value);
      };
      holds =
          ap₂ (λ a b. take a (set arr.items b value)) {x = arr.size + 1} {y = suc arr.size}
            (omega arith) (sym g.same_size)
          ∙ take-set_end arr.size arr.items value (omega arith)
          ∙ ap (λ t. t ++ value ∷ []) g.same_contents
          ∙ sym (
              insert_before-all self.size (contents self) value
                (omega (arith, length-take self.size self.items)));
    },
  )

  -- Inserting into a valid array, one that is not stuck at capacity 1, at an index that
  -- `chimp_array_insert` accepts puts the item before that index and keeps the array valid, or aborts
  -- because the array was full and memory ran out.
  pub insert_at_lem :
      (m : Allocator A) (self : Array A) (i : ℕ) (value : A)
      → IsValid self
      → ¬ (IsStuck self)
      → i ≤ self.size
      → ((arr' : Array A) × (insert_at m self i value ≡ done arr')
          × Holds (insert_before i value (contents self)) arr')
        ⊎ ((insert_at m self i value ≡ bug) × IsRefused m self)
  unfolding insert_at
  insert_at_lem m self i value v ns h = elim (grow_lem m self v ns) [
    | inl (arr, e, g) ↦ elim (Bool-cases (ltb i self.size)) [
      | inl lt ↦ inl (insert_inside m self arr i value e g (ltb→lt _ _ lt))
      | inr ge ↦
          let q : self.size ≡ i = ground arith in
          inl (
            subst
              (λ k.
                (arr' : Array A) × (insert_at m self k value ≡ done arr')
                × Holds (insert_before k value (contents self)) arr')
              q (insert_end m self arr value e g))
    ]
    | inr (e, r) ↦ inr (rw e, r)
  ]

  insert_index_lem : (self : Array A) (p : ℤ) → insert_index self p ≡ insert_position self.size p
  unfolding insert_index real_index
  insert_index_lem self (pos n) = ground arith
  insert_index_lem self (negsuc n) = refl

  -- `chimp_array_insert` on a valid array that is not stuck at capacity 1: with an index in range the
  -- item is put in before that index; it aborts for an index out of range, or where memory runs out.
  pub insert_lem :
      (m : Allocator A) (self : Array A) (p : ℤ) (value : A)
      → IsValid self
      → ¬ (IsStuck self)
      → ((i : ℕ) × (arr' : Array A) × (insert_position self.size p ≡ some i)
          × (insert m self p value ≡ done arr')
          × Holds (insert_before i value (contents self)) arr')
        ⊎ ((insert m self p value ≡ bug)
            × ((insert_position self.size p ≡ none) ⊎ IsRefused m self))
  unfolding insert
  insert_lem m self p value v ns = elim (Option-cases (insert_position self.size p)) [
    | inl q ↦ inr (rw (insert_index_lem self p ∙ q, insert), inl q)
    | inr (i, q) ↦
        let e : insert m self p value ≡ insert_at m self i value =
          rw (insert_index_lem self p ∙ q, insert) in
        elim (insert_at_lem m self i value v ns (insert_position-le self.size p i q)) [
          | inl (arr', r, holds) ↦ inl (i, arr', q, e ∙ r, holds)
          | inr (r, refused) ↦ inr (e ∙ r, inr refused)
        ]
  ]
