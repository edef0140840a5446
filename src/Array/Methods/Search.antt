-- ===== src/Array/Methods/Search.antt =====
-- The methods that look for an item, and the comparison of two arrays.
use chimp.Common.{
  ℕ, zero, suc, ◌+◌, ◌≤◌, ◌<◌, ◌≡◌, ◌≢◌, ◌^◌, refl, sym, ◌∙◌, ap, subst, ==_iff, ◌==◌,
  if◌then◌else◌, Bool-cases, drop-get_elem?, true, false, Option, some, none, List, [], ◌∷◌, arith,
  length, drop, inl, inr, ◌⊎◌,
}
use chimp.Common.Runs.{Run, done}
use chimp.Compare.{CmpResult, cmp_error, not_impl, lt, eq, gt}
use chimp.Array.{Array}
use chimp.Array.Valid.{IsValid, contents, length-contents, item_lem}
use chimp.Array.Ends.{Holds}
use chimp.Array.Take.{erase_at, remove_at_internal_lem}
use chimp.Array.Methods.{
  Next, go, stop, for_items, after, find_step, on_cmp, on_pair, cmp_step, cmp_arrays, find,
  contains, remove,
}
use chimp.Array.Methods.Loop.{over_list, for_items_lem}

-- A comparison that a search goes past.
abbrev pub Passes : CmpResult → Type 0
Passes r = (r ≢ eq) × (r ≢ cmp_error)

CmpResult-cases : (r : CmpResult) → (r ≡ eq) ⊎ ((r ≡ cmp_error) ⊎ Passes r)
CmpResult-cases cmp_error = inr (inl refl)
CmpResult-cases eq = inl refl
CmpResult-cases not_impl = inr (inr (cc, cc))
CmpResult-cases lt = inr (inr (cc, cc))
CmpResult-cases gt = inr (inr (cc, cc))

module _ {A : Type 0} (cmp : A → A → CmpResult) (value : A) where
  -- The item at index `i` compares as `r`, and the search goes past all those before it.
  abbrev pub FirstAt : CmpResult → List A → ℕ → Type 0
  FirstAt r [] i = ⊥
  FirstAt r (x ∷ xs) zero = cmp x value ≡ r
  FirstAt r (x ∷ xs) (suc i) = Passes (cmp x value) × FirstAt r xs i

  abbrev pub AllPass : List A → Type 0
  AllPass [] = Unit
  AllPass (x ∷ xs) = Passes (cmp x value) × AllPass xs

  pub FirstAt-lt : (r : CmpResult) (xs : List A) (i : ℕ) → FirstAt r xs i → i < length xs
  FirstAt-lt r [] i h = absurd h
  FirstAt-lt r (x ∷ xs) zero h = omega arith
  FirstAt-lt r (x ∷ xs) (suc i) h = omega (arith, FirstAt-lt r xs i h.1)

module _ {A : Type 0} (nil : A) (cmp : A → A → CmpResult) (value : A) where
  -- How the search loop over `xs` ends, when the first of them has index `i`.
  abbrev Ends : ℕ → List A → Run (Next (Unit {0}) (Option ℕ)) → Type 0
  Ends i xs run =
      ((j : ℕ) × (run ≡ done (stop (some (i + j)))) × FirstAt cmp value eq xs j)
      ⊎ (((j : ℕ) × (run ≡ done (stop none)) × FirstAt cmp value cmp_error xs j)
          ⊎ ((run ≡ done (go tt)) × AllPass cmp value xs))

  on_cmp-Passes : (i : ℕ) (r : CmpResult) → Passes r → on_cmp i r ≡ go tt
  on_cmp-Passes i cmp_error p = absurd (p.1 refl)
  on_cmp-Passes i eq p = absurd (p.0 refl)
  on_cmp-Passes i not_impl p = refl
  on_cmp-Passes i lt p = refl
  on_cmp-Passes i gt p = refl

  search-Ends :
      (self : Array A) (xs : List A) (i : ℕ)
      → Ends i xs (over_list (find_step nil cmp self value) xs i tt)
  unfolding find_step
  search-Ends self [] i = inr (inr (refl, tt))
  search-Ends self (x ∷ xs) i = elim (CmpResult-cases (cmp x value)) [
    | inl e ↦ inl (0, rw (e, on_cmp) (ap (λ k. done (stop (some k))) (omega arith)), e)
    | inr (inl e) ↦ inr (inl (0, rw (e, on_cmp), e))
    | inr (inr p) ↦
        let step = on_cmp-Passes i (cmp x value) p in
        elim (search-Ends self xs (suc i)) [
          | inl (j, e, first) ↦ inl (
            suc j,
            rw step e
                ∙ ap (λ k. done (stop (some k))) {x = suc i + j} {y = i + suc j} (omega arith),
            (p, first),
          )
          | inr (inl (j, e, first)) ↦ inr (inl (suc j, rw step e, (p, first)))
          | inr (inr (e, all)) ↦ inr (inr (rw step e, (p, all)))
        ]
  ]

  module _ (self : Array A) (v : IsValid self) (small : self.size ≤ 2 ^ 31) where
    search : Ends 0 (contents self) (for_items nil self (find_step nil cmp self value) tt)
    search =
        subst (Ends 0 (contents self))
          (sym (for_items_lem nil self (find_step nil cmp self value) v small tt))
          (search-Ends self (contents self) 0)

    -- `chimp_array_find` on a valid array returns the index of the first item that compares equal, and
    -- -1 exactly where a comparison fails before one does or where none does.
    pub find_lem :
        ((i : ℕ) × (find nil cmp self value ≡ done (some i))
          × FirstAt cmp value eq (contents self) i)
        ⊎ ((find nil cmp self value ≡ done none)
            × (((i : ℕ) × FirstAt cmp value cmp_error (contents self) i)
                ⊎ AllPass cmp value (contents self)))
    unfolding find
    find_lem = elim search [
      | inl (i, e, first) ↦ inl (i, rw e (ap (λ k. done (some k)) (omega arith)), first)
      | inr (inl (i, e, first)) ↦ inr (rw e, inl (i, first))
      | inr (inr (e, all)) ↦ inr (rw e, inr all)
    ]

    -- `_chimp_array_contains` on a valid array is true exactly where an item compares equal before any
    -- comparison fails, NULL where one fails first, and false where every item is gone past.
    pub contains_lem :
        ((contains nil cmp self value ≡ done (some true))
          × ((i : ℕ) × FirstAt cmp value eq (contents self) i))
        ⊎ (((contains nil cmp self value ≡ done none)
              × ((i : ℕ) × FirstAt cmp value cmp_error (contents self) i))
            ⊎ ((contains nil cmp self value ≡ done (some false))
                × AllPass cmp value (contents self)))
    unfolding contains
    contains_lem = elim search [
      | inl (i, e, first) ↦ inl (rw e, (i, first))
      | inr (inl (i, e, first)) ↦ inr (inl (rw e, (i, first)))
      | inr (inr (e, all)) ↦ inr (inr (rw e, all))
    ]

    -- `_chimp_array_remove` on a valid array removes the first item that compares equal, and only that
    -- one, and leaves a valid array; with no such item, or with a failing comparison before it, the
    -- array is unchanged.
    pub remove_lem :
        ((i : ℕ) × (arr' : Array A) × FirstAt cmp value eq (contents self) i
          × (remove nil cmp self value ≡ done (some true, arr'))
          × Holds (erase_at i (contents self)) arr')
        ⊎ (((remove nil cmp self value ≡ done (none, self))
              × ((i : ℕ) × FirstAt cmp value cmp_error (contents self) i))
            ⊎ ((remove nil cmp self value ≡ done (some false, self))
                × AllPass cmp value (contents self)))
    unfolding remove
    remove_lem = elim search [
      | inl (i, e, first) ↦
          let lt : i < self.size =
            omega
              (arith, FirstAt-lt cmp value eq (contents self) i first, length-contents self v) in
          let (arr', r, holds) = remove_at_internal_lem self i v lt in
          let e' : for_items nil self (find_step nil cmp self value) tt ≡ done (stop (some i)) =
            e ∙ ap (λ k. done (stop (some k))) {x = 0 + i} {y = i} (omega arith) in
          inl (i, arr', first, rw (e', r), holds)
      | inr (inl (i, e, first)) ↦ inr (inl (rw e, (i, first)))
      | inr (inr (e, all)) ↦ inr (inr (rw e, all))
    ]

-- The comparison of two lists of the same length: the first result that is not `eq`.
abbrev pub cmp_lists : {A : Type 0} → (A → A → CmpResult) → List A → List A → CmpResult
cmp_lists cmp [] ys = eq
cmp_lists cmp (x ∷ xs) [] = not_impl
cmp_lists cmp (x ∷ xs) (y ∷ ys) = elim (on_pair (cmp x y)) [
  | go _ ↦ cmp_lists cmp xs ys
  | stop r ↦ r
]

module _ {A : Type 0} (nil : A) (cmp : A → A → CmpResult) (left right : Array A) (v : IsValid left)
    (w : IsValid right) (small : left.size ≤ 2 ^ 31) (same : left.size ≡ right.size) where
  cmp_rounds :
      (xs : List A) (i : ℕ)
      → i + length xs ≡ left.size
      → after (over_list (cmp_step nil cmp left right) xs i tt) (λ r. r) (λ _. eq)
        ≡ done (cmp_lists cmp xs (drop i (contents right)))
  unfolding cmp_step
  cmp_rounds [] i e = refl
  cmp_rounds (x ∷ xs) i e =
      let (y, read, at) = item_lem nil right i w (omega arith) (omega arith) in
      rw (read, drop-get_elem? (contents right) i y at)
        (elim (on_pair (cmp x y))
          as (λ next.
            after
              (elim next [
                | go s ↦ over_list (cmp_step nil cmp left right) xs (suc i) s
                | stop r ↦ done (stop r)
              ])
              (λ r. r) (λ _. eq)
            ≡ done (elim next [
              | go _ ↦ cmp_lists cmp xs (drop (suc i) (contents right))
              | stop r ↦ r
            ])) [ go s ↦ cmp_rounds xs (suc i) (omega arith) | stop r ↦ refl ])

  cmp_same_size :
      cmp_arrays nil cmp left right ≡ done (cmp_lists cmp (contents left) (contents right))
  unfolding cmp_arrays
  cmp_same_size = rw ((==_iff left.size right.size).1 same) (
      rw (for_items_lem nil left (cmp_step nil cmp left right) v small tt)
        (cmp_rounds (contents left) 0 (omega (arith, length-contents left v))))

-- `_chimp_array_cmp` of two valid arrays: NOT_IMPL for different sizes, and for the same size the
-- first comparison of two items that is not EQ, or EQ if there is none.
pub cmp_arrays_lem :
    {A : Type 0} (nil : A) (cmp : A → A → CmpResult) (left right : Array A)
    → IsValid left
    → IsValid right
    → left.size ≤ 2 ^ 31
    → cmp_arrays nil cmp left right
      ≡ done (
          if left.size == right.size
          then cmp_lists cmp (contents left) (contents right)
          else not_impl)
unfolding cmp_arrays
cmp_arrays_lem nil cmp left right v w small = elim (Bool-cases (left.size == right.size)) [
  | inl e ↦ cmp_same_size nil cmp left right v w small ((==_iff _ _).0 e) ∙ rw e
  | inr e ↦ rw e
]
