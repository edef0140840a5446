-- ===== src/Gc/Mark/Visit.antt =====
-- What a mark adds to the marks: the reference, and what is reached from it.
use chimp.Common.{
  ℕ, zero, suc, ◌≤◌, ◌<◌, ◌≡◌, refl, sym, subst, ap, ◌∙◌, Bool, true, false, Option, some, List, [],
  ◌∷◌, ◌++◌, ◌⊎◌, inl, inr, arith, ◌==◌, ==_iff, if◌then◌else◌, Bool-cases,
}
use chimp.Common.Members.{In, In-append}
use chimp.Common.Runs.{Run, done}
use chimp.Gc.{Gc}
use chimp.Gc.Heap.{heap_contains, cells, heap_contains_lem}
use chimp.Gc.Mark.{Object, object, no_mark, no_class, garbage, mark_cell, mark_all, own, mark_ref}

-- The references in a cell
abbrev pub children : Object → List ℕ
children (object klass refs) = klass ∷ refs
children (no_mark klass) = klass ∷ []
children no_class = []
children garbage = []

-- How many of the cells have no mark
abbrev pub unmarked : (ℕ → Bool) → List ℕ → ℕ
unmarked m [] = 0
unmarked m (c ∷ cs) = if m c then unmarked m cs else suc (unmarked m cs)

abbrev pub Extends : (ℕ → Bool) → (ℕ → Bool) → Type 0
Extends m m' = (x : ℕ) → m x ≡ true → m' x ≡ true

unmarked_head :
    (m : ℕ → Bool) (c : ℕ) (cs : List ℕ) {b : Bool}
    → m c ≡ b
    → unmarked m (c ∷ cs) ≡ (if b then unmarked m cs else suc (unmarked m cs))
unmarked_head m c cs e = ap (λ b. if b then unmarked m cs else suc (unmarked m cs)) e

unmarked-le : (m m' : ℕ → Bool) (cs : List ℕ) → Extends m m' → unmarked m' cs ≤ unmarked m cs
unmarked-le m m' [] e = omega arith
unmarked-le m m' (c ∷ cs) e = elim (Bool-cases (m c)) [
  | inl t ↦ rw t (rw (e c t) (unmarked-le m m' cs e))
  | inr f ↦ rw f (elim (Bool-cases (m' c)) [
    | inl t ↦ rw t (omega (arith, unmarked-le m m' cs e))
    | inr f' ↦ rw f' (omega (arith, unmarked-le m m' cs e))
  ])
]

mark_cell_self : (m : ℕ → Bool) (r : ℕ) → mark_cell m r r ≡ true
mark_cell_self m r = ground arith

mark_cell-Extends : (m : ℕ → Bool) (r : ℕ) → Extends m (mark_cell m r)
mark_cell-Extends m r x h = ground arith

mark_cell_inv : (m : ℕ → Bool) (r x : ℕ) → mark_cell m r x ≡ true → (x ≡ r) ⊎ (m x ≡ true)
mark_cell_inv m r x h = ground arith

unmarked-lt :
    (m : ℕ → Bool) (r : ℕ) (cs : List ℕ)
    → In r cs
    → m r ≡ false
    → unmarked (mark_cell m r) cs < unmarked m cs
unmarked-lt m r [] h f = absurd h
unmarked-lt m r (c ∷ cs) h f = elim (Bool-cases (r == c)) [
  | inl e ↦
      let at : c ≡ r = sym ((==_iff r c).0 e) in
      rw at (
        omega (
          arith,
          unmarked_head m r cs f,
          unmarked_head (mark_cell m r) r cs (mark_cell_self m r),
          unmarked-le m (mark_cell m r) cs (mark_cell-Extends m r),
        ))
  | inr n ↦ elim h [
    | inl e ↦ absurd (ground arith)
    | inr h' ↦
        let rest = unmarked-lt m r cs h' f in
        let same : mark_cell m r c ≡ m c = ground arith in
        rw same
          (elim (Bool-cases (m c)) [ inl t ↦ rw t rest | inr f' ↦ rw f' (omega (arith, rest)) ])
  ]
]

module _ (width : ℕ) (width_pos : 0 < width) (objects : ℕ → Object) (gc : Gc) (P : ℕ → Type 0)
    (proper : (x : ℕ)
      → P x
      → own width gc x ≡ true
      → (klass : ℕ) × (refs : List ℕ) × (objects x ≡ object klass refs)
        × ((y : ℕ) → In y (klass ∷ refs) → P y)) where
  -- The marks `m'` are `m`, with `rs` and with references of `P` whose children are marked too.
  abbrev pub Grown : (ℕ → Bool) → (ℕ → Bool) → List ℕ → Type 0
  Grown m m' rs =
      Extends m m'
      × ((x : ℕ) → In x rs → own width gc x ≡ true → m' x ≡ true)
      × ((x : ℕ)
          → m' x ≡ true
          → (m x ≡ true)
            ⊎ (P x
                × (own width gc x ≡ true)
                × ((y : ℕ) → In y (children (objects x)) → own width gc y ≡ true → m' y ≡ true)))

  abbrev pub Visits : (ℕ → Bool) → List ℕ → Run (Option (ℕ → Bool)) → Type 0
  Visits m rs run = (m' : ℕ → Bool) × (run ≡ done (some m')) × Grown m m' rs

  pub Grown-trans :
      (rs rs' : List ℕ) {m m1 m2 : ℕ → Bool}
      → Grown m m1 rs
      → Grown m1 m2 rs'
      → Grown m m2 (rs ++ rs')
  Grown-trans rs rs' (keep, reach, sound) (keep', reach', sound') = (
    λ x h. keep' x (keep x h),
    λ x h o. elim (In-append x rs rs' h) [ inl a ↦ keep' x (reach x a o) | inr b ↦ reach' x b o ],
    λ x h. elim (sound' x h) [
      | inr new ↦ inr new
      | inl old ↦ elim (sound x old) [
        | inl older ↦ inl older
        | inr (p, o, kids) ↦ inr (p, o, λ y c oy. keep' y (kids y c oy))
      ]
    ],
  )

  own-In : (r : ℕ) → own width gc r ≡ true → In r (cells width gc.slabs gc.slab_size)
  own-In r h =
      let inside : heap_contains width gc.slabs gc.slab_size r ≡ true = ground arith in
      (heap_contains_lem width gc.slabs gc.slab_size r width_pos).0 inside

  pub mark_all_lem :
      (mark : ℕ → (ℕ → Bool) → Run (Option (ℕ → Bool))) (fuel : ℕ)
      → ((r : ℕ) (m : ℕ → Bool)
          → unmarked m (cells width gc.slabs gc.slab_size) < fuel
          → P r
          → Visits m (r ∷ []) (mark r m))
      → (rs : List ℕ) (m : ℕ → Bool) → unmarked m (cells width gc.slabs gc.slab_size) < fuel
      → ((x : ℕ) → In x rs → P x)
      → Visits m rs (mark_all mark rs m)
  unfolding mark_all
  mark_all_lem mark fuel one [] m enough all = (m, refl, (λ x h. h, λ x h. absurd h, λ x h. inl h))
  mark_all_lem mark fuel one (r ∷ rs) m enough all =
      let (m1, ran, grown) = one r m enough (all r (inl refl)) in
      let less = unmarked-le m m1 (cells width gc.slabs gc.slab_size) grown.0 in
      let (m2, ran', grown') =
        mark_all_lem mark fuel one rs m1 (omega arith) (λ x h. all x (inr h)) in
      (m2, rw ran ran', Grown-trans (r ∷ []) rs grown grown')

  foreign :
      (m : ℕ → Bool) (r x : ℕ)
      → own width gc r ≡ false
      → In x (r ∷ [])
      → own width gc x ≡ true
      → m x ≡ true
  foreign m r x f (inl e) o = absurd (cc)
  foreign m r x f (inr h) o = absurd h

  pub mark_ref_lem :
      (fuel r : ℕ) (m : ℕ → Bool)
      → unmarked m (cells width gc.slabs gc.slab_size) < fuel
      → P r
      → Visits m (r ∷ []) (mark_ref width objects gc fuel r m)
  unfolding mark_ref
  mark_ref_lem zero r m enough p = absurd (omega arith)
  mark_ref_lem (suc fuel) r m enough p = elim (Bool-cases (own width gc r)) [
    | inr f ↦ (m, rw f refl, (λ x h. h, λ x h o. foreign m r x f h o, λ x h. inl h))
    | inl t ↦ elim (Bool-cases (m r)) [
      | inl seen ↦ (
        m,
        rw t (rw seen refl),
        (λ x h. h, λ x h o. elim h [ inl e ↦ ap m e ∙ seen | inr h' ↦ absurd h' ], λ x h. inl h),
      )
      | inr new ↦
          let (klass, refs, is, closed) = proper r p t in
          let less = unmarked-lt m r (cells width gc.slabs gc.slab_size) (own-In r t) new in
          let (m', ran, (keep, reach, sound)) =
            mark_all_lem (mark_ref width objects gc fuel) fuel (mark_ref_lem fuel) (klass ∷ refs)
              (mark_cell m r) (omega arith) closed in
          (
            m',
            rw t (rw new (rw is ran)),
            (
              λ x h. keep x (mark_cell-Extends m r x h),
              λ x h o. elim h [
                | inl e ↦ keep x (subst (λ y. mark_cell m r y ≡ true) (sym e) (mark_cell_self m r))
                | inr h' ↦ absurd h'
              ],
              λ x h. elim (sound x h) [
                | inr kids ↦ inr kids
                | inl old ↦ elim (mark_cell_inv m r x old) [
                  | inr older ↦ inl older
                  | inl e ↦ inr (
                    subst P (sym e) p,
                    subst (λ y. own width gc y ≡ true) (sym e) t,
                    λ y c oy.
                        reach y (subst (In y) (ap (λ z. children (objects z)) e ∙ ap children is) c)
                          oy,
                  )
                ]
              ],
            ),
          )
    ]
  ]
