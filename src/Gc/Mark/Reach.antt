-- ===== src/Gc/Mark/Reach.antt =====
-- The references that a collection can reach: from roots, through the cells of the collector's own heap.
use chimp.Common.{
  ℕ, suc, ◌<◌, ◌≡◌, subst, sym, Bool, true, false, some, List, [], ◌∷◌, ◌++◌, inl, inr, ◌↔◌, arith,
  length, ◌==◌, if◌then◌else◌, Bool-cases,
}
use chimp.Common.Members.{In, In-append_left, In-append_right}
use chimp.Common.Runs.{done}
use chimp.Gc.{Gc}
use chimp.Gc.Heap.{cells}
use chimp.Gc.Mark.{Object, object, own, mark_all, mark_ref, mark_fuel, unmark}
use chimp.Gc.Mark.Visit.{children, unmarked, Grown, Grown-trans, mark_all_lem, mark_ref_lem}

pub data Reach (own : ℕ → Bool) (objects : ℕ → Object) (roots : List ℕ) : ℕ → Type 0 where
  root : (x : ℕ) → In x roots → Reach own objects roots x
  child :
      (x y : ℕ)
      → Reach own objects roots x
      → own x ≡ true
      → In y (children (objects x))
      → Reach own objects roots y

-- Each cell that is reached holds an object whose class can mark it.
abbrev pub Proper : (ℕ → Bool) → (ℕ → Object) → List ℕ → Type 0
Proper own objects roots =
    (x : ℕ)
    → Reach own objects roots x
    → own x ≡ true
    → (klass : ℕ) × (refs : List ℕ) × (objects x ≡ object klass refs)

pub unmark_lem :
    (live : List ℕ) (m : ℕ → Bool) (x : ℕ) → unmark live m x ≡ true → (m x ≡ true) × ¬ In x live
unmark_lem [] m x h = (h, λ i. i)
unmark_lem (r ∷ live) m x h =
    let (a, b) = unmark_lem live (λ y. if y == r then false else m y) x h in
    elim (Bool-cases (x == r)) [
      | inl e ↦ absurd (ground arith)
      | inr n ↦ (ground arith, λ i. elim i [ inl e ↦ absurd (ground arith) | inr j ↦ b j ])
    ]

unmarked-le_length : (m : ℕ → Bool) (cs : List ℕ) → unmarked m cs < suc (length cs)
unmarked-le_length m [] = omega arith
unmarked-le_length m (c ∷ cs) = elim (Bool-cases (m c)) [
  | inl t ↦ rw t (omega (arith, unmarked-le_length m cs))
  | inr f ↦ rw f (omega (arith, unmarked-le_length m cs))
]

module _ (width : ℕ) (width_pos : 0 < width) (objects : ℕ → Object) (gc : Gc) where
  -- What can be reached is closed under the children of a cell.
  closed :
      (roots : List ℕ)
      → Proper (own width gc) objects roots
      → (x : ℕ) → Reach (own width gc) objects roots x
      → own width gc x ≡ true
      → (klass : ℕ) × (refs : List ℕ) × (objects x ≡ object klass refs)
        × ((y : ℕ) → In y (klass ∷ refs) → Reach (own width gc) objects roots y)
  closed roots proper x p o =
      let (klass, refs, is) = proper x p o in
      (klass, refs, is, λ y c. child x y p o (subst (λ z. In y (children z)) (sym is) c))

  reached :
      (roots : List ℕ) (proper : Proper (own width gc) objects roots) (m m' : ℕ → Bool)
      → ((x : ℕ) → ¬ (m x ≡ true))
      → Grown width width_pos objects gc
          (Reach (own width gc) objects roots)
          (closed roots proper)
          m
          m'
          roots
      → (x : ℕ) → Reach (own width gc) objects roots x
      → own width gc x ≡ true
      → m' x ≡ true
  reached roots proper m m' none (keep, reach, sound) x (root y h) o = reach x h o
  reached roots proper m m' none (keep, reach, sound) x (child z y p oz c) o =
      elim (sound z (reached roots proper m m' none (keep, reach, sound) z p oz)) [
        | inl old ↦ absurd (none z old)
        | inr (_, _, kids) ↦ kids x c o
      ]

  -- From no marks, marking a first list of references and then a second one returns, with as much fuel as
  -- `mark_fuel` has, and marks exactly what can be reached from the two lists in the own heap.
  pub mark_all-Reach :
      (first second : List ℕ) (m : ℕ → Bool)
      → ((x : ℕ) → ¬ (m x ≡ true))
      → Proper (own width gc) objects (first ++ second)
      → (m1 : ℕ → Bool) × (m2 : ℕ → Bool) × (mark_all
            (mark_ref width objects gc (mark_fuel width gc))
            first
            m
          ≡ done (some m1))
        × (mark_all (mark_ref width objects gc (mark_fuel width gc)) second m1 ≡ done (some m2))
        × ((x : ℕ)
            → (m2 x ≡ true)
              ↔ (Reach (own width gc) objects (first ++ second) x × (own width gc x ≡ true)))
  mark_all-Reach first second m none proper =
      let enough : (m : ℕ → Bool)
          → unmarked m (cells width gc.slabs gc.slab_size) < mark_fuel width gc =
        λ m. unmarked-le_length m (cells width gc.slabs gc.slab_size) in
      let visit =
        mark_ref_lem width width_pos objects gc (Reach (own width gc) objects (first ++ second))
          (closed (first ++ second) proper) (mark_fuel width gc) in
      let (m1, ran, grown) =
        mark_all_lem width width_pos objects gc (Reach (own width gc) objects (first ++ second))
          (closed (first ++ second) proper) (mark_ref width objects gc (mark_fuel width gc))
          (mark_fuel width gc) visit first m (enough m)
          (λ x h. root x (In-append_left x first second h)) in
      let (m2, ran', grown') =
        mark_all_lem width width_pos objects gc (Reach (own width gc) objects (first ++ second))
          (closed (first ++ second) proper) (mark_ref width objects gc (mark_fuel width gc))
          (mark_fuel width gc) visit second m1 (enough m1)
          (λ x h. root x (In-append_right x first second h)) in
      let both =
        Grown-trans width width_pos objects gc (Reach (own width gc) objects (first ++ second))
          (closed (first ++ second) proper) first second grown grown' in
      (
        m1,
        m2,
        ran,
        ran',
        λ x. (
          λ h. elim (both.2 x h) [ inl old ↦ absurd (none x old) | inr (p, o, _) ↦ (p, o) ],
          λ (r, o). reached (first ++ second) proper m m2 none both x r o,
        ),
      )
