-- ===== src/Gc/Picked.antt =====
-- libchimp/gc.c: membership and order in the two chains of a sweep.
use chimp.Common.{
  ℕ, ◌+◌, length, ap, arith, ◌≡◌, refl, sym, subst, Bool, true, List, [], ◌∷◌, ◌⊎◌, inl, inr,
  if◌then◌else◌, Bool-cases,
}
use chimp.Common.Members.{In, Distinct}
use chimp.Gc.{Gc, sweep}
use chimp.Gc.Sweep.{picked, survives, dies, sweep_lem, picked-length}

pub In-picked :
    (test : ℕ → Bool) (x : ℕ) (rs ys : List ℕ)
    → In x (picked test rs ys)
    → (In x rs × (test x ≡ true)) ⊎ In x ys
In-picked test x [] ys h = inr h
In-picked test x (r ∷ rs) ys h = elim (Bool-cases (test r)) [
  | inl t ↦ elim (In-picked test x rs (r ∷ ys) (subst (In x) (rw t refl) h)) [
    | inl (a, b) ↦ inl (inr a, b)
    | inr (inl e) ↦ inl (inl e, subst (λ y. test y ≡ true) (sym e) t)
    | inr (inr c) ↦ inr c
  ]
  | inr f ↦ elim (In-picked test x rs ys (subst (In x) (rw f refl) h)) [
    | inl (a, b) ↦ inl (inr a, b)
    | inr c ↦ inr c
  ]
]

pub picked_others : (test : ℕ → Bool) (x : ℕ) (rs ys : List ℕ) → In x ys → In x (picked test rs ys)
picked_others test x [] ys h = h
picked_others test x (r ∷ rs) ys h = elim (Bool-cases (test r)) [
  | inl t ↦ rw t (picked_others test x rs (r ∷ ys) (inr h))
  | inr f ↦ rw f (picked_others test x rs ys h)
]

pub picked_member :
    (test : ℕ → Bool) (x : ℕ) (rs ys : List ℕ) → In x rs → test x ≡ true → In x (picked test rs ys)
picked_member test x [] ys h t = absurd h
picked_member test x (r ∷ rs) ys (inl e) t =
    let t' : test r ≡ true = subst (λ y. test y ≡ true) e t in
    rw t' (picked_others test x rs (r ∷ ys) (inl e))
picked_member test x (r ∷ rs) ys (inr h) t =
    picked_member test x rs (if test r then r ∷ ys else ys) h t

pub picked-Distinct :
    (test : ℕ → Bool) (rs ys : List ℕ)
    → Distinct rs
    → Distinct ys
    → ((x : ℕ) → In x rs → ¬ In x ys)
    → Distinct (picked test rs ys)
picked-Distinct test [] ys d e apart = e
picked-Distinct test (r ∷ rs) ys (out, d) e apart = elim (Bool-cases (test r)) [
  | inl t ↦ rw t (
      picked-Distinct test rs (r ∷ ys) d (apart r (inl refl), e)
        (λ x h i. elim i [
          | inl same ↦ out (subst (λ y. In y rs) same h)
          | inr j ↦ apart x (inr h) j
        ]))
  | inr f ↦ rw f (picked-Distinct test rs ys d e (λ x h. apart x (inr h)))
]

In-picked_nil : (test : ℕ → Bool) (x : ℕ) (rs : List ℕ) → In x (picked test rs []) → In x rs
In-picked_nil test x rs h = elim (In-picked test x rs [] h) [ inl (a, b) ↦ a | inr n ↦ absurd n ]

-- Where the heap has every reference of the live chain, a cell that is on the free chain and not on the
-- live chain is on neither of the two chains that a sweep leaves, and these have together as many cells
-- as the live chain had.
pub sweep_loses_free :
    (contains : ℕ → Bool) (gc : Gc) (ref : ℕ)
    → ((r : ℕ) → In r gc.live → contains r ≡ true)
    → In ref gc.free
    → ¬ In ref gc.live
    → ¬ In ref (sweep contains gc).1.live
      × ¬ In ref (sweep contains gc).1.free
      × (length (sweep contains gc).1.live + length (sweep contains gc).1.free ≡ length gc.live)
sweep_loses_free contains gc ref own was_free not_live =
    let (a, b, _, _) = sweep_lem contains gc in
    (
      λ h. not_live (In-picked_nil (survives contains gc.marked) ref gc.live (subst (In ref) a h)),
      λ h. not_live (In-picked_nil (dies contains gc.marked) ref gc.live (subst (In ref) b h)),
      omega (arith, ap length a, ap length b, picked-length contains gc.marked gc.live [] [] own),
    )
