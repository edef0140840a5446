-- ===== src/Object/Chain.antt =====
-- The walk up the superclasses against the list of the classes that it visits.
use chimp.Common.{
  ℕ, zero, suc, ◌<◌, ◌≡◌, refl, ap, ◌∙◌, true, false, Option, none, some, List, [], ◌∷◌, arith,
  length, ◌==◌, ==_iff, Bool-cases, inl, inr,
}
use chimp.Common.Members.{elem}
use chimp.Object.{Class, Classes, Walk, found, no_slot, walk, is_subclass, object_instance_of}

module _ {S : Type 0} (classes : Classes S) where
  -- The chain of classes from `k` up to NULL
  abbrev pub Ancestors : List ℕ → ℕ → Type 0
  Ancestors [] k = k ≡ 0
  Ancestors (c ∷ cs) k = (k ≡ c) × (0 < c) × Ancestors cs (classes.class c).super

  -- The first of some classes that has a slot
  abbrev pub first : {A : Type 0} → (Class S → Option A) → List ℕ → Option A
  first slot [] = none
  first slot (c ∷ cs) = elim (slot (classes.class c)) [ some f ↦ some f | none ↦ first slot cs ]

  abbrev pub walked : {A : Type 0} → Option A → Walk A
  walked none = no_slot
  walked (some f) = found f

  pub walk_lem :
      {A : Type 0} (slot : Class S → Option A) (cs : List ℕ) (k fuel : ℕ)
      → Ancestors cs k
      → length cs < fuel
      → walk classes slot fuel k ≡ walked (first slot cs)
  unfolding walk
  walk_lem {A = A} slot cs k zero a enough = absurd (omega arith)
  walk_lem {A = A} slot [] k (suc fuel) a enough =
      let top : (k == 0) ≡ true = (==_iff k 0).1 a in rw top refl
  walk_lem {A = A} slot (c ∷ cs) k (suc fuel) (e, set, a) enough =
      let below : (c == 0) ≡ false = ground arith in
      let rest = walk_lem slot cs (classes.class c).super fuel a (omega arith) in
      ap (walk classes slot (suc fuel)) e ∙ rw below (at (slot (classes.class c)) rest)
    where
      at :
          (o : Option A)
          → walk classes slot fuel (classes.class c).super ≡ walked (first slot cs)
          → (elim o as (λ x. Walk A) [
            | some f ↦ found f
            | none ↦ walk classes slot fuel (classes.class c).super
          ])
            ≡ walked (elim o as (λ x. Option A) [ some f ↦ some f | none ↦ first slot cs ])
      at none h = h
      at (some f) h = refl

  is_subclass_lem :
      (cs : List ℕ) (k klass fuel : ℕ)
      → Ancestors cs k
      → length cs < fuel
      → is_subclass classes fuel k klass ≡ some (elem klass cs)
  unfolding is_subclass
  is_subclass_lem cs k klass zero a enough = absurd (omega arith)
  is_subclass_lem [] k klass (suc fuel) a enough =
      let top : (k == 0) ≡ true = (==_iff k 0).1 a in rw top refl
  is_subclass_lem (c ∷ cs) k klass (suc fuel) (e, set, a) enough =
      let below : (c == 0) ≡ false = ground arith in
      let rest = is_subclass_lem cs (classes.class c).super klass fuel a (omega arith) in
      ap (λ k. is_subclass classes (suc fuel) k klass) e
      ∙ rw below (elim (Bool-cases (c == klass)) [
        | inl t ↦ let t' : (klass == c) ≡ true = ground arith in rw t (rw t' refl)
        | inr f ↦ let f' : (klass == c) ≡ false = ground arith in rw f (rw f' rest)
      ])

  -- `chimp_object_instance_of` returns for every object whose chain of superclasses ends, and is true
  -- exactly for the classes in that chain.
  pub object_instance_of_lem :
      (cs : List ℕ) (object klass fuel : ℕ)
      → Ancestors cs (classes.class_of object)
      → length cs < fuel
      → object_instance_of classes fuel object klass ≡ some (elem klass cs)
  unfolding object_instance_of
  object_instance_of_lem cs object klass fuel a enough =
      is_subclass_lem cs (classes.class_of object) klass fuel a enough
