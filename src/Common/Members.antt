-- ===== src/Common/Members.antt =====
-- Membership in a list of numbers, as a type and as a test.
use chimp.Common.{
  ℕ, ◌≡◌, Bool, true, false, List, [], ◌∷◌, ◌++◌, ◌⊎◌, inl, inr, ◌==◌, if◌then◌else◌,
}

abbrev pub elem : ℕ → List ℕ → Bool
elem n [] = false
elem n (p ∷ ps) = if n == p then true else elem n ps

abbrev pub In : ℕ → List ℕ → Type 0
In y [] = ⊥
In y (x ∷ xs) = (y ≡ x) ⊎ In y xs

-- No number stands twice.
abbrev pub Distinct : List ℕ → Type 0
Distinct [] = Unit
Distinct (x ∷ xs) = ¬ In x xs × Distinct xs

pub In-append_left : (y : ℕ) (xs ys : List ℕ) → In y xs → In y (xs ++ ys)
In-append_left y [] ys h = absurd h
In-append_left y (x ∷ xs) ys (inl e) = inl e
In-append_left y (x ∷ xs) ys (inr h) = inr (In-append_left y xs ys h)

pub In-append_right : (y : ℕ) (xs ys : List ℕ) → In y ys → In y (xs ++ ys)
In-append_right y [] ys h = h
In-append_right y (x ∷ xs) ys h = inr (In-append_right y xs ys h)

pub In-append : (y : ℕ) (xs ys : List ℕ) → In y (xs ++ ys) → In y xs ⊎ In y ys
In-append y [] ys h = inr h
In-append y (x ∷ xs) ys (inl e) = inl (inl e)
In-append y (x ∷ xs) ys (inr h) = elim (In-append y xs ys h) [ inl a ↦ inl (inr a) | inr b ↦ inr b ]
