-- ===== src/Array/Methods/Loop.antt =====
-- A loop over a valid array is a loop over the list that it holds.
use chimp.Common.{
  ℕ, zero, suc, ◌+◌, ◌≤◌, ◌≡◌, ◌^◌, ◌<◌, refl, sym, ◌∙◌, some, le→ltb_false, lt→ltb, List, [], ◌∷◌,
  arith, drop, drop-get_elem?, drop-all,
}
use chimp.Common.Runs.{Run, done, ◌>>=◌, bind_congr, bind_congr_done, bind_assoc}
use chimp.Array.{Array, item}
use chimp.Array.Valid.{IsValid, contents, length-contents, item_lem}
use chimp.Array.Methods.{Next, go, stop, rounds, live_rounds, for_items}

module _ {A S R : Type 0} where
  abbrev pub over_list : (ℕ → A → S → Run (Next S R)) → List A → ℕ → S → Run (Next S R)
  over_list body [] i s = done (go s)
  over_list body (x ∷ xs) i s = body i x s >>= λ next. elim next [
    | go s' ↦ over_list body xs (suc i) s'
    | stop r ↦ done (stop r)
  ]

  module _ (nil : A) (self : Array A) (body : ℕ → A → S → Run (Next S R)) (v : IsValid self)
      (small : self.size ≤ 2 ^ 31) where
    rounds_lem :
        (k i : ℕ) (s : S)
        → i + k ≡ self.size
        → rounds nil self body k i s ≡ over_list body (drop i (contents self)) i s
    unfolding rounds
    rounds_lem zero i s e =
        let none_left : drop i (contents self) ≡ [] =
          drop-all i (contents self) (omega (arith, length-contents self v)) in
        rw none_left
    rounds_lem (suc k) i s e =
        let (x, read, at) = item_lem nil self i v small (omega arith) in
        rw (read, drop-get_elem? (contents self) i x at)
          (bind_congr (body i x s)
            (elim [ go s' ↦ rounds_lem k (suc i) s' (omega arith) | stop r ↦ refl ]))

    -- The rounds of the loop are those over the contents, from the first item on.
    pub for_items_lem : (s : S) → for_items nil self body s ≡ over_list body (contents self) 0 s
    unfolding for_items
    for_items_lem s = rounds_lem self.size 0 s (omega arith)

module _ {A S R : Type 0} (nil : A) (self : S → Array A) (body : ℕ → A → S → Run (Next S R)) where
  -- A loop whose rounds leave the array as it is has the rounds of the size it had at first, if enough
  -- rounds are granted.
  pub live_rounds_lem :
      (k fuel i : ℕ) (arr : Array A) (s : S)
      → ((i : ℕ) (x : A) (s s' : S) → body i x s ≡ done (go s') → self s' ≡ self s)
      → self s ≡ arr
      → i + k ≡ arr.size
      → k < fuel
      → live_rounds nil self body fuel i s ≡ (rounds nil arr body k i s >>= λ n. done (some n))
  unfolding live_rounds rounds
  live_rounds_lem k zero i arr s keeps is e h = absurd (omega arith)
  live_rounds_lem zero (suc fuel) i arr s keeps is e h =
      rw is (rw (le→ltb_false i arr.size (omega arith)) refl)
  live_rounds_lem (suc k) (suc fuel) i arr s keeps is e h = rw is (
      rw (lt→ltb i arr.size (omega arith)) (
        bind_congr_done (item nil arr i) _ _ (λ x _.
          bind_congr_done (body i x s) _ _ (elim [
            | go s' ↦ λ p.
                live_rounds_lem k fuel (suc i) arr s' keeps (keeps i x s s' p ∙ is) (omega arith)
                  (omega arith)
            | stop r ↦ λ _. refl
          ])
          ∙ sym (bind_assoc (body i x s) _ _))
        ∙ sym (bind_assoc (item nil arr i) _ _)))
