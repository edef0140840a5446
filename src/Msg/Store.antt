-- ===== src/Msg/Store.antt =====
-- Reading back what was written in a block, and reading what later writes leave alone.
use chimp.Common.{
  ℕ, zero, suc, ◌+◌, ◌≤◌, ◌≡◌, refl, sym, ap, ◌∙◌, List, [], ◌∷◌, ◌++◌, arith, length, take, drop,
  leb, le→leb, take-drop, take-take, take_at_length, length-take, length-drop, if◌then◌else◌,
  length-append,
}
use chimp.Common.Runs.{done, fault, ◌>>=◌}
use chimp.Msg.{
  Value, value_nil, value_other, value_int, value_str, value_array, value_module, value_method,
  value_task, Values, values_end, values_cons, count, Cell, cell_int, cell_str, cell_array,
  cell_module, cell_method, cell_task, Byte,
}
use chimp.Msg.Unpack.{load, all_rest, type_of, is_nil, read_cell, chars_of}
use chimp.Msg.Layout.{used, used_all, HasCell, IsLaid, AreLaid}

-- The block after `memcpy`.
abbrev pub written : List Byte → ℕ → List Byte → List Byte
written b at bs = take at b ++ (bs ++ drop (at + length bs) b)

drop_past : (xs ys : List Byte) (n i : ℕ) → n ≡ length xs + i → drop n (xs ++ ys) ≡ drop i ys
drop_past [] ys n i e = ap (λ k. drop k ys) {x = n} {y = i} (omega arith)
drop_past (x ∷ xs) ys zero i e = absurd (omega arith)
drop_past (x ∷ xs) ys (suc n) i e = drop_past xs ys n i (omega arith)

take_part :
    (i k : ℕ) (bs d : List Byte)
    → i + k ≤ length bs
    → take k (drop i (bs ++ d)) ≡ take k (drop i bs)
take_part zero zero bs d h = refl
take_part zero (suc k) [] d h = absurd (omega arith)
take_part zero (suc k) (b ∷ bs) d h = ap (λ t. b ∷ t) (take_part zero k bs d (omega arith))
take_part (suc i) zero bs d h = refl
take_part (suc i) (suc k) [] d h = absurd (omega arith)
take_part (suc i) (suc k) (b ∷ bs) d h = take_part i (suc k) bs d (omega arith)

module _ (b : List Byte) (at : ℕ) (bs : List Byte) (h : at + length bs ≤ length b) where
  length-front : length (take at b) ≡ at
  length-front = omega (arith, length-take at b)

  pub length-written : length (written b at bs) ≡ length b
  length-written = omega (
    arith,
    length-front,
    length-append (take at b) (bs ++ drop (at + length bs) b),
    length-append bs (drop (at + length bs) b),
    length-drop (at + length bs) b,
  )

  pub take-written : take at (written b at bs) ≡ take at b
  take-written = take_at_length (take at b) (bs ++ drop (at + length bs) b) at length-front

  pub load-written :
      (n i k : ℕ)
      → n ≡ at + i
      → i + k ≤ length bs
      → load (written b at bs) n k ≡ done (take k (drop i bs))
  unfolding load
  load-written n i k e le =
      rw (le→leb (n + k) (length (written b at bs)) (omega (arith, length-written))) (
        ap done (
          ap (take k) (
            drop_past (take at b) (bs ++ drop (at + length bs) b) n i (omega (arith, length-front)))
          ∙ take_part i k bs (drop (at + length bs) b) le))

module _ (b b' : List Byte) (n : ℕ) (same : take n b ≡ take n b') (len : length b ≡ length b') where
  load_stable : (at k : ℕ) → at + k ≤ n → load b at k ≡ load b' at k
  unfolding load
  load_stable at k le =
      let part : take k (drop at b) ≡ take k (drop at b') =
        take-drop k at b
        ∙ ap (drop at)
            (sym (take-take (at + k) n b le) ∙ ap (take (at + k)) same ∙ take-take (at + k) n b' le)
        ∙ sym (take-drop k at b') in
      λ j. if leb (at + k) (len j) then done (part j) else fault

  pub HasCell-stable : (at : ℕ) (c : Cell) → at + 24 ≤ n → HasCell b at c → HasCell b' at c
  unfolding read_cell
  HasCell-stable at c le e =
      let kind = sym (load_stable at 4 (omega arith)) in
      let payload = sym (load_stable (at + 4) 20 (omega arith)) in
      (λ j. kind j >>= type_of >>= λ c.
      if is_nil c then done c else (payload j >>= all_rest >>= λ _. done c))
      ∙ e

  mutual
    pub IsLaid-stable : (v : Value) (at : ℕ) → at + used v ≤ n → IsLaid v b at → IsLaid v b' at
    IsLaid-stable value_nil at le l = absurd l
    IsLaid-stable value_other at le l = absurd l
    IsLaid-stable (value_int i) at le l = HasCell-stable at (cell_int i) le l
    IsLaid-stable (value_str s) at le (c, l) = (
      HasCell-stable at (cell_str (at + 24) (length s)) (omega arith) c,
      ap (λ r. r >>= chars_of) (sym (load_stable (at + 24) (length s) (omega arith))) ∙ l,
    )
    IsLaid-stable (value_array vs) at le (c, l) = (
      HasCell-stable at (cell_array (at + 24) (count vs)) (omega arith) c,
      AreLaid-stable vs (at + 24) (omega arith) l,
    )
    IsLaid-stable (value_module r) at le l = HasCell-stable at (cell_module r) le l
    IsLaid-stable (value_method closure r) at le (c, l) =
        (HasCell-stable at (cell_method r) le c, l)
    IsLaid-stable (value_task t) at le l = HasCell-stable at (cell_task t) le l

    pub AreLaid-stable :
        (vs : Values) (at : ℕ) → at + used_all vs ≤ n → AreLaid vs b at → AreLaid vs b' at
    AreLaid-stable values_end at le l = tt
    AreLaid-stable (values_cons v vs) at le (l, ls) =
        (IsLaid-stable v at (omega arith) l, AreLaid-stable vs (at + used v) (omega arith) ls)
