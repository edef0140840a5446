-- ===== src/Table/Laws.antt =====
-- The search loop against the association list, and the laws of association lists.
use mathlib.Core.Option
use chimp.Common.{
  ℕ, zero, suc, ◌+◌, ◌≤◌, ◌≡◌, ◌≢◌, refl, ap, sym, ◌∙◌, none, some, List, [], ◌∷◌, ◌++◌, arith,
  length, take, drop, set, get_elem?, get_elem?-lt, get_elem?-take, drop-get_elem?, drop-all,
  length-take, inl, inr, ◌⊎◌, Option-cases, some_inj,
}
use chimp.Common.Runs.{done}
use chimp.Compare.{CmpResult, cmp_error, not_impl, lt, eq, gt}
use chimp.Memory.Laws.{read_lem}
use chimp.Table.{Found, failed, absent, found, on_key, scan, error, missing, value, look, update}

module _ {ℓ} {E : Type ℓ} (test : E → CmpResult) where
  -- The loop over a list, its first entry at index `i`.
  abbrev pub scan_list : List E → ℕ → Found
  scan_list [] i = absent
  scan_list (e ∷ es) i = elim (on_key i (test e)) [ some r ↦ r | none ↦ scan_list es (suc i) ]

  scan_rounds :
      (block : List E) (n k i : ℕ)
      → n ≤ length block
      → i + k ≡ n
      → scan test block k i ≡ done (scan_list (drop i (take n block)) i)
  unfolding scan
  scan_rounds block n zero i h e =
      rw (drop-all i (take n block) (omega (arith, length-take n block)))
  scan_rounds block n (suc k) i h e =
      let (x, q) = get_elem?-lt block i (omega arith) in
      rw
        (
          read_lem block i x q,
          drop-get_elem? (take n block) i x (get_elem?-take n i block (omega arith) ∙ q),
        )
        (elim (on_key i (test x))
          as (λ o.
            elim o [ some r ↦ done r | none ↦ scan test block k (suc i) ]
            ≡ done
                (elim o [ some r ↦ r | none ↦ scan_list (drop (suc i) (take n block)) (suc i) ])) [
                  | none ↦ scan_rounds block n k (suc i) h (omega arith)
                  | some r ↦ refl
                ])

  -- The loop over the first `n` cells of a block is the loop over their list.
  pub scan_lem :
      (block : List E) (n : ℕ)
      → n ≤ length block
      → scan test block n 0 ≡ done (scan_list (take n block) 0)
  scan_lem block n h = scan_rounds block n n 0 h (omega arith)

module _ {K V : Type 0} (cmp : K → K → CmpResult) (key : K) (v : V) where
  abbrev test : K × V → CmpResult
  test e = cmp e.0 key

  -- What a search of `m` that ended in `r` says of its lookup and its update.
  abbrev pub Agrees : List (K × V) → ℕ → Found → Type 0
  Agrees m i failed = (look cmp key m ≡ error) × (update cmp key v m ≡ none)
  Agrees m i absent = (look cmp key m ≡ missing) × (update cmp key v m ≡ some (m ++ (key, v) ∷ []))
  Agrees m i (found n) =
      (j : ℕ) × (k : K) × (w : V) × (n ≡ i + j)
      × (get_elem? m j ≡ some (k, w))
      × (look cmp key m ≡ value w)
      × (update cmp key v m ≡ some (set m j (k, v)))

  passed-Agrees :
      (k : K) (w : V) (m : List (K × V)) (i : ℕ) (f : Found)
      → look cmp key ((k, w) ∷ m) ≡ look cmp key m
      → update cmp key v ((k, w) ∷ m) ≡ Option.map (λ m'. (k, w) ∷ m') (update cmp key v m)
      → Agrees m (suc i) f
      → Agrees ((k, w) ∷ m) i f
  passed-Agrees k w m i failed p q (a, b) = (p ∙ a, q ∙ ap (Option.map (λ m'. (k, w) ∷ m')) b)
  passed-Agrees k w m i absent p q (a, b) = (p ∙ a, q ∙ ap (Option.map (λ m'. (k, w) ∷ m')) b)
  passed-Agrees k w m i (found n) p q (j, k', w', e, at, a, b) =
      (suc j, k', w', omega arith, at, p ∙ a, q ∙ ap (Option.map (λ m'. (k, w) ∷ m')) b)

  step-Agrees :
      (k : K) (w : V) (m : List (K × V)) (i : ℕ) (r : CmpResult)
      → cmp k key ≡ r
      → Agrees m (suc i) (scan_list test m (suc i))
      → Agrees ((k, w) ∷ m) i (elim (on_key i r) [ some f ↦ f | none ↦ scan_list test m (suc i) ])
  step-Agrees k w m i cmp_error e h = (rw (e, look), rw (e, update))
  step-Agrees k w m i eq e h = (0, k, w, omega arith, refl, rw (e, look), rw (e, update))
  step-Agrees k w m i not_impl e h = passed-Agrees k w m i _ (rw (e, look)) (rw (e, update)) h
  step-Agrees k w m i lt e h = passed-Agrees k w m i _ (rw (e, look)) (rw (e, update)) h
  step-Agrees k w m i gt e h = passed-Agrees k w m i _ (rw (e, look)) (rw (e, update)) h

  -- The search of an association list finds what its lookup and its update find.
  pub search-Agrees : (m : List (K × V)) (i : ℕ) → Agrees m i (scan_list test m i)
  search-Agrees [] i = (refl, refl)
  search-Agrees ((k, w) ∷ m) i = step-Agrees k w m i (cmp k key) refl (search-Agrees m (suc i))

module _ {K V : Type 0} (cmp : K → K → CmpResult) (key : K) (v : V) where
  -- No key is found both for `key` and for `other`, and `other` is gone past at `key`.
  pub record Apart (other : K) : Type 0 where
    pub passed : (cmp key other ≢ eq) × (cmp key other ≢ cmp_error)
    pub apart : (k : K) → cmp k key ≡ eq → (cmp k other ≢ eq) × (cmp k other ≢ cmp_error)

  look_passed :
      (other k : K) (w : V) (m : List (K × V))
      → cmp k other ≢ eq
      → cmp k other ≢ cmp_error
      → look cmp other ((k, w) ∷ m) ≡ look cmp other m
  look_passed other k w m p q = go (cmp k other) refl
    where
      go : (r : CmpResult) → cmp k other ≡ r → look cmp other ((k, w) ∷ m) ≡ look cmp other m
      go cmp_error e = absurd (q e)
      go eq e = absurd (p e)
      go not_impl e = rw (e, look)
      go lt e = rw (e, look)
      go gt e = rw (e, look)

  -- How an update of a list with a first entry came out.
  abbrev Updated : K → V → List (K × V) → List (K × V) → Type 0
  Updated k w m m' =
      ((cmp k key ≡ eq) × (m' ≡ (k, v) ∷ m))
      ⊎ ((m'' : List (K × V)) × (update cmp key v m ≡ some m'')
          × (m' ≡ (k, w) ∷ m'')
          × (cmp k key ≢ eq)
          × (cmp k key ≢ cmp_error))

  update_rest :
      (k : K) (w : V) (m m' : List (K × V))
      → cmp k key ≢ eq
      → cmp k key ≢ cmp_error
      → Option.map (λ t. (k, w) ∷ t) (update cmp key v m) ≡ some m'
      → Updated k w m m'
  update_rest k w m m' p q e = elim (Option-cases (update cmp key v m)) [
    | inl n ↦ absurd (cc (rw n at e))
    | inr (m'', s) ↦ inr (m'', s, ground (arith, s), p, q)
  ]

  update_cons :
      (k : K) (w : V) (m m' : List (K × V))
      → update cmp key v ((k, w) ∷ m) ≡ some m'
      → Updated k w m m'
  update_cons k w m m' e = go (cmp k key) refl
    where
      go : (r : CmpResult) → cmp k key ≡ r → Updated k w m m'
      go cmp_error c = absurd (cc (rw (c, update) at e))
      go eq c = inl (c, some_inj (sym (rw (c, update) at e)))
      go not_impl c = update_rest k w m m' (cc c) (cc c) (rw (c, update) at e)
      go lt c = update_rest k w m m' (cc c) (cc c) (rw (c, update) at e)
      go gt c = update_rest k w m m' (cc c) (cc c) (rw (c, update) at e)

  -- After an update the key is looked up as the new value.
  pub look-update_self :
      (m m' : List (K × V))
      → cmp key key ≡ eq
      → update cmp key v m ≡ some m'
      → look cmp key m' ≡ value v
  look-update_self [] m' self e =
      let q : (key, v) ∷ [] ≡ m' = some_inj e in rw (← q) (rw (self, look))
  look-update_self ((k, w) ∷ m) m' self e = elim (update_cons k w m m' e) [
    | inl (c, q) ↦ rw q (rw (c, look))
    | inr (m'', s, q, p, r) ↦ rw q (look_passed key k w m'' p r ∙ look-update_self m m'' self s)
  ]

  -- After an update every key that is apart from it is looked up as before.
  pub look-update_other :
      (other : K) (m m' : List (K × V))
      → Apart other
      → update cmp key v m ≡ some m'
      → look cmp other m' ≡ look cmp other m
  look-update_other other [] m' a e =
      let q : (key, v) ∷ [] ≡ m' = some_inj e in
      rw (← q) (look_passed other key v [] a.passed.0 a.passed.1)
  look-update_other other ((k, w) ∷ m) m' a e = elim (update_cons k w m m' e) [
    | inl (c, q) ↦
        let (p, r) = a.apart k c in
        rw q (look_passed other k v m p r ∙ sym (look_passed other k w m p r))
    | inr (m'', s, q, p, r) ↦
        let h : look cmp other m'' ≡ look cmp other m = look-update_other other m m'' a s in
        rw q (λ i. elim (cmp k other) [ cmp_error ↦ error | eq ↦ value w | _ ↦ h i ])
  ]
