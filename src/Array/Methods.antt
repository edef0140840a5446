-- ===== src/Array/Methods.antt =====
-- libchimp/array.c: the methods that a script calls, behind the parsing of their arguments, and the
-- class's `cmp` and `add`. A method that returns NULL returns `none`.
-- `fn` is `chimp_object_call` of the script's function, on its argument list and the state `S` of
-- everything, of which `self` is the array that the method walks: the function may change that too.
pub mod Loop
pub mod Walk
pub mod Live
pub mod Search
pub mod Remove
pub mod Concat
use chimp.Common.{
  ℕ, zero, suc, ◌+◌, ◌-◌, Bool, true, false, Option, none, some, List, ltb, leb, ◌==◌,
  if◌then◌else◌, take,
}
use chimp.Common.Int.{ℤ, pos, negsuc}
use chimp.Common.Runs.{Run, done, bug, ◌>>=◌}
use chimp.Compare.{CmpResult, cmp_error, not_impl, lt, eq, gt}
use chimp.Memory.{Allocator, write}
use chimp.Array.{Array, new, new_with_capacity, push, item, remove_at_internal}

-- What a round of a loop does: it goes on, or its function returns.
pub data Next {ℓ κ} (S : Type ℓ) (R : Type κ) : Type (ℓ ⊔ κ) where
  go : S → Next S R
  stop : R → Next S R

module _ {A S R : Type 0} where
  -- `for (i = 0; i < CHIMP_ARRAY_SIZE(self); i++)` over the items, with `k` rounds left
  unfoldable pub rounds : A → Array A → (ℕ → A → S → Run (Next S R)) → ℕ → ℕ → S → Run (Next S R)
  rounds nil self body zero i s = done (go s)
  rounds nil self body (suc k) i s = do
    x ← item nil self i
    next ← body i x s
    elim next [ go s' ↦ rounds nil self body k (suc i) s' | stop r ↦ done (stop r) ]

  unfoldable pub for_items : A → Array A → (ℕ → A → S → Run (Next S R)) → S → Run (Next S R)
  unfolding rounds
  for_items nil self body s = rounds nil self body self.size 0 s

  -- The same loop where a round may change the array: its size and the item are read anew each time.
  -- `none` is a loop that the rounds granted do not end.
  unfoldable pub live_rounds :
      A → (S → Array A) → (ℕ → A → S → Run (Next S R)) → ℕ → ℕ → S → Run (Option (Next S R))
  live_rounds nil self body zero i s = done none
  live_rounds nil self body (suc fuel) i s =
      if ltb i (self s).size
      then item nil (self s) i >>= (λ x. body i x s >>= (λ next. elim next [
        | go s' ↦ live_rounds nil self body fuel (suc i) s'
        | stop r ↦ done (some (stop r))
      ]))
      else done (some (go s))

-- A function that leaves its loop, or falls through it to `otherwise`.
abbrev pub after : {S R T : Type 0} → Run (Next S R) → (R → T) → (S → T) → Run T
after m found otherwise =
    m >>= λ next. elim next [ go s ↦ done (otherwise s) | stop r ↦ done (found r) ]

abbrev pub after_live :
    {S R T : Type 0} → Run (Option (Next S R)) → (R → T) → (S → T) → Run (Option T)
after_live m found otherwise = m >>= λ o. elim o [
  | none ↦ done none
  | some next ↦ done (some (elim next [ go s ↦ otherwise s | stop r ↦ found r ]))
]

-- The tests on the result of `chimp_object_cmp` in a search, at index `i`.
abbrev pub on_cmp : ℕ → CmpResult → Next (Unit {0}) (Option ℕ)
on_cmp i cmp_error = stop none
on_cmp i eq = stop (some i)
on_cmp i _ = go tt

-- The test in the loop of `_chimp_array_cmp`.
abbrev pub on_pair : CmpResult → Next (Unit {0}) CmpResult
on_pair eq = go tt
on_pair r = stop r

abbrev pub Callback : Type 0 → Type 0 → Type 0
Callback A S = List A → S → Run (Option A × S)

module _ {A : Type 0} where
  -- `chimp_array_new_var (value, NULL)`
  unfoldable pub new_var : Allocator A → A → Run (Option (Array A))
  unfolding new
  new_var m value = elim (new m) [
    | none ↦ done none
    | some arr ↦ push m arr value >>= λ arr'. done (some arr')
  ]

  -- `chimp_array_push (result, value)`, which aborts on a NULL result
  unfoldable pub push_into : Allocator A → Option (Array A) → A → Run (Option (Array A))
  push_into m none value = bug
  push_into m (some arr) value = push m arr value >>= λ arr'. done (some arr')

  module _ {S : Type 0} (m : Allocator A) (nil : A) (self : S → Array A) (fn : Callback A S) where
    -- A call of the function on one item; NULL arguments and a NULL result are `none`.
    unfoldable pub call_on : A → S → Run (Option A × S)
    unfolding new_var
    call_on value s = new_var m value >>= λ o. elim o [
      | none ↦ done (none, s)
      | some args ↦ fn (take args.size args.items) s
    ]

    -- `_chimp_array_map`
    unfoldable pub map_step : ℕ → A → Option (Array A) × S → Run (Next (Option (Array A) × S) S)
    unfolding call_on push_into
    map_step i value (result, s) = do
      (mapped, s') ← call_on value s
      elim mapped [
        | none ↦ done (stop s')
        | some y ↦ push_into m result y >>= λ result'. done (go (result', s'))
      ]

    unfoldable pub map : ℕ → S → Run (Option (Option (Array A) × S))
    unfolding map_step live_rounds
    map fuel s =
        after_live
          (live_rounds nil (λ (result, s). self s) map_step fuel 0
            (new_with_capacity m (self s).size, s))
          (λ s'. (none, s')) (λ r. r)

    -- `_chimp_array_each`; `some nil` is its normal result.
    unfoldable pub each_step : ℕ → A → S → Run (Next S S)
    unfolding call_on
    each_step i value s = do
      (r, s') ← call_on value s
      elim r [ none ↦ done (stop s') | some _ ↦ done (go s') ]

    unfoldable pub each : ℕ → S → Run (Option (Option A × S))
    unfolding each_step live_rounds
    each fuel s =
        after_live (live_rounds nil self each_step fuel 0 s) (λ s'. (none, s'))
          (λ s'. (some nil, s'))

    module _ (is_true : A → Bool) where
      -- `_chimp_array_any`; `is_true` is the test against `chimp_true`.
      unfoldable pub any_step : ℕ → A → S → Run (Next S (Option Bool × S))
      unfolding call_on
      any_step i value s = do
        (r, s') ← call_on value s
        elim r [
          | none ↦ done (stop (none, s'))
          | some y ↦ if is_true y then done (stop (some true, s')) else done (go s')
        ]

      unfoldable pub any : ℕ → S → Run (Option (Option Bool × S))
      unfolding any_step live_rounds
      any fuel s =
          after_live (live_rounds nil self any_step fuel 0 s) (λ r. r) (λ s'. (some false, s'))

      -- `_chimp_array_filter`
      unfoldable pub filter_step :
          ℕ → A → Option (Array A) × S → Run (Next (Option (Array A) × S) S)
      unfolding call_on push_into
      filter_step i value (result, s) = do
        (r, s') ← call_on value s
        elim r [
          | none ↦ done (stop s')
          | some y ↦
              if is_true y
              then push_into m result value >>= (λ result'. done (go (result', s')))
              else done (go (result, s'))
        ]

      unfoldable pub filter : ℕ → S → Run (Option (Option (Array A) × S))
      unfolding filter_step live_rounds new
      filter fuel s =
          after_live (live_rounds nil (λ (result, s). self s) filter_step fuel 0 (new m, s))
            (λ s'. (none, s')) (λ r. r)

  module _ (nil : A) (cmp : A → A → CmpResult) (self : Array A) where
    -- The loop of `chimp_array_find`, `_chimp_array_contains` and `_chimp_array_remove`: the index of
    -- the first item that compares equal, or `none` at an error.
    unfoldable pub find_step : A → ℕ → A → Unit {0} → Run (Next (Unit {0}) (Option ℕ))
    find_step value i x s = done (on_cmp i (cmp x value))

    -- `chimp_array_find`; `none` is -1.
    unfoldable pub find : A → Run (Option ℕ)
    unfolding find_step for_items
    find value = after (for_items nil self (find_step value) tt) (λ r. r) (λ _. none)

    -- `_chimp_array_contains`
    unfoldable pub contains : A → Run (Option Bool)
    unfolding find_step for_items
    contains value =
        after (for_items nil self (find_step value) tt) (elim [ none ↦ none | some i ↦ some true ])
          (λ _. some false)

    -- `_chimp_array_remove`
    unfoldable pub remove : A → Run (Option Bool × Array A)
    unfolding find_step for_items
    remove value = do
      next ← for_items nil self (find_step value) tt
      elim next [
        | go _ ↦ done (some false, self)
        | stop r ↦ elim r [
          | none ↦ done (none, self)
          | some i ↦ remove_at_internal self i >>= λ self'. done (some true, self')
        ]
      ]

    -- `_chimp_array_cmp`, with `self` on the left
    unfoldable pub cmp_step : Array A → ℕ → A → Unit {0} → Run (Next (Unit {0}) CmpResult)
    cmp_step right i lval s = do rval ← item nil right i; done (on_pair (cmp lval rval))

    unfoldable pub cmp_arrays : Array A → Run CmpResult
    unfolding cmp_step for_items
    cmp_arrays right =
        if self.size == right.size
        then after (for_items nil self (cmp_step right) tt) (λ r. r) (λ _. eq)
        else done not_impl

  -- `_chimp_array_remove_at`: the item that it removes
  unfoldable pub remove_position : Array A → ℤ → Option ℕ
  remove_position self (pos n) = if ltb n self.size then some n else none
  remove_position self (negsuc n) = if ltb n self.size then some (self.size - suc n) else none

  unfoldable pub remove_at : A → Array A → ℤ → Run (A × Array A)
  unfolding remove_position
  remove_at nil self p = elim (remove_position self p) [
    | none ↦ bug
    | some i ↦
        item nil self i
        >>= (λ removed. remove_at_internal self i >>= (λ self'. done (removed, self')))
  ]

  -- `_chimp_array_add` of two arrays: the loops that fill the new block
  unfoldable pub copy_step : ℕ → ℕ → A → List A → Run (Next (List A) ⊥)
  copy_step offset i x items = write items (offset + i) x >>= λ items'. done (go items')

  unfoldable pub add : Allocator A → A → Array A → Array A → Run (Array A)
  unfolding copy_step for_items
  add m nil self other = elim (new_with_capacity m (self.size + other.size)) [
    | none ↦ bug
    | some fresh ↦ for_items nil self (copy_step 0) fresh.items >>= elim [
      | stop e ↦ absurd e
      | go half ↦ for_items nil other (copy_step self.size) half >>= elim [
        | stop e ↦ absurd e
        | go items ↦ done (record fresh { items = items; size = self.size + other.size })
      ]
    ]
  ]
