-- ===== src/Array/Methods/Live.antt =====
-- libchimp/array.c: the methods that call a script's function on each item, where the function leaves the
-- array as it is, against walks over lists.
use chimp.Common.{
  ℕ, ◌≤◌, ◌<◌, subst, ◌≡◌, ◌^◌, refl, sym, ◌∙◌, ap, Bool, true, false, Option, some, none, List, [],
  ◌∷◌, arith, take, if◌then◌else◌,
}
use chimp.Common.Runs.{
  Run, done, bug, fault, ◌>>=◌, Always, Always-bind, Always-done, Always-if, Always-intro,
}
use chimp.Memory.{Allocator}
use chimp.Array.{Array, new}
use chimp.Array.Valid.{IsValid, contents, length-contents}
use chimp.Array.Methods.{
  after, push_into, call_on, map_step, map, each_step, each, any_step, any, filter_step, filter,
  Callback, Next, go, stop, after_live, for_items, live_rounds,
}
use chimp.Array.Granted.{Serves, new_with_capacity_lem}
use chimp.Array.Methods.Loop.{for_items_lem, live_rounds_lem}
use chimp.Array.Methods.Walk.{
  seen, map_list, each_list, any_list, filter_list, call_on_lem, each_walk, any_walk, behind,
  behind_nil, map_walk, filter_walk,
}

abbrev pub seen_live :
    {A S : Type 0} → Option (Option (Array A) × S) → Run (Option (Option (List A) × S))
seen_live none = done none
seen_live (some r) = seen r >>= λ r'. done (some r')

-- A result of a loop that ended
abbrev pub ended : {R : Type 0} → R → Run (Option R)
ended r = done (some r)

after_live-ended :
    {S R T : Type 0} (m : Run (Next S R)) (found : R → T) (otherwise : S → T)
    → after_live (m >>= ended) found otherwise ≡ (after m found otherwise >>= ended)
after_live-ended (done (go s)) found otherwise = refl
after_live-ended (done (stop r)) found otherwise = refl
after_live-ended bug found otherwise = refl
after_live-ended fault found otherwise = refl

ended-seen :
    {A S : Type 0} (m : Run (Option (Array A) × S))
    → (m >>= ended >>= seen_live) ≡ (m >>= seen >>= ended)
ended-seen (done r) = refl
ended-seen bug = refl
ended-seen fault = refl

-- A loop that leaves its array as it is, with enough rounds granted, is one over the items that the array
-- has at first.
live_items_lem :
    {A S R T : Type 0} (nil : A) (self : S → Array A) (body : ℕ → A → S → Run (Next S R)) (s : S)
    (fuel : ℕ) (found : R → T) (otherwise : S → T)
    → ((i : ℕ) (x : A) (s s' : S) → body i x s ≡ done (go s') → self s' ≡ self s)
    → (self s).size < fuel
    → after_live (live_rounds nil self body fuel 0 s) found otherwise
      ≡ (after (for_items nil (self s) body s) found otherwise >>= ended)
unfolding for_items
live_items_lem nil self body s fuel found otherwise leaves enough =
    ap (λ t. after_live t found otherwise)
      (live_rounds_lem nil self body (self s).size fuel 0 (self s) s leaves refl (omega arith)
        enough)
    ∙ after_live-ended (for_items nil (self s) body s) found otherwise

module _ {A S : Type 0} (m : Allocator A) (serves : Serves m) (nil : A) (self : S → Array A)
    (fn : Callback A S) where
  -- The function leaves the array as it is.
  abbrev pub LeavesArray : Type 0
  LeavesArray =
      (args : List A) (s s' : S) (o : Option A) → fn args s ≡ done (o, s') → self s' ≡ self s

  call_on-Leaves :
      (value : A) (s : S)
      → LeavesArray
      → Always (λ (o, s'). self s' ≡ self s) (call_on m nil self fn value s)
  call_on-Leaves value s leaves =
      subst (Always (λ (o, s'). self s' ≡ self s)) (sym (call_on_lem m serves nil self fn value s))
        (Always-intro _ (fn (value ∷ []) s) (λ (o, s') e. leaves (value ∷ []) s s' o e))

  -- A round that goes on leaves the array as it is.
  abbrev GoLeaves : {T R : Type 0} → (T → S) → S → Next T R → Type 0
  GoLeaves state s (go t) = self (state t) ≡ self s
  GoLeaves state s (stop r) = Unit

  map_step-Leaves :
      (i : ℕ) (x : A) (r : Option (Array A)) (s : S)
      → LeavesArray
      → Always (GoLeaves (λ (r, s). s) s) (map_step m nil self fn i x (r, s))
  unfolding map_step
  map_step-Leaves i x r s leaves =
      Always-bind _ (call_on m nil self fn x s) _
        (λ (o, s') e. at o s' (Always-done _ _ (o, s') e (call_on-Leaves x s leaves)))
    where
      at :
          (o : Option A) (s' : S)
          → self s' ≡ self s
          → Always
              (GoLeaves (λ (r, s). s) s)
              (elim o as (λ _. Run (Next (Option (Array A) × S) S)) [
                | none ↦ done (stop s')
                | some y ↦ push_into m r y >>= λ result'. done (go (result', s'))
              ])
      at none s' same = tt
      at (some y) s' same = Always-bind _ (push_into m r y) _ (λ _ _. same)

  filter_step-Leaves :
      (is_true : A → Bool) (i : ℕ) (x : A) (r : Option (Array A)) (s : S)
      → LeavesArray
      → Always (GoLeaves (λ (r, s). s) s) (filter_step m nil self fn is_true i x (r, s))
  unfolding filter_step
  filter_step-Leaves is_true i x r s leaves =
      Always-bind _ (call_on m nil self fn x s) _
        (λ (o, s') e. at o s' (Always-done _ _ (o, s') e (call_on-Leaves x s leaves)))
    where
      at :
          (o : Option A) (s' : S)
          → self s' ≡ self s
          → Always
              (GoLeaves (λ (r, s). s) s)
              (elim o as (λ _. Run (Next (Option (Array A) × S) S)) [
                | none ↦ done (stop s')
                | some y ↦
                    if is_true y
                    then push_into m r x >>= (λ result'. done (go (result', s')))
                    else done (go (r, s'))
              ])
      at none s' same = tt
      at (some y) s' same =
          Always-if _ (is_true y) _ _ (λ _. Always-bind _ (push_into m r x) _ (λ _ _. same))
            (λ _. same)

  each_step-Leaves :
      (i : ℕ) (x : A) (s : S)
      → LeavesArray
      → Always (GoLeaves (λ s. s) s) (each_step m nil self fn i x s)
  unfolding each_step
  each_step-Leaves i x s leaves =
      Always-bind _ (call_on m nil self fn x s) _
        (λ (o, s') e. at o s' (Always-done _ _ (o, s') e (call_on-Leaves x s leaves)))
    where
      at :
          (o : Option A) (s' : S)
          → self s' ≡ self s
          → Always
              (GoLeaves (λ s. s) s)
              (elim o as (λ _. Run (Next S S)) [ none ↦ done (stop s') | some _ ↦ done (go s') ])
      at none s' same = tt
      at (some y) s' same = same

  any_step-Leaves :
      (is_true : A → Bool) (i : ℕ) (x : A) (s : S)
      → LeavesArray
      → Always (GoLeaves (λ s. s) s) (any_step m nil self fn is_true i x s)
  unfolding any_step
  any_step-Leaves is_true i x s leaves =
      Always-bind _ (call_on m nil self fn x s) _
        (λ (o, s') e. at o s' (Always-done _ _ (o, s') e (call_on-Leaves x s leaves)))
    where
      at :
          (o : Option A) (s' : S)
          → self s' ≡ self s
          → Always (GoLeaves (λ s. s) s) (elim o as (λ _. Run (Next S (Option Bool × S))) [
            | none ↦ done (stop (none, s'))
            | some y ↦ if is_true y then done (stop (some true, s')) else done (go s')
          ])
      at none s' same = tt
      at (some y) s' same = Always-if _ (is_true y) _ _ (λ _. tt) (λ _. same)

  module _ (leaves : LeavesArray) (s : S) (v : IsValid (self s)) (small : (self s).size ≤ 2 ^ 31)
      (fuel : ℕ) (enough : (self s).size < fuel) where
    -- `_chimp_array_map` on a valid array of at most 2^31 items, with memory granted and a function that
    -- leaves the array as it is: the loop ends, the function is called once on each item in order, up to the
    -- first NULL, and the array returned holds the results in order; what the calls do to the state, and a
    -- call that aborts or faults, is passed on.
    pub map_lem :
        (map m nil self fn fuel s >>= seen_live) ≡ (map_list fn (contents (self s)) s >>= ended)
    unfolding map
    map_lem =
        let (arr, e, w, z, c) = new_with_capacity_lem m serves (self s).size in
        rw e (
          ap (λ t. t >>= seen_live)
            (live_items_lem nil (λ (r, s). self s) (map_step m nil self fn) (some arr, s) fuel
              (λ s'. (none, s')) (λ r. r)
              (λ i x (r, s) (r', s') p.
                Always-done _ _ (go (r', s')) p (map_step-Leaves i x r s leaves))
              enough)
          ∙ ended-seen (
              after (for_items nil (self s) (map_step m nil self fn) (some arr, s))
                (λ s'. (none, s')) (λ r. r))
          ∙ ap (λ t. t >>= ended)
              (rw (for_items_lem nil (self s) (map_step m nil self fn) v small (some arr, s)) (
                map_walk m serves nil self fn (contents (self s)) 0 arr s w
                  (omega (arith, length-contents (self s) v))
                ∙ ap
                    (λ k.
                      map_list fn (contents (self s)) s
                      >>= behind m serves nil self fn (take k arr.items))
                    z
                ∙ behind_nil m serves nil self fn (map_list fn (contents (self s)) s))))

    -- `_chimp_array_each` on a valid array of at most 2^31 items, with memory granted and a function that
    -- leaves the array as it is, calls the function once on each item in order, up to the first NULL.
    pub each_lem : each m nil self fn fuel s ≡ (each_list fn nil (contents (self s)) s >>= ended)
    unfolding each
    each_lem =
        live_items_lem nil self (each_step m nil self fn) s fuel (λ s'. (none, s'))
          (λ s'. (some nil, s'))
          (λ i x s s' p. Always-done _ _ (go s') p (each_step-Leaves i x s leaves)) enough
        ∙ ap (λ t. t >>= ended)
            (rw (for_items_lem nil (self s) (each_step m nil self fn) v small s)
              (each_walk m serves nil self fn (contents (self s)) 0 s))

    module _ (is_true : A → Bool) where
      -- `_chimp_array_any` on a valid array of at most 2^31 items, with memory granted and a function that
      -- leaves the array as it is, calls the function on the items in order up to the first that gives true
      -- or NULL, and returns true, NULL or false accordingly.
      pub any_lem :
          any m nil self fn is_true fuel s ≡ (any_list fn is_true (contents (self s)) s >>= ended)
      unfolding any
      any_lem =
          live_items_lem nil self (any_step m nil self fn is_true) s fuel (λ r. r)
            (λ s'. (some false, s'))
            (λ i x s s' p. Always-done _ _ (go s') p (any_step-Leaves is_true i x s leaves)) enough
          ∙ ap (λ t. t >>= ended)
              (rw (for_items_lem nil (self s) (any_step m nil self fn is_true) v small s)
                (any_walk m serves nil self fn is_true (contents (self s)) 0 s))

      -- `_chimp_array_filter` on a valid array of at most 2^31 items, with memory granted and a function that
      -- leaves the array as it is: the loop ends, the function is called once on each item in order, up to
      -- the first NULL, and the array returned has the items for which it gives true, in order.
      pub filter_lem :
          (filter m nil self fn is_true fuel s >>= seen_live)
          ≡ (filter_list fn is_true (contents (self s)) s >>= ended)
      unfolding filter new
      filter_lem =
          let (arr, e, w, z, c) = new_with_capacity_lem m serves 10 in
          rw e (
            ap (λ t. t >>= seen_live)
              (live_items_lem nil (λ (r, s). self s) (filter_step m nil self fn is_true)
                (some arr, s) fuel (λ s'. (none, s')) (λ r. r)
                (λ i x (r, s) (r', s') p.
                  Always-done _ _ (go (r', s')) p (filter_step-Leaves is_true i x r s leaves))
                enough)
            ∙ ended-seen (
                after (for_items nil (self s) (filter_step m nil self fn is_true) (some arr, s))
                  (λ s'. (none, s')) (λ r. r))
            ∙ ap (λ t. t >>= ended)
                (rw
                  (for_items_lem nil (self s) (filter_step m nil self fn is_true) v small
                    (some arr, s))
                  (filter_walk m serves nil self fn is_true (contents (self s)) 0 arr s w
                      (omega arith)
                    ∙ ap
                        (λ k.
                          filter_list fn is_true (contents (self s)) s
                          >>= behind m serves nil self fn (take k arr.items))
                        z
                    ∙ behind_nil m serves nil self fn
                        (filter_list fn is_true (contents (self s)) s))))
