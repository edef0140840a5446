-- ===== src/Array/Methods/Walk.antt =====
-- libchimp/array.c: the loops that call a script's function on each item, as walks over a list.
use chimp.Common.{
  ℕ, suc, ◌+◌, ◌≤◌, ◌≡◌, refl, sym, ◌∙◌, ap, Bool, true, false, Option, some, none, List, [], ◌∷◌,
  ◌++◌, arith, length, take, inl, inr, if◌then◌else◌, Bool-cases,
}
use mathlib.Core.Option
use mathlib.Core.List.{append_assoc, append-nil}
use chimp.Common.Runs.{Run, done, bug, fault, ◌>>=◌, bind_assoc}
use chimp.Memory.{Allocator}
use chimp.Array.{Array, new}
use chimp.Array.Valid.{IsValid, contents}
use chimp.Array.Ends.{push_room}
use chimp.Array.Methods.{
  after, new_var, push_into, call_on, map_step, each_step, any_step, filter_step, Callback,
}
use chimp.Array.Granted.{Serves, new_with_capacity_lem, push_serves}
use chimp.Array.Methods.Loop.{over_list}

-- What the caller of a method sees of the array that it returns.
abbrev pub seen : {A S : Type 0} → Option (Array A) × S → Run (Option (List A) × S)
seen (r, s) = done (Option.map contents r, s)

module _ {A S : Type 0} (fn : Callback A S) where
  abbrev pub map_list : List A → S → Run (Option (List A) × S)
  map_list [] s = done (some [], s)
  map_list (x ∷ xs) s = fn (x ∷ []) s >>= λ (o, s'). elim o [
    | none ↦ done (none, s')
    | some y ↦ map_list xs s' >>= λ (r, s''). done (Option.map (λ ys. y ∷ ys) r, s'')
  ]

  abbrev pub each_list : A → List A → S → Run (Option A × S)
  each_list nil [] s = done (some nil, s)
  each_list nil (x ∷ xs) s =
      fn (x ∷ []) s >>= λ (o, s'). elim o [ none ↦ done (none, s') | some _ ↦ each_list nil xs s' ]

  abbrev pub any_list : (A → Bool) → List A → S → Run (Option Bool × S)
  any_list is_true [] s = done (some false, s)
  any_list is_true (x ∷ xs) s =
      let rest = any_list is_true xs in
      fn (x ∷ []) s >>= λ (o, s'). elim o [
        | none ↦ done (none, s')
        | some y ↦ if is_true y then done (some true, s') else rest s'
      ]

  abbrev pub filter_list : (A → Bool) → List A → S → Run (Option (List A) × S)
  filter_list is_true [] s = done (some [], s)
  filter_list is_true (x ∷ xs) s = fn (x ∷ []) s >>= λ (o, s'). elim o [
    | none ↦ done (none, s')
    | some y ↦ filter_list is_true xs s' >>= λ (r, s'').
        done (if is_true y then Option.map (λ ys. x ∷ ys) r else r, s'')
  ]

-- A continuation is read at NULL and at a value.
pub callback_congr :
    {A S B : Type 0} (run : Run (Option A × S)) (f g : Option A × S → Run B)
    → ((s : S) → f (none, s) ≡ g (none, s))
    → ((y : A) (s : S) → f (some y, s) ≡ g (some y, s))
    → (run >>= f) ≡ (run >>= g)
callback_congr (done (none, s)) f g p q = p s
callback_congr (done (some y, s)) f g p q = q y s
callback_congr bug f g p q = refl
callback_congr fault f g p q = refl

new_var_lem :
    {A : Type 0} (m : Allocator A) (value : A)
    → Serves m
    → (args : Array A) × (new_var m value ≡ done (some args)) × (contents args ≡ value ∷ [])
unfolding new_var new
new_var_lem m value serves =
    let (arr, e, v, z, c) = new_with_capacity_lem m serves 10 in
    let (args, p, h, _, _) = push_room m arr value v (omega arith) in
    (args, rw (e, new_var) (rw p), h.holds ∙ ap (λ k. take k arr.items ++ value ∷ []) z)

module _ {A S : Type 0} (m : Allocator A) (serves : Serves m) (nil : A) (self : S → Array A)
    (fn : Callback A S) where
  pub call_on_lem : (value : A) (s : S) → call_on m nil self fn value s ≡ fn (value ∷ []) s
  unfolding call_on
  call_on_lem value s = let (args, e, c) = new_var_lem m value serves in rw e (ap (λ xs. fn xs s) c)

  pub each_walk :
      (xs : List A) (i : ℕ) (s : S)
      → after (over_list (each_step m nil self fn) xs i s) (λ s'. (none, s')) (λ s'. (some nil, s'))
        ≡ each_list fn nil xs s
  unfolding each_step
  each_walk [] i s = refl
  each_walk (x ∷ xs) i s =
      rw (call_on_lem, bind_assoc, bind_assoc)
        (callback_congr (fn (x ∷ []) s) _ _ (λ s'. refl) (λ y s'. each_walk xs (suc i) s'))

  module _ (is_true : A → Bool) where
    pub any_walk :
        (xs : List A) (i : ℕ) (s : S)
        → after
            (over_list (any_step m nil self fn is_true) xs i s)
            (λ r. r)
            (λ s'. (some false, s'))
          ≡ any_list fn is_true xs s
    unfolding any_step
    any_walk [] i s = refl
    any_walk (x ∷ xs) i s =
        rw (call_on_lem, bind_assoc, bind_assoc)
          (callback_congr (fn (x ∷ []) s) _ _ (λ s'. refl)
            (λ y s'. elim (Bool-cases (is_true y)) [
              | inl t ↦ rw t
              | inr f ↦ rw f (any_walk xs (suc i) s')
            ]))

  abbrev pub behind : List A → Option (List A) × S → Run (Option (List A) × S)
  behind out (r, s) = done (Option.map (λ ys. out ++ ys) r, s)

  pub behind_nil : (run : Run (Option (List A) × S)) → (run >>= behind []) ≡ run
  behind_nil (done (none, s)) = refl
  behind_nil (done (some ys, s)) = refl
  behind_nil bug = refl
  behind_nil fault = refl

  behind_cons :
      (out : List A) (y : A) (run : Run (Option (List A) × S))
      → (run >>= behind (out ++ y ∷ []))
        ≡ ((run >>= λ (r, s). done (Option.map (λ ys. y ∷ ys) r, s)) >>= behind out)
  behind_cons out y run = rw bind_assoc (
      callback_congr run _ _ (λ s. refl)
        (λ ys s. ap (λ t. done (some t, s)) (append_assoc out (y ∷ []) ys)))

  pub map_walk :
      (xs : List A) (i : ℕ) (arr : Array A) (s : S)
      → IsValid arr
      → arr.size + length xs ≤ arr.capacity
      → (after (over_list (map_step m nil self fn) xs i (some arr, s)) (λ s'. (none, s')) (λ r. r)
          >>= seen)
        ≡ (map_list fn xs s >>= behind (contents arr))
  unfolding map_step push_into
  map_walk [] i arr s v room = ap (λ t. done (some t, s)) (sym (append-nil (contents arr)))
  map_walk (x ∷ xs) i arr s v room =
      rw (call_on_lem, bind_assoc, bind_assoc, bind_assoc, bind_assoc)
        (callback_congr (fn (x ∷ []) s) _ _ (λ s'. refl)
          (λ y s'.
            let (arr', p, h, sz, cap) = push_room m arr y v (omega arith) in
            rw p (
              sym (bind_assoc (over_list (map_step m nil self fn) xs (suc i) (some arr', s')) _ _)
              ∙ map_walk xs (suc i) arr' s' h.valid (omega arith)
              ∙ ap (λ out. map_list fn xs s' >>= behind out) h.holds
              ∙ behind_cons (contents arr) y (map_list fn xs s'))))

  module _ (is_true : A → Bool) where
    keep_cons :
        (keep : Bool) (out : List A) (y : A) (run : Run (Option (List A) × S))
        → (run >>= behind (if keep then out ++ y ∷ [] else out)) ≡ (
            (run >>= λ (r, s). done (if keep then Option.map (λ ys. y ∷ ys) r else r, s))
            >>= behind out)
    keep_cons true out y run = behind_cons out y run
    keep_cons false out y run = rw bind_assoc

    pub filter_walk :
        (xs : List A) (i : ℕ) (arr : Array A) (s : S)
        → IsValid arr
        → 2 ≤ arr.capacity
        → (after
              (over_list (filter_step m nil self fn is_true) xs i (some arr, s))
              (λ s'. (none, s'))
              (λ r. r)
            >>= seen)
          ≡ (filter_list fn is_true xs s >>= behind (contents arr))
    unfolding filter_step push_into
    filter_walk [] i arr s v two = ap (λ t. done (some t, s)) (sym (append-nil (contents arr)))
    filter_walk (x ∷ xs) i arr s v two =
        rw (call_on_lem, bind_assoc, bind_assoc, bind_assoc, bind_assoc)
          (callback_congr (fn (x ∷ []) s) _ _ (λ s'. refl)
            (λ y s'. elim (Bool-cases (is_true y)) [
              | inl t ↦
                  let (arr', p, h, two') = push_serves m serves arr x v two in
                  rw t (
                    rw p (
                      sym (
                        bind_assoc
                          (over_list (filter_step m nil self fn is_true) xs (suc i) (some arr', s'))
                          _ _)
                      ∙ filter_walk xs (suc i) arr' s' h.valid two'
                      ∙ ap (λ out. filter_list fn is_true xs s' >>= behind out) h.holds
                      ∙ behind_cons (contents arr) x (filter_list fn is_true xs s')))
              | inr f ↦ rw f (
                  sym (
                    bind_assoc
                      (over_list (filter_step m nil self fn is_true) xs (suc i) (some arr, s')) _ _)
                  ∙ filter_walk xs (suc i) arr s' v two
                  ∙ keep_cons false (contents arr) x (filter_list fn is_true xs s'))
            ]))
