-- ===== src/Object.antt =====
-- libchimp/object.c: the operations of an object, which its class or a class above it carries out. `S` is
-- the state that an operation may change, a reference is a number and NULL is 0.
pub mod Chain
pub mod Dispatch
mod Tests
use chimp.Common.{ℕ, zero, suc, Bool, true, false, Option, none, some, ◌==◌, if◌then◌else◌}
use chimp.Common.Runs.{Run, done, bug, fault, ◌>>=◌}
use chimp.Compare.{CmpResult, not_impl, eq}

-- The slots of `ChimpClass` of class.h that object.c reads; `none` is NULL.
pub record Class (S : Type 0) : Type 0 where
  pub super : ℕ
  pub cmp : Option (ℕ → ℕ → CmpResult)
  pub str : Option (ℕ → S → Run (ℕ × S))
  pub add : Option (ℕ → ℕ → S → Run (ℕ × S))
  pub sub : Option (ℕ → ℕ → S → Run (ℕ × S))
  pub mul : Option (ℕ → ℕ → S → Run (ℕ × S))
  pub div : Option (ℕ → ℕ → S → Run (ℕ × S))
  pub call : Option (ℕ → ℕ → S → Run (ℕ × S))
  pub getattr : Option (ℕ → ℕ → S → Run (ℕ × S))
  pub getitem : Option (ℕ → ℕ → S → Run (ℕ × S))

-- The objects' classes, and the classes by their references
pub record Classes (S : Type 0) : Type 0 where
  pub class_of : ℕ → ℕ
  pub class : ℕ → Class S

-- How a walk up the superclasses ends: at a slot, at NULL, or with the fuel used up, which stands for a
-- chain that does not end.
pub data Walk (A : Type 0) : Type 0 where
  found : A → Walk A
  no_slot out_of_fuel : Walk A

module _ {S : Type 0} (classes : Classes S) where
  -- `while (klass != NULL)` with the test of one slot
  unfoldable pub walk : {A : Type 0} → (Class S → Option A) → ℕ → ℕ → Walk A
  walk slot zero klass = out_of_fuel
  walk slot (suc fuel) klass =
      let rest = walk slot fuel (classes.class klass).super in
      if klass == 0
      then no_slot
      else elim (slot (classes.class klass)) [ some f ↦ found f | none ↦ rest ]

  -- `chimp_object_cmp`
  unfoldable pub object_cmp : ℕ → ℕ → CmpResult
  object_cmp a b = if a == b then eq else elim (classes.class (classes.class_of a)).cmp [
    | some f ↦ f a b
    | none ↦ elim (classes.class (classes.class_of b)).cmp [ some f ↦ f a b | none ↦ not_impl ]
  ]

  -- `chimp_object_str`
  unfoldable pub object_str : ℕ → S → Run (ℕ × S)
  object_str self s = elim (classes.class (classes.class_of self)).str [
    | some f ↦ f self s
    | none ↦ bug
  ]

  module _ (fuel : ℕ) where
    -- The walk of an operator, which aborts where no class has it; a chain without end does not return.
    unfoldable pub operate :
        (Class S → Option (ℕ → ℕ → S → Run (ℕ × S))) → ℕ → ℕ → S → Run (Option (ℕ × S))
    operate slot left right s = elim (walk slot fuel (classes.class_of left)) [
      | found f ↦ f left right s >>= (λ r. done (some r))
      | no_slot ↦ bug
      | out_of_fuel ↦ done none
    ]

    unfoldable pub object_add : ℕ → ℕ → S → Run (Option (ℕ × S))
    unfolding operate
    object_add = operate (λ c. c.add)

    unfoldable pub object_sub : ℕ → ℕ → S → Run (Option (ℕ × S))
    unfolding operate
    object_sub = operate (λ c. c.sub)

    unfoldable pub object_mul : ℕ → ℕ → S → Run (Option (ℕ × S))
    unfolding operate
    object_mul = operate (λ c. c.mul)

    -- `chimp_object_div` tests `mul` and calls `div`, which may be NULL.
    abbrev pub div_slot : Class S → Option (Option (ℕ → ℕ → S → Run (ℕ × S)))
    div_slot c = elim c.mul [ some _ ↦ some c.div | none ↦ none ]

    unfoldable pub object_div : ℕ → ℕ → S → Run (Option (ℕ × S))
    object_div left right s = elim (walk div_slot fuel (classes.class_of left)) [
      | found (some f) ↦ f left right s >>= (λ r. done (some r))
      | found none ↦ fault
      | no_slot ↦ bug
      | out_of_fuel ↦ done none
    ]

    -- The walk of a call or an access, which gives NULL where no class has it
    unfoldable pub access :
        (Class S → Option (ℕ → ℕ → S → Run (ℕ × S))) → ℕ → ℕ → S → Run (Option (ℕ × S))
    access slot self arg s = elim (walk slot fuel (classes.class_of self)) [
      | found f ↦ f self arg s >>= (λ r. done (some r))
      | no_slot ↦ done (some (0, s))
      | out_of_fuel ↦ done none
    ]

    unfoldable pub object_call : ℕ → ℕ → S → Run (Option (ℕ × S))
    unfolding access
    object_call = access (λ c. c.call)

    unfoldable pub object_getattr : ℕ → ℕ → S → Run (Option (ℕ × S))
    unfolding access
    object_getattr = access (λ c. c.getattr)

    unfoldable pub object_getitem : ℕ → ℕ → S → Run (Option (ℕ × S))
    unfolding access
    object_getitem = access (λ c. c.getitem)

    -- `chimp_object_call_method`, where `name` is the name as an object
    unfoldable pub object_call_method : ℕ → ℕ → ℕ → S → Run (Option (ℕ × S))
    object_call_method target name args s = object_getattr target name s >>= (λ o. elim o [
      | none ↦ done none
      | some r ↦ if r.0 == 0 then done (some (0, r.1)) else object_call r.0 args r.1
    ])

  -- `chimp_object_instance_of`; `none` where the chain does not end.
  unfoldable pub is_subclass : ℕ → ℕ → ℕ → Option Bool
  is_subclass zero c klass = none
  is_subclass (suc fuel) c klass =
      let rest = is_subclass fuel (classes.class c).super klass in
      if c == 0 then some false else (if c == klass then some true else rest)

  unfoldable pub object_instance_of : ℕ → ℕ → ℕ → Option Bool
  object_instance_of fuel object klass = is_subclass fuel (classes.class_of object) klass
